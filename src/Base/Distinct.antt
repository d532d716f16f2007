-- ===== src/Base/Distinct.antt =====
-- Lists of texts without repetition, and sets kept as such lists.
use Prim.Native.String.{String}
use mathlib.Core.Path.{◌≡◌, sym, ◌∙◌, subst}
use mathlib.Core.Bool.{Bool}
use mathlib.Core.List.{List, [], ◌∷◌, ◌++◌, append_assoc, append-nil}
use mathlib.Core.Logic.{◌⊎◌, ◌↔◌, inl, inr}
use native.Mathlib.Omega.{arith}
use full_revna_like_projekt.Base.Tests.{Bool-cases}
use full_revna_like_projekt.Base.Lists.{
  Among, includes, includes_iff, insert_text, insert_texts, filter, filter-Among,
}

abbrev pub Distinct : List String → Type 0
Distinct [] = Unit
Distinct (x ∷ xs) = (¬ Among x xs) × Distinct xs

module _ {A : Type 0} where
  pub Among-append : (a : A) (xs ys : List A) → Among a (xs ++ ys) ↔ (Among a xs ⊎ Among a ys)
  Among-append a [] ys = (λ h. inr h, λ h. elim h [ inl e ↦ absurd e | inr m ↦ m ])
  Among-append a (x ∷ xs) ys = let ih = Among-append a xs ys in ground arith

pub Distinct-snoc :
    (xs : List String) (s : String) → Distinct xs → ¬ Among s xs → Distinct (xs ++ s ∷ [])
Distinct-snoc [] s d n = (λ h. h, tt)
Distinct-snoc (x ∷ xs) s (m, d) n = (
  λ h. elim ((Among-append x xs (s ∷ [])).0 h) [
    | inl there ↦ m there
    | inr (inl e) ↦ n (inl (sym e))
    | inr (inr none) ↦ none
  ],
  Distinct-snoc xs s d (λ h. n (inr h)),
)

-- An entry of a list without repetition is not in front of itself.
pub Distinct-apart :
    (xs : List String) (s : String) (ys : List String) → Distinct (xs ++ s ∷ ys) → ¬ Among s xs
Distinct-apart [] s ys d m = m
Distinct-apart (x ∷ xs) s ys (n, d) (inl e) = n ((Among-append x xs (s ∷ ys)).1 (inr (inl (sym e))))
Distinct-apart (x ∷ xs) s ys (n, d) (inr m) = Distinct-apart xs s ys d m

pub insert_text-Distinct :
    (xs : List String) (s : String) → Distinct xs → Distinct (insert_text xs s)
insert_text-Distinct xs s d = elim (Bool-cases (includes s xs)) [
  | inl there ↦ rw there d
  | inr new ↦ rw new (Distinct-snoc xs s d (λ h. absurd (cc ((includes_iff s xs).1 h, new))))
]

pub Among-insert_text :
    (xs : List String) (s t : String) → Among t (insert_text xs s) ↔ (Among t xs ⊎ (t ≡ s))
Among-insert_text xs s t = elim (Bool-cases (includes s xs)) [
  | inl there ↦ rw there (
    λ h. inl h,
    λ h. elim h [
      | inl m ↦ m
      | inr e ↦ subst (λ u. Among u xs) (sym e) ((includes_iff s xs).0 there)
    ],
  )
  | inr new ↦ rw new (
    λ h. elim ((Among-append t xs (s ∷ [])).0 h) [
      | inl m ↦ inl m
      | inr (inl e) ↦ inr e
      | inr (inr none) ↦ absurd none
    ],
    λ h. (Among-append t xs (s ∷ [])).1 (elim h [ inl m ↦ inl m | inr e ↦ inr (inl e) ]),
  )
]

pub insert_texts-Distinct : (xs ss : List String) → Distinct xs → Distinct (insert_texts xs ss)
insert_texts-Distinct xs [] d = d
insert_texts-Distinct xs (s ∷ ss) d =
    insert_texts-Distinct (insert_text xs s) ss (insert_text-Distinct xs s d)

pub Among-insert_texts :
    (xs ss : List String) (t : String) → Among t (insert_texts xs ss) ↔ (Among t xs ⊎ Among t ss)
Among-insert_texts xs [] t = (λ h. inl h, λ h. elim h [ inl m ↦ m | inr none ↦ absurd none ])
Among-insert_texts xs (s ∷ ss) t =
    let ih = Among-insert_texts (insert_text xs s) ss t in
    let one = Among-insert_text xs s t in ground arith

-- What was there stays in front.
pub insert_texts-prefix :
    (xs ss : List String) → (ys : List String) × (insert_texts xs ss ≡ xs ++ ys)
insert_texts-prefix xs [] = ([], sym (append-nil xs))
insert_texts-prefix xs (s ∷ ss) = elim (Bool-cases (includes s xs)) [
  | inl there ↦ rw there (insert_texts-prefix xs ss)
  | inr new ↦
      let (ys, e) = insert_texts-prefix (xs ++ s ∷ []) ss in
      rw new (s ∷ ys, e ∙ append_assoc xs (s ∷ []) ys)
]

pub filter-Distinct : (p : String → Bool) (xs : List String) → Distinct xs → Distinct (filter p xs)
filter-Distinct p [] d = tt
filter-Distinct p (x ∷ xs) (n, d) = elim (Bool-cases (p x)) [
  | inl kept ↦ rw kept (λ h. n (filter-Among p xs x h).0, filter-Distinct p xs d)
  | inr dropped ↦ rw dropped (filter-Distinct p xs d)
]
