-- ===== src/Table/Numbering.antt =====
-- The order of an array after a reordering, with the places written into the records.
use full_revna_like_projekt.Base.{
  ℕ, suc, String, ◌≡◌, refl, ◌∙◌, ap, subst, inl, inr, true, not, List, [], ◌∷◌, ◌++◌, map, ◌==ₙ◌,
  ==ₙ_iff, ==ₙ_refl, Among, Bool-cases, filter, filter-Among, includes, includes_iff,
}
use full_revna_like_projekt.Base.Distinct.{Distinct}
use full_revna_like_projekt.Table.{
  Table, Keyed, values, assign, select, find_all, number, bring_forward, reorder,
}
use full_revna_like_projekt.Table.Once.{Once}
use full_revna_like_projekt.Table.Reorder.{find_all_sound, find_all-Once, reorder-refs}
use mathlib.Core.List.{map-append}

-- The records with their places, from `n` on.
abbrev pub set_from {ℓ} : {A : Type ℓ} → (ℕ → A → A) → ℕ → List A → List A
set_from set n [] = []
set_from set n (a ∷ rest) = set n a ∷ set_from set (suc n) rest

module _ {ℓ} {A : Type ℓ} where
  assign-store_away :
      (r q : ℕ) (f : A → A) (t : Table A) → ¬ (q ≡ r) → (assign r f t).store q ≡ t.store q
  unfolding assign
  assign-store_away r q f t n = elim (Bool-cases (q ==ₙ r)) [
    | inl same ↦ absurd (n ((==ₙ_iff q r).0 same))
    | inr other ↦ rw other
  ]

  assign-store : (r : ℕ) (f : A → A) (t : Table A) → (assign r f t).store r ≡ f (t.store r)
  unfolding assign
  assign-store r f t = rw (==ₙ_refl r)

  number-store_away :
      (set : ℕ → A → A) (n : ℕ) (rs : List ℕ) (t : Table A) (q : ℕ)
      → ¬ Among q rs
      → (number set n rs t).store q ≡ t.store q
  unfolding number
  number-store_away set n [] t q h = refl
  number-store_away set n (r ∷ rs) t q h =
      number-store_away set (suc n) rs (assign r (set n) t) q (λ m. h (inr m))
      ∙ assign-store_away r q (set n) t (λ e. h (inl e))

  map_away : (s u : ℕ → A) (rs : List ℕ) → ((q : ℕ) → Among q rs → s q ≡ u q) → map s rs ≡ map u rs
  map_away s u [] h = refl
  map_away s u (r ∷ rs) h = λ i. h r (inl refl) i ∷ map_away s u rs (λ q m. h q (inr m)) i

  number-numbered :
      (set : ℕ → A → A) (n : ℕ) (rs : List ℕ) (t : Table A)
      → Once rs
      → map (number set n rs t).store rs ≡ set_from set n (map t.store rs)
  unfolding number
  number-numbered set n [] t o = refl
  number-numbered set n (r ∷ rs) t (h, o) =
      let later = assign r (set n) t in
      let first_one = number-store_away set (suc n) rs later r h ∙ assign-store r (set n) t in
      let others =
        number-numbered set (suc n) rs later o
        ∙ ap (set_from set (suc n)) (
            map_away later.store t.store rs
              (λ q m. assign-store_away r q (set n) t (λ e. h (subst (λ x. Among x rs) e m)))) in
      λ i. first_one i ∷ others i

module _ {ℓ} {A : Type ℓ} ⦃k : Keyed A⦄ where
  rest-values :
      (s : ℕ → A) (is : List String) (rs : List ℕ)
      → map s (filter (λ r. not (includes (k.id (s r)) is)) rs)
        ≡ filter (λ a. not (includes (k.id a) is)) (map s rs)
  rest-values s is [] = refl
  rest-values s is (r ∷ rs) =
      let ih = rest-values s is rs in
      elim (Bool-cases (not (includes (k.id (s r)) is))) [
        | inl kept ↦ rw kept (λ i. s r ∷ ih i)
        | inr dropped ↦ rw dropped ih
      ]

  -- After a reordering by different identifiers the array starts with the records that they name,
  -- in their order and numbered from zero, and goes on with the other records, unchanged and in
  -- the order that they had.
  pub reorder-values :
      (set : ℕ → A → A) (is : List String) (t : Table A)
      → Distinct is
      → values (reorder set is t)
        ≡ set_from set 0 (map t.store (find_all is t))
          ++ filter (λ a. not (includes (k.id a) is)) (values t)
  unfolding values reorder bring_forward select
  reorder-values set is t d =
      let front = find_all is t in
      let chosen = filter (λ r. not (includes (k.id (t.store r)) is)) t.refs in
      let after = (reorder set is t).store in
      ap (map after) (reorder-refs set is t)
      ∙ map-append after front chosen
      ∙ ap (λ l. l ++ map after chosen) (front_numbered (find_all-Once is t d))
      ∙ ap (λ l. set_from set 0 (map t.store front) ++ l)
          (map_away after t.store chosen
              (λ q m. rest_same q (λ named. apart q named (filter-Among _ t.refs q m).1))
            ∙ rest-values t.store is t.refs)
    where
      front_numbered :
          Once (find_all is t)
          → map (reorder set is t).store (find_all is t)
            ≡ set_from set 0 (map t.store (find_all is t))
      front_numbered o = number-numbered set 0 (find_all is t) (bring_forward is t) o

      rest_same : (q : ℕ) → ¬ Among q (find_all is t) → (reorder set is t).store q ≡ t.store q
      rest_same q n = number-store_away set 0 (find_all is t) (bring_forward is t) q n

      apart : (q : ℕ) → Among q (find_all is t) → not (includes (k.id (t.store q)) is) ≡ true → ⊥
      apart q m e =
          let named = (includes_iff (k.id (t.store q)) is).1 (find_all_sound is t q m).1 in cc
