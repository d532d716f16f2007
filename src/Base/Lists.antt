-- ===== src/Base/Lists.antt =====
-- Lists measured by native numbers, and the array methods that take Boolean callbacks.
use Prim.Native.Nat.{ℕ, zero, suc, ◌+◌, ◌≤◌}
use Prim.Native.String.{String}
use mathlib.Core.Path.{◌≡◌, refl, ap, sym, subst}
use mathlib.Core.Bool.{Bool, true, false, ◌&&◌, ◌||◌}
use mathlib.Core.Option.{Option, none, some}
use mathlib.Core.List.{List, [], ◌∷◌, ◌++◌, map}
use native.Mathlib.Omega.{arith}
use text.Mathlib.Text.{◌==◌}
use text.Mathlib.TextEquality.{eq_iff}
use mathlib.Core.Logic.{◌⊎◌, ◌↔◌, inl, inr}
use full_revna_like_projekt.Base.Tests.{if◌then◌else◌, ◌==ₙ◌}

module _ {ℓ} {A : Type ℓ} where
  abbrev pub length : List A → ℕ
  length [] = 0
  length (x ∷ xs) = suc (length xs)

  abbrev pub filter : (A → Bool) → List A → List A
  filter p [] = []
  filter p (x ∷ xs) = if p x then x ∷ filter p xs else filter p xs

  -- `Array.prototype.some`
  abbrev pub any : (A → Bool) → List A → Bool
  any p [] = false
  any p (x ∷ xs) = p x || any p xs

  abbrev pub all : (A → Bool) → List A → Bool
  all p [] = true
  all p (x ∷ xs) = p x && all p xs

  -- `slice(0, n)`
  abbrev pub take : ℕ → List A → List A
  take zero xs = []
  take (suc n) [] = []
  take (suc n) (x ∷ xs) = x ∷ take n xs

  abbrev pub head? : List A → Option A
  head? [] = none
  head? (x ∷ xs) = some x

  pub length-append : (xs ys : List A) → length (xs ++ ys) ≡ length xs + length ys
  length-append [] ys = omega arith
  length-append (x ∷ xs) ys = omega (arith, length-append xs ys)

  pub length-filter-le : (p : A → Bool) (xs : List A) → length (filter p xs) ≤ length xs
  length-filter-le p [] = omega arith
  length-filter-le p (x ∷ xs) = ground (arith, length-filter-le p xs)

  pub filter-append :
      (p : A → Bool) (xs ys : List A) → filter p (xs ++ ys) ≡ filter p xs ++ filter p ys
  filter-append p [] ys = refl
  filter-append p (x ∷ xs) ys = ground (arith, filter-append p xs ys)

  pub length-take-le : (n : ℕ) (xs : List A) → length (take n xs) ≤ n
  length-take-le zero xs = omega arith
  length-take-le (suc n) [] = omega arith
  length-take-le (suc n) (x ∷ xs) = omega (arith, length-take-le n xs)

  pub any-append : (p : A → Bool) (xs ys : List A) → any p (xs ++ ys) ≡ any p xs || any p ys
  any-append p [] ys = refl
  any-append p (x ∷ xs) ys = ground (arith, any-append p xs ys)

module _ {ℓ κ} {A : Type ℓ} {B : Type κ} where
  abbrev pub flat_map : (A → List B) → List A → List B
  flat_map f [] = []
  flat_map f (x ∷ xs) = f x ++ flat_map f xs

  pub map-append : (f : A → B) (xs ys : List A) → map f (xs ++ ys) ≡ map f xs ++ map f ys
  map-append f [] ys = refl
  map-append f (x ∷ xs) ys = λ i. f x ∷ map-append f xs ys i

  pub length-map : (f : A → B) (xs : List A) → length (map f xs) ≡ length xs
  length-map f [] = refl
  length-map f (x ∷ xs) = ap suc (length-map f xs)

pub append-empty {ℓ} : {A : Type ℓ} (xs ys : List A) → (xs ++ ys ≡ []) ↔ ((xs ≡ []) × (ys ≡ []))
append-empty [] ys = (λ e. (refl, e), λ (h, e). e)
append-empty (x ∷ xs) ys = (λ e. absurd (cc e), λ (h, e). absurd (cc h))

-- What holds of every entry.
abbrev pub All {ℓ κ} : {A : Type ℓ} → (A → Type κ) → List A → Type κ
All P [] = Unit
All P (x ∷ xs) = P x × All P xs

-- The entry is in the list, with its place.
abbrev pub Among : {A : Type 0} → A → List A → Type 0
Among a [] = ⊥
Among a (x ∷ xs) = (a ≡ x) ⊎ Among a xs

module _ {A : Type 0} (p : A → Bool) where
  pub filter-Among : (xs : List A) (a : A) → Among a (filter p xs) → Among a xs × (p a ≡ true)
  filter-Among [] a h = absurd h
  filter-Among (x ∷ xs) a h = ground (arith, filter-Among xs a)

  pub Among-filter : (xs : List A) (a : A) → Among a xs → p a ≡ true → Among a (filter p xs)
  Among-filter [] a h e = h
  Among-filter (x ∷ xs) a h e = ground (arith, Among-filter xs a)

  -- A filter that drops nothing changes nothing.
  pub filter_of_length : (xs : List A) → length (filter p xs) ≡ length xs → filter p xs ≡ xs
  filter_of_length [] h = refl
  filter_of_length (x ∷ xs) h = ground (arith, filter_of_length xs, length-filter-le p xs)

  pub filter_of_All : (xs : List A) → All (λ a. p a ≡ true) xs → filter p xs ≡ xs
  filter_of_All [] h = refl
  filter_of_All (x ∷ xs) h = ground (arith, filter_of_All xs h.1)

  pub All-of_filter : (xs : List A) → filter p xs ≡ xs → All (λ a. p a ≡ true) xs
  All-of_filter xs e = subst (λ l. All (λ a. p a ≡ true) l) e (kept xs)
    where
      kept : (ys : List A) → All (λ a. p a ≡ true) (filter p ys)
      kept [] = tt
      kept (y ∷ ys) = ground (arith, kept ys)

  -- A filter that keeps nothing has nothing to keep.
  pub filter_none : (xs : List A) (a : A) → filter p xs ≡ [] → Among a xs → p a ≡ false
  filter_none [] a e h = absurd h
  filter_none (x ∷ xs) a e h = ground (arith, filter_none xs a)

  pub filter_empty : (xs : List A) → All (λ a. p a ≡ false) xs → filter p xs ≡ []
  filter_empty [] h = refl
  filter_empty (x ∷ xs) h = ground (arith, filter_empty xs h.1)

pub All-of_Among {ℓ} :
    {A : Type 0} (P : A → Type ℓ) (xs : List A) → ((a : A) → Among a xs → P a) → All P xs
All-of_Among P [] h = tt
All-of_Among P (x ∷ xs) h = (h x (inl refl), All-of_Among P xs (λ a m. h a (inr m)))

pub All-Among {ℓ} :
    {A : Type 0} (P : A → Type ℓ) (xs : List A) (a : A) → All P xs → Among a xs → P a
All-Among P [] a h m = absurd m
All-Among P (x ∷ xs) a h (inl e) = subst P (sym e) h.0
All-Among P (x ∷ xs) a h (inr m) = All-Among P xs a h.1 m

pub All-map {ℓ} :
    {A B : Type 0} (P : B → Type ℓ) (f : A → B) (xs : List A)
    → All (λ a. P (f a)) xs
    → All P (map f xs)
All-map P f [] h = tt
All-map P f (x ∷ xs) h = (h.0, All-map P f xs h.1)

pub Among-map :
    {A B : Type 0} (f : A → B) (xs : List A) (a : A) → Among a xs → Among (f a) (map f xs)
Among-map f [] a h = absurd h
Among-map f (x ∷ xs) a (inl e) = inl (ap f e)
Among-map f (x ∷ xs) a (inr m) = inr (Among-map f xs a m)

-- `rs.includes(r)` on references.
abbrev pub includes_ref : ℕ → List ℕ → Bool
includes_ref r [] = false
includes_ref r (q ∷ qs) = (q ==ₙ r) || includes_ref r qs

-- `xs.includes(s)` on an array of texts.
abbrev pub includes : String → List String → Bool
includes s [] = false
includes s (x ∷ xs) = (x == s) || includes s xs

-- `new Set(xs)` read back as an array: the first of equal texts stays.
abbrev pub insert_text : List String → String → List String
insert_text xs s = if includes s xs then xs else xs ++ s ∷ []

abbrev pub insert_texts : List String → List String → List String
insert_texts xs [] = xs
insert_texts xs (s ∷ ss) = insert_texts (insert_text xs s) ss

abbrev pub distinct : List String → List String
distinct xs = insert_texts [] xs

-- `Record<string, string>`
abbrev pub TextMap : Type 0
TextMap = List (String × String)

-- `map[key]`
abbrev pub lookup : String → TextMap → Option String
lookup key [] = none
lookup key ((k, v) ∷ m) = if k == key then some v else lookup key m

-- `map[key] = value`
abbrev pub insert : String → String → TextMap → TextMap
insert key value [] = (key, value) ∷ []
insert key value ((k, v) ∷ m) = if k == key then (key, value) ∷ m else (k, v) ∷ insert key value m

pub includes_iff : (s : String) (xs : List String) → (includes s xs ≡ true) ↔ Among s xs
includes_iff s [] = (λ e. cc, λ h. absurd h)
includes_iff s (x ∷ xs) = let ih = includes_iff s xs in ground (arith, eq_iff x s, ih)
