-- ===== src/Table/Laws.antt =====
-- What the operations on the arrays of the client do to the records behind them.
use full_revna_like_projekt.Base.{
  ℕ, suc, ◌≤◌, ◌<◌, String, ◌≡◌, refl, ap, fun_ext, sym, ◌∙◌, inl, inr, Bool, true, false, none,
  some, List, [], ◌∷◌, map, arith, eq_iff, ◌==ₙ◌, ==ₙ_iff, ==ₙ_refl, if◌then◌else◌, All, Among,
  filter-Among, Among-filter, includes_ref, filter, Bool-cases,
}
use full_revna_like_projekt.Table.{
  Table, Keyed, write, first, values, select, assign, assign_all, unshift, has_id, find_id,
}

-- Every reference in the array is in use.
abbrev pub Allocated {ℓ} : {A : Type ℓ} → Table A → Type 0
Allocated t = All (λ r. r < t.next) t.refs

module _ {ℓ} {A : Type ℓ} where
  pub map-write_fresh :
      (n : ℕ) (a : A) (s : ℕ → A) (rs : List ℕ)
      → All (λ r. r < n) rs
      → map (write n a s) rs ≡ map s rs
  map-write_fresh n a s [] h = refl
  map-write_fresh n a s (r ∷ rs) h = ground (arith, map-write_fresh n a s rs h.1)

  pub values-unshift : (a : A) (t : Table A) → Allocated t → values (unshift a t) ≡ a ∷ values t
  unfolding values unshift
  values-unshift a t h = ground (arith, map-write_fresh t.next a t.store t.refs h)

pub first_sound : (p : ℕ → Bool) (rs : List ℕ) (r : ℕ) → first p rs ≡ some r → p r ≡ true
unfolding first
first_sound p [] r e = cc
first_sound p (q ∷ rs) r e = ground (arith, first_sound p rs r)

pub first-Among : (p : ℕ → Bool) (rs : List ℕ) (r : ℕ) → first p rs ≡ some r → Among r rs
unfolding first
first-Among p [] r e = cc
first-Among p (q ∷ rs) r e = ground (arith, first-Among p rs r)

-- Nothing is found only where nothing passes the test.
pub first-none : (p : ℕ → Bool) (rs : List ℕ) (r : ℕ) → first p rs ≡ none → Among r rs → p r ≡ false
unfolding first
first-none p (q ∷ rs) r e h = ground (arith, first-none p rs r)
first-none p [] r e h = absurd h

pub includes_ref_iff_Among : (r : ℕ) (rs : List ℕ) → Among r rs → includes_ref r rs ≡ true
includes_ref_iff_Among r [] h = absurd h
includes_ref_iff_Among r (q ∷ rs) h = ground (arith, includes_ref_iff_Among r rs)

pub Among-of_includes_ref : (r : ℕ) (rs : List ℕ) → includes_ref r rs ≡ true → Among r rs
Among-of_includes_ref r [] e = cc
Among-of_includes_ref r (q ∷ rs) e = ground (arith, Among-of_includes_ref r rs)

module _ {ℓ} {A : Type ℓ} where
  -- Assigning to several records, by an assignment that repeats without effect.
  pub assign_all-store :
      (rs : List ℕ) (f : A → A) (t : Table A) (q : ℕ)
      → ((a : A) → f (f a) ≡ f a)
      → (assign_all rs f t).store q ≡ (if includes_ref q rs then f (t.store q) else t.store q)
  unfolding assign_all
  assign_all-store [] f t q h = refl
  assign_all-store (r ∷ rs) f t q h =
      ground (arith, assign_all-store rs f (assign r f t) q h, h (t.store q))

  pub assign_all-refs : (rs : List ℕ) (f : A → A) (t : Table A) → (assign_all rs f t).refs ≡ t.refs
  unfolding assign_all
  assign_all-refs [] f t = refl
  assign_all-refs (r ∷ rs) f t = assign_all-refs rs f (assign r f t)

  -- Assigning to all records of the array that pass a test.
  pub assign_where-store :
      (p : A → Bool) (f : A → A) (t : Table A) (r : ℕ)
      → ((a : A) → f (f a) ≡ f a)
      → Among r t.refs
      → (assign_all (select p t) f t).store r ≡ (if p (t.store r) then f (t.store r) else t.store r)
  unfolding select
  assign_where-store p f t r h m =
      let chosen = filter (λ q. p (t.store q)) t.refs in
      assign_all-store chosen f t r h ∙ ap (λ b. if b then f (t.store r) else t.store r) chosen_iff
    where
      chosen_iff : includes_ref r (filter (λ q. p (t.store q)) t.refs) ≡ p (t.store r)
      chosen_iff = ground (
        arith,
        includes_ref_iff_Among r (filter (λ q. p (t.store q)) t.refs),
        Among-of_includes_ref r (filter (λ q. p (t.store q)) t.refs),
        Among-filter (λ q. p (t.store q)) t.refs r,
        filter-Among (λ q. p (t.store q)) t.refs r,
      )

  pub assign_all-next : (rs : List ℕ) (f : A → A) (t : Table A) → (assign_all rs f t).next ≡ t.next
  unfolding assign_all
  assign_all-next [] f t = refl
  assign_all-next (r ∷ rs) f t = assign_all-next rs f (assign r f t)

module _ {ℓ} {A : Type ℓ} ⦃k : Keyed A⦄ where
  -- The record that is found carries the identifier.
  pub find_id-id : (i : String) (t : Table A) (r : ℕ) → find_id i t ≡ some r → k.id (t.store r) ≡ i
  unfolding find_id
  find_id-id i t r e = (eq_iff _ _).0 (first_sound (λ q. has_id i (t.store q)) t.refs r e)

  pub find_id-Among : (i : String) (t : Table A) (r : ℕ) → find_id i t ≡ some r → Among r t.refs
  unfolding find_id
  find_id-Among i t r e = first-Among (λ q. has_id i (t.store q)) t.refs r e

  -- An assignment that leaves the identifier alone does not change what is found.
  pub find_id-assign_at :
      (j : String) (r : ℕ) (f : A → A) (t : Table A)
      → k.id (f (t.store r)) ≡ k.id (t.store r)
      → find_id j (assign r f t) ≡ find_id j t
  unfolding find_id assign
  find_id-assign_at j r f t h = ap (λ p. first p t.refs) (fun_ext same)
    where
      same : (q : ℕ) → has_id j (write r (f (t.store r)) t.store q) ≡ has_id j (t.store q)
      same q = ground arith

module _ {ℓ} {A : Type ℓ} ⦃k : Keyed A⦄ where
  pub find_id-assign :
      (j : String) (r : ℕ) (f : A → A) (t : Table A)
      → ((a : A) → k.id (f a) ≡ k.id a)
      → find_id j (assign r f t) ≡ find_id j t
  find_id-assign j r f t h = find_id-assign_at j r f t (h (t.store r))

pub All-lt_mono : (m n : ℕ) (rs : List ℕ) → m ≤ n → All (λ r. r < m) rs → All (λ r. r < n) rs
All-lt_mono m n [] h k = tt
All-lt_mono m n (r ∷ rs) h k = (omega arith, All-lt_mono m n rs h k.1)

module _ {ℓ} {A : Type ℓ} where
  pub unshift-Allocated : (a : A) (t : Table A) → Allocated t → Allocated (unshift a t)
  unfolding unshift
  unshift-Allocated a t h = (omega arith, All-lt_mono t.next (suc t.next) t.refs (omega arith) h)

  -- Writing back what is there changes nothing.
  pub write_self : (r : ℕ) (a : A) (store : ℕ → A) → store r ≡ a → write r a store ≡ store
  write_self r a store e = fun_ext λ q. elim (Bool-cases (q ==ₙ r)) [
    | inl same ↦ rw same (sym e ∙ ap store (sym ((==ₙ_iff q r).0 same)))
    | inr other ↦ rw other
  ]

  -- The new record stands behind the first reference that was not in use.
  pub store-unshift : (a : A) (t : Table A) → (unshift a t).store t.next ≡ a
  unfolding unshift
  store-unshift a t = rw (==ₙ_refl t.next)
