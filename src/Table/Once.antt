-- ===== src/Table/Once.antt =====
-- Arrays that hold no reference twice.
use full_revna_like_projekt.Base.{
  ℕ, String, ◌≡◌, refl, ◌∙◌, sym, ap, subst, inl, inr, Bool, true, false, some, List, [], ◌∷◌,
  arith, ◌==ₙ◌, ==ₙ_iff, if◌then◌else◌, Among, Bool-cases, Option-cases, filter, filter-Among,
  Among-filter, includes_ref,
}
use full_revna_like_projekt.Table.{Table, Keyed, assign, assign_all, select, find_id}
use full_revna_like_projekt.Table.Laws.{
  find_id-Among, find_id-assign, includes_ref_iff_Among, Among-of_includes_ref,
}
use full_revna_like_projekt.Table.Map.{map?, at, read}

abbrev pub Once : List ℕ → Type 0
Once [] = Unit
Once (r ∷ rs) = (¬ Among r rs) × Once rs

absent_ref : (r : ℕ) (rs : List ℕ) → ¬ Among r rs → includes_ref r rs ≡ false
absent_ref r rs n = elim (Bool-cases (includes_ref r rs)) [
  | inl there ↦ absurd (n (Among-of_includes_ref r rs there))
  | inr new ↦ new
]

pub filter-Once : (p : ℕ → Bool) (rs : List ℕ) → Once rs → Once (filter p rs)
filter-Once p [] o = tt
filter-Once p (r ∷ rs) (n, o) = elim (Bool-cases (p r)) [
  | inl kept ↦ rw kept (λ h. n (filter-Among p rs r h).0, filter-Once p rs o)
  | inr dropped ↦ rw dropped (filter-Once p rs o)
]

module _ {ℓ} {A : Type ℓ} where
  -- Each record is assigned to once.
  pub assign-Once-store :
      (rs : List ℕ) (f : A → A) (t : Table A) (q : ℕ)
      → Once rs
      → (assign_all rs f t).store q ≡ (if includes_ref q rs then f (t.store q) else t.store q)
  unfolding assign_all assign
  assign-Once-store [] f t q o = refl
  assign-Once-store (r ∷ rs) f t q (n, o) =
      assign-Once-store rs f (assign r f t) q o ∙ elim (Bool-cases (q ==ₙ r)) [
        | inl same ↦
            let e = (==ₙ_iff q r).0 same in
            let gone : includes_ref q rs ≡ false =
              absent_ref q rs (λ m. n (subst (λ x. Among x rs) e m)) in
            let back : (r ==ₙ q) ≡ true = (==ₙ_iff r q).1 (sym e) in rw (same, gone, back, e)
        | inr other ↦ let back : (r ==ₙ q) ≡ false = flip q r other in rw (other, back)
      ]
    where
      flip : (a b : ℕ) → (a ==ₙ b) ≡ false → (b ==ₙ a) ≡ false
      flip a b e = ground arith

module _ {ℓ} {A : Type ℓ} ⦃k : Keyed A⦄ where
  find_id-assign_all :
      (j : String) (rs : List ℕ) (f : A → A) (t : Table A)
      → ((a : A) → k.id (f a) ≡ k.id a)
      → find_id j (assign_all rs f t) ≡ find_id j t
  unfolding assign_all
  find_id-assign_all j [] f t h = refl
  find_id-assign_all j (r ∷ rs) f t h =
      find_id-assign_all j rs f (assign r f t) h ∙ find_id-assign j r f t h

  -- Assigning to the records that pass a test changes what those records read, and nothing else.
  pub read-assign_where :
      (p : A → Bool) (f : A → A) (t : Table A)
      → Once t.refs
      → ((a : A) → k.id (f a) ≡ k.id a)
      → (j : String)
      → read j (assign_all (select p t) f t) ≡ map? (λ a. if p a then f a else a) (read j t)
  unfolding read select
  read-assign_where p f t o h j =
      let chosen = filter (λ r. p (t.store r)) t.refs in
      ap (at (assign_all chosen f t).store) (find_id-assign_all j chosen f t h)
      ∙ elim (Option-cases (find_id j t)) [
        | inl missing ↦ rw missing
        | inr (q, found) ↦ rw found (
            ap some (
              assign-Once-store chosen f t q (filter-Once (λ r. p (t.store r)) t.refs o)
              ∙ ap (λ b. if b then f (t.store q) else t.store q)
                  (chosen_iff q (find_id-Among j t q found))))
      ]
    where
      chosen_iff :
          (r : ℕ)
          → Among r t.refs
          → includes_ref r (filter (λ q. p (t.store q)) t.refs) ≡ p (t.store r)
      chosen_iff r m = ground (
        arith,
        includes_ref_iff_Among r (filter (λ q. p (t.store q)) t.refs),
        Among-of_includes_ref r (filter (λ q. p (t.store q)) t.refs),
        Among-filter (λ q. p (t.store q)) t.refs r,
        filter-Among (λ q. p (t.store q)) t.refs r,
      )
