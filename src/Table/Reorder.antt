-- ===== src/Table/Reorder.antt =====
-- Bringing records to the front of an array and numbering them.
use full_revna_like_projekt.Base.{
  ℕ, suc, String, ◌≡◌, refl, ◌∙◌, sym, ap, subst, inl, inr, ◌↔◌, true, false, not, none, some, List,
  [], ◌∷◌, ◌++◌, map, ◌==◌, eq_iff, Among, Bool-cases, Option-cases, filter, filter-Among,
  Among-filter, Among-map, includes, includes_iff,
}
use full_revna_like_projekt.Base.Distinct.{Distinct, Among-append}
use full_revna_like_projekt.Table.{
  Table, Keyed, first, assign, select, has_id, find_id, find_all, bring_forward, number, reorder,
}
use full_revna_like_projekt.Table.Laws.{find_id-id, find_id-Among}
use full_revna_like_projekt.Table.Map.{ids}
use full_revna_like_projekt.Table.Once.{Once, filter-Once}

Once-append :
    (xs ys : List ℕ) → Once xs → Once ys → ((r : ℕ) → Among r xs → ¬ Among r ys) → Once (xs ++ ys)
Once-append [] ys a b d = b
Once-append (x ∷ xs) ys (n, a) b d = (
  λ h. elim ((Among-append x xs ys).0 h) [ inl m ↦ n m | inr m ↦ d x (inl refl) m ],
  Once-append xs ys a b (λ r m. d r (inr m)),
)

module _ {ℓ} {A : Type ℓ} ⦃k : Keyed A⦄ where
  -- Where no identifier repeats, a search finds the record itself.
  find_id_own :
      (t : Table A) (r : ℕ)
      → Distinct (ids t)
      → Among r t.refs
      → find_id (k.id (t.store r)) t ≡ some r
  unfolding find_id first
  find_id_own t r d m = search_own t.refs d m
    where
      search_own :
          (rs : List ℕ)
          → Distinct (map (λ q. k.id (t.store q)) rs)
          → Among r rs
          → first (λ q. has_id (k.id (t.store r)) (t.store q)) rs ≡ some r
      search_own [] d m = absurd m
      search_own (q ∷ qs) (n, d) (inl e) =
          rw ((eq_iff _ _).1 (ap (λ x. k.id (t.store x)) (sym e)), e)
      search_own (q ∷ qs) (n, d) (inr m) =
          let other : (k.id (t.store q) == k.id (t.store r)) ≡ false = apart m n in
          rw other (search_own qs d m)
        where
          apart :
              Among r qs
              → ¬ Among (k.id (t.store q)) (map (λ x. k.id (t.store x)) qs)
              → (k.id (t.store q) == k.id (t.store r)) ≡ false
          apart m n = elim (Bool-cases (k.id (t.store q) == k.id (t.store r))) [
            | inl same ↦ absurd (
                n (
                  subst (λ i. Among i (map (λ x. k.id (t.store x)) qs)) (sym ((eq_iff _ _).0 same))
                    (Among-map (λ x. k.id (t.store x)) qs r m)))
            | inr other ↦ other
          ]

  find_all-missing :
      (i : String) (is : List String) (t : Table A)
      → find_id i t ≡ none
      → find_all (i ∷ is) t ≡ find_all is t
  unfolding find_all
  find_all-missing i is t e = rw (e, find_all)

  find_all-found :
      (i : String) (is : List String) (t : Table A) (q : ℕ)
      → find_id i t ≡ some q
      → find_all (i ∷ is) t ≡ q ∷ find_all is t
  unfolding find_all
  find_all-found i is t q e = rw (e, find_all)

  pub find_all_sound :
      (is : List String) (t : Table A) (r : ℕ)
      → Among r (find_all is t)
      → Among r t.refs × Among (k.id (t.store r)) is
  unfolding find_all
  find_all_sound [] t r m = absurd m
  find_all_sound (i ∷ is) t r m = elim (Option-cases (find_id i t)) [
    | inl missing ↦
        let (listed, named) =
          find_all_sound is t r (subst (Among r) (find_all-missing i is t missing) m) in
        (listed, inr named)
    | inr (q, found) ↦ elim (subst (Among r) (find_all-found i is t q found) m) [
      | inl e ↦ (
        subst (λ x. Among x t.refs) (sym e) (find_id-Among i t q found),
        inl (ap (λ x. k.id (t.store x)) e ∙ find_id-id i t q found),
      )
      | inr later ↦ let (listed, named) = find_all_sound is t r later in (listed, inr named)
    ]
  ]

  find_all_complete :
      (is : List String) (t : Table A) (r : ℕ)
      → Distinct (ids t)
      → Among r t.refs
      → Among (k.id (t.store r)) is
      → Among r (find_all is t)
  find_all_complete [] t r d m named = absurd named
  find_all_complete (i ∷ is) t r d m (inl e) =
      let found = ap (λ n. find_id n t) (sym e) ∙ find_id_own t r d m in
      subst (Among r) (sym (find_all-found i is t r found)) (inl refl)
  find_all_complete (i ∷ is) t r d m (inr named) =
      let later = find_all_complete is t r d m named in
      elim (Option-cases (find_id i t)) [
        | inl missing ↦ subst (Among r) (sym (find_all-missing i is t missing)) later
        | inr (q, found) ↦ subst (Among r) (sym (find_all-found i is t q found)) (inr later)
      ]

  pub find_all-Once : (is : List String) (t : Table A) → Distinct is → Once (find_all is t)
  unfolding find_all
  find_all-Once [] t d = tt
  find_all-Once (i ∷ is) t (n, d) = elim (Option-cases (find_id i t)) [
    | inl missing ↦ subst Once (sym (find_all-missing i is t missing)) (find_all-Once is t d)
    | inr (q, found) ↦ subst Once (sym (find_all-found i is t q found)) (
      λ m. n (subst (λ x. Among x is) (find_id-id i t q found) (find_all_sound is t q m).1),
      find_all-Once is t d,
    )
  ]

  number-refs :
      (set : ℕ → A → A) (n : ℕ) (rs : List ℕ) (t : Table A) → (number set n rs t).refs ≡ t.refs
  unfolding number assign
  number-refs set n [] t = refl
  number-refs set n (r ∷ rs) t = number-refs set (suc n) rs (assign r (set n) t)

  pub reorder-refs :
      (set : ℕ → A → A) (is : List String) (t : Table A)
      → (reorder set is t).refs ≡ find_all is t ++ select (λ a. not (includes (k.id a) is)) t
  unfolding reorder bring_forward
  reorder-refs set is t = number-refs set 0 (find_all is t) (bring_forward is t)

  -- Where no identifier repeats, in the array or in the list, a reordering is a permutation: every
  -- reference is there as before, and none of them twice.
  pub reorder-permutes :
      (set : ℕ → A → A) (is : List String) (t : Table A)
      → Distinct is
      → Distinct (ids t)
      → Once t.refs
      → Once (reorder set is t).refs × ((r : ℕ) → Among r (reorder set is t).refs ↔ Among r t.refs)
  unfolding select
  reorder-permutes set is t ds d o =
      let rest = filter (λ r. not (includes (k.id (t.store r)) is)) t.refs in
      let e = reorder-refs set is t in
      (
        subst Once (sym e) (
            Once-append (find_all is t) rest (find_all-Once is t ds) (filter-Once _ t.refs o)
              (λ r front back.
                absurd (apart r (find_all_sound is t r front).1 (filter-Among _ t.refs r back).1))),
        λ r. (
          λ m. elim ((Among-append r (find_all is t) rest).0 (subst (Among r) e m)) [
            | inl front ↦ (find_all_sound is t r front).0
            | inr back ↦ (filter-Among _ t.refs r back).0
          ],
          λ m. subst (Among r) (sym e) (
              (Among-append r (find_all is t) rest).1
                (elim (Bool-cases (includes (k.id (t.store r)) is)) [
                  | inl named ↦
                      inl (
                        find_all_complete is t r d m ((includes_iff (k.id (t.store r)) is).0 named))
                  | inr other ↦ inr (
                      Among-filter (λ q. not (includes (k.id (t.store q)) is)) t.refs r m
                        (ap not other))
                ])),
        ),
      )
    where
      apart :
          (r : ℕ) → Among (k.id (t.store r)) is → not (includes (k.id (t.store r)) is) ≡ true → ⊥
      apart r m e = let named = (includes_iff (k.id (t.store r)) is).1 m in cc
