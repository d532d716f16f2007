-- ===== src/Table/Upkeep.antt =====
-- The operations on an array keep its references in use, and keep them different.
use full_revna_like_projekt.Base.{
  ℕ, suc, ◌<◌, String, sym, subst, inl, inr, Bool, List, [], ◌∷◌, ◌++◌, arith, if-cases, All,
  All-Among, Among,
}
use full_revna_like_projekt.Table.{
  Table, Keyed, drop_first, assign_all, unshift, push, remove_id, remove_ids,
}
use full_revna_like_projekt.Table.Laws.{
  Allocated, unshift-Allocated, assign_all-refs, assign_all-next,
}
use full_revna_like_projekt.Table.Once.{Once}

-- Every reference is in use, and none is there twice.
abbrev pub Tidy {ℓ} : {A : Type ℓ} → Table A → Type 0
Tidy t = Allocated t × Once t.refs

drop_first-All : (P : ℕ → Type 0) (p : ℕ → Bool) (rs : List ℕ) → All P rs → All P (drop_first p rs)
unfolding drop_first
drop_first-All P p [] a = a
drop_first-All P p (r ∷ rs) a =
    let ih = drop_first-All P p rs a.1 in
    if-cases (All P) (p r) rs (r ∷ drop_first p rs) (λ _. a.1) (λ _. (a.0, ih))

drop_first-absent :
    (p : ℕ → Bool) (q : ℕ) (rs : List ℕ) → ¬ Among q rs → ¬ Among q (drop_first p rs)
unfolding drop_first
drop_first-absent p q [] n = n
drop_first-absent p q (r ∷ rs) n =
    let ih = drop_first-absent p q rs (λ m. n (inr m)) in
    if-cases (λ l. ¬ Among q l) (p r) rs (r ∷ drop_first p rs) (λ _. λ m. n (inr m))
      (λ _. λ m. elim m [ inl e ↦ n (inl e) | inr later ↦ ih later ])

drop_first-Once : (p : ℕ → Bool) (rs : List ℕ) → Once rs → Once (drop_first p rs)
unfolding drop_first
drop_first-Once p [] o = o
drop_first-Once p (r ∷ rs) o =
    if-cases Once (p r) rs (r ∷ drop_first p rs) (λ _. o.1)
      (λ _. (drop_first-absent p r rs o.0, drop_first-Once p rs o.1))

All-snoc : (n : ℕ) (rs : List ℕ) → All (λ r. r < n) rs → All (λ r. r < suc n) (rs ++ n ∷ [])
All-snoc n [] a = (omega arith, tt)
All-snoc n (r ∷ rs) a = let lt = a.0 in (omega arith, All-snoc n rs a.1)

module _ {ℓ} {A : Type ℓ} where
  pub push-Allocated : (a : A) (t : Table A) → Allocated t → Allocated (push a t)
  unfolding push
  push-Allocated a t h = All-snoc t.next t.refs h

  pub unshift-Tidy : (a : A) (t : Table A) → Tidy t → Tidy (unshift a t)
  unfolding unshift
  unshift-Tidy a t (h, o) = (
    unshift-Allocated a t h,
    (λ m. absurd (below (All-Among (λ r. r < t.next) t.refs t.next h m)), o),
  )
    where
      below : t.next < t.next → ⊥
      below lt = absurd (omega arith)

  pub assign_all-Tidy : (rs : List ℕ) (f : A → A) (t : Table A) → Tidy t → Tidy (assign_all rs f t)
  assign_all-Tidy rs f t (h, o) = (
    subst (λ n. All (λ r. r < n) (assign_all rs f t).refs) (sym (assign_all-next rs f t))
        (subst (All (λ r. r < t.next)) (sym (assign_all-refs rs f t)) h),
    subst Once (sym (assign_all-refs rs f t)) o,
  )

module _ {ℓ} {A : Type ℓ} ⦃k : Keyed A⦄ where
  pub remove_id-Allocated : (i : String) (t : Table A) → Allocated t → Allocated (remove_id i t)
  unfolding remove_id
  remove_id-Allocated i t h = drop_first-All (λ r. r < t.next) _ t.refs h

  pub remove_id-Tidy : (i : String) (t : Table A) → Tidy t → Tidy (remove_id i t)
  unfolding remove_id
  remove_id-Tidy i t (h, o) =
      (drop_first-All (λ r. r < t.next) _ t.refs h, drop_first-Once _ t.refs o)

  pub remove_ids-Tidy : (is : List String) (t : Table A) → Tidy t → Tidy (remove_ids is t)
  unfolding remove_ids
  remove_ids-Tidy [] t h = h
  remove_ids-Tidy (i ∷ is) t h = remove_ids-Tidy is (remove_id i t) (remove_id-Tidy i t h)
