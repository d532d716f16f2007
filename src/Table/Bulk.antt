-- ===== src/Table/Bulk.antt =====
-- Changing or removing all records whose identifiers are in a list.
use full_revna_like_projekt.Base.{
  ℕ, String, ◌≡◌, refl, ◌∙◌, sym, ap, subst, fun_ext, inl, inr, Bool, true, false, Option, none,
  some, List, [], ◌∷◌, map, arith, if◌then◌else◌, Among, Option-cases, filter, filter-Among,
  Among-filter, Among-map, includes, includes_iff,
}
use full_revna_like_projekt.Base.Distinct.{Distinct}
use full_revna_like_projekt.Table.{Table, Keyed, assign, assign_all, select, find_id, remove_ids}
use full_revna_like_projekt.Table.Laws.{find_id-id, find_id-Among, assign_all-refs}
use full_revna_like_projekt.Table.Map.{ids, read, map?, read-remove_ids, read-missing}
use full_revna_like_projekt.Table.Once.{Once, read-assign_where}

-- An entry of a mapped list comes from an entry of the list.
pub Among-of_map :
    {A B : Type 0} (f : A → B) (xs : List A) (b : B)
    → Among b (map f xs)
    → (a : A) × Among a xs × (b ≡ f a)
Among-of_map f [] b m = absurd m
Among-of_map f (x ∷ xs) b (inl e) = (x, inl refl, e)
Among-of_map f (x ∷ xs) b (inr m) = let (a, n, e) = Among-of_map f xs b m in (a, inr n, e)

module _ {ℓ} {A : Type ℓ} ⦃k : Keyed A⦄ where
  abbrev pub named : List String → A → Bool
  named is a = includes (k.id a) is

  pub assign_all-id :
      (rs : List ℕ) (f : A → A) (t : Table A)
      → ((a : A) → k.id (f a) ≡ k.id a)
      → (r : ℕ) → k.id ((assign_all rs f t).store r) ≡ k.id (t.store r)
  unfolding assign_all assign
  assign_all-id [] f t h r = refl
  assign_all-id (q ∷ rs) f t h r =
      assign_all-id rs f (assign q f t) h r ∙ ground (arith, h (t.store q))

  -- The identifiers of the chosen records are those of the list that are there.
  selected-ids :
      (is : List String) (s : ℕ → A) (t : Table A) (j : String) (r : ℕ)
      → find_id j t ≡ some r
      → ((q : ℕ) → k.id (s q) ≡ k.id (t.store q))
      → includes j (map (λ q. k.id (s q)) (select (named is) t)) ≡ includes j is
  unfolding select
  selected-ids is s t j r e h =
      ground (arith, includes_iff j is, includes_iff j (map (λ q. k.id (s q)) chosen), to, from)
    where
      chosen : List ℕ
      chosen = filter (λ q. named is (t.store q)) t.refs

      to : Among j (map (λ q. k.id (s q)) chosen) → includes j is ≡ true
      to m =
          let (q, among, same) = Among-of_map (λ q. k.id (s q)) chosen j m in
          ap (λ i. includes i is) (same ∙ h q) ∙ (filter-Among _ t.refs q among).1

      from : includes j is ≡ true → Among j (map (λ q. k.id (s q)) chosen)
      from p =
          let own = find_id-id j t r e in
          subst (λ i. Among i (map (λ q. k.id (s q)) chosen)) (h r ∙ own)
            (Among-map (λ q. k.id (s q)) chosen r
              (Among-filter (λ q. named is (t.store q)) t.refs r (find_id-Among j t r e)
                (ap (λ i. includes i is) own ∙ p)))

  -- The records that are named are changed, and the others are not.
  pub read-change_named :
      (is : List String) (f : A → A) (t : Table A)
      → Once t.refs
      → ((a : A) → k.id (f a) ≡ k.id a)
      → (j : String)
      → read j (assign_all (select (named is) t) f t)
        ≡ (if includes j is then map? f (read j t) else read j t)
  unfolding read
  read-change_named is f t o h j =
      read-assign_where (named is) f t o h j ∙ elim (Option-cases (find_id j t)) [
        | inl missing ↦ rw missing (nothing (includes j is))
        | inr (r, found) ↦
            let own = find_id-id j t r found in rw (found, own) (split (includes j is) (t.store r))
      ]
    where
      empty : Option A
      empty = none

      nothing : (b : Bool) → empty ≡ (if b then empty else empty)
      nothing true = refl
      nothing false = refl

      split : (b : Bool) (a : A) → some (if b then f a else a) ≡ (if b then some (f a) else some a)
      split true a = refl
      split false a = refl

  -- A removal of the records that are named and there, after changes that keep the identifiers.
  pub read-remove_named :
      (is : List String) (f : A → A) (t : Table A)
      → Once t.refs
      → Distinct (ids t)
      → ((a : A) → k.id (f a) ≡ k.id a)
      → (j : String)
      → read j (
          remove_ids
            (map (λ q. k.id ((assign_all (select (named is) t) f t).store q)) (select (named is) t))
            (assign_all (select (named is) t) f t))
        ≡ (if includes j is then none else read j t)
  read-remove_named is f t o d h j =
      read-remove_ids chosen changed changed-Distinct j
      ∙ ap (λ x. if includes j chosen then none else x) (read-change_named is f t o h j)
      ∙ elim (Option-cases (find_id j t)) [
        | inl missing ↦ absent (includes j chosen) (includes j is) (absent_read missing)
        | inr (r, found) ↦
            rw
              (selected-ids is changed.store t j r found
                (assign_all-id (select (named is) t) f t h))
              (there (includes j is))
      ]
    where
      changed : Table A
      changed = assign_all (select (named is) t) f t

      chosen : List String
      chosen = map (λ q. k.id (changed.store q)) (select (named is) t)

      changed-Distinct : Distinct (ids changed)
      changed-Distinct =
          subst Distinct
            (sym (
              ap (map (λ r. k.id (changed.store r))) (assign_all-refs (select (named is) t) f t)
              ∙ ap (λ g. map g t.refs) (fun_ext (assign_all-id (select (named is) t) f t h))))
            d

      absent_read : find_id j t ≡ none → read j t ≡ none
      absent_read e = read-missing j t e

      absent :
          (b c : Bool)
          → read j t ≡ none
          → (if b then none else (if c then map? f (read j t) else read j t))
            ≡ (if c then none else read j t)
      absent true true e = refl
      absent true false e = sym e
      absent false true e = ap (map? f) e
      absent false false e = refl

      there :
          (b : Bool)
          → (if b then none else (if b then map? f (read j t) else read j t))
            ≡ (if b then none else read j t)
      there true = refl
      there false = refl
