-- ===== src/Table/Map.antt =====
-- The array of records as a map from identifiers to records: what a reader who only looks records
-- up by their identifiers sees of the operations on the array.
use full_revna_like_projekt.Base.{
  ℕ, ◌<◌, String, ◌≡◌, refl, ◌∙◌, sym, ap, inl, inr, Bool, true, false, Option, none, some, List,
  [], ◌∷◌, ◌++◌, map, arith, ◌==◌, eq_iff, ◌==ₙ◌, ==ₙ_iff, ==ₙ_refl, if◌then◌else◌, All, Among,
  Bool-cases, Option-cases, includes, subst,
}
use full_revna_like_projekt.Base.Distinct.{Distinct}
use full_revna_like_projekt.Table.{
  Table, Keyed, write, first, drop_first, assign, unshift, push, has_id, find_id, remove_id,
  remove_ids,
}
use full_revna_like_projekt.Table.Laws.{Allocated, find_id-id, find_id-assign_at}

abbrev pub map? {ℓ} : {A : Type ℓ} → (A → A) → Option A → Option A
map? f none = none
map? f (some a) = some (f a)

module _ {ℓ} {A : Type ℓ} ⦃k : Keyed A⦄ where
  abbrev pub at : (ℕ → A) → Option ℕ → Option A
  at store none = none
  at store (some r) = some (store r)

  -- The record that a search by its identifier finds.
  unfoldable pub read : String → Table A → Option A
  read i t = at t.store (find_id i t)

  pub read-find :
      (i : String) (t : Table A) (r : ℕ) → find_id i t ≡ some r → read i t ≡ some (t.store r)
  unfolding read
  read-find i t r e = ap (at t.store) e

  pub read-missing : (i : String) (t : Table A) → find_id i t ≡ none → read i t ≡ none
  unfolding read
  read-missing i t e = ap (at t.store) e

  pub read-id : (i : String) (t : Table A) (a : A) → read i t ≡ some a → k.id a ≡ i
  unfolding read
  read-id i t a e = elim (Option-cases (find_id i t)) [
    | inl missing ↦ absurd (clash (sym (ap (at t.store) missing) ∙ e))
    | inr (r, found) ↦
        ap k.id (sym (the (sym (ap (at t.store) found) ∙ e))) ∙ find_id-id i t r found
  ]
    where
      clash : none ≡ some a → ⊥
      clash p = cc

      the : {b : A} → some b ≡ some a → b ≡ a
      the p = cc

  -- Assignments to a record that was found change what its identifier reads, and nothing else.
  pub read-assign_at :
      (i : String) (r : ℕ) (f : A → A) (t : Table A)
      → find_id i t ≡ some r
      → k.id (f (t.store r)) ≡ k.id (t.store r)
      → (j : String) → read j (assign r f t) ≡ (if i == j then map? f (read j t) else read j t)
  unfolding read assign
  read-assign_at i r f t e h j =
      ap (at (write r (f (t.store r)) t.store)) (find_id-assign_at j r f t h)
      ∙ elim (Option-cases (find_id j t)) [
        | inl missing ↦ rw missing (none_if (i == j))
        | inr (q, found) ↦ rw found (elim (Bool-cases (i == j)) [
          | inl same ↦
              let there : q ≡ r =
                some_of (sym found ∙ ap (λ n. find_id n t) (sym ((eq_iff i j).0 same)) ∙ e) in
              rw (same, there, ==ₙ_refl r)
          | inr other ↦ let away : (q ==ₙ r) ≡ false = apart q found other in rw (other, away)
        ])
      ]
    where
      none_if : (b : Bool) → none ≡ (if b then map? f none else none)
      none_if true = refl
      none_if false = refl

      some_of : {m n : ℕ} → some m ≡ some n → m ≡ n
      some_of p = cc

      apart : (q : ℕ) → find_id j t ≡ some q → (i == j) ≡ false → (q ==ₙ r) ≡ false
      apart q found other =
          let at_q = find_id-id j t q found in
          let at_r = find_id-id i t r e in
          elim (Bool-cases (q ==ₙ r)) [
            | inl same ↦
                let p : i ≡ j =
                  sym at_r ∙ ap (λ n. k.id (t.store n)) (sym ((==ₙ_iff q r).0 same)) ∙ at_q in
                absurd (ground (arith, eq_iff i j))
            | inr no_r ↦ no_r
          ]

  pub read-assign :
      (i : String) (r : ℕ) (f : A → A) (t : Table A)
      → find_id i t ≡ some r
      → ((a : A) → k.id (f a) ≡ k.id a)
      → (j : String) → read j (assign r f t) ≡ (if i == j then map? f (read j t) else read j t)
  read-assign i r f t e h j = read-assign_at i r f t e (h (t.store r)) j

  -- The identifiers of the records, in the order of the array.
  abbrev pub ids : Table A → List String
  ids t = map (λ r. k.id (t.store r)) t.refs

  fresh-read :
      (j : String) (n : ℕ) (a : A) (s : ℕ → A) (rs : List ℕ)
      → All (λ r. r < n) rs
      → at (write n a s) (first (λ r. has_id j (write n a s r)) rs)
        ≡ at s (first (λ r. has_id j (s r)) rs)
  unfolding first
  fresh-read j n a s [] h = refl
  fresh-read j n a s (r ∷ rs) h =
      let ih = fresh-read j n a s rs h.1 in
      let old : (r ==ₙ n) ≡ false = not_new in
      rw old
        (elim (Bool-cases (has_id j (s r))) [ inl here ↦ rw (here, old) | inr later ↦ rw later ih ])
    where
      not_new : (r ==ₙ n) ≡ false
      not_new = let lt = h.0 in ground arith

  -- A new record hides an older one of the same identifier, and changes nothing else.
  pub read-unshift :
      (a : A) (t : Table A)
      → Allocated t
      → (j : String) → read j (unshift a t) ≡ (if k.id a == j then some a else read j t)
  unfolding read unshift find_id first
  read-unshift a t h j = rw (==ₙ_refl t.next) (elim (Bool-cases (k.id a == j)) [
    | inl here ↦ rw (here, ==ₙ_refl t.next)
    | inr later ↦ rw later (fresh-read j t.next a t.store t.refs h)
  ])

  first-drop_first :
      (i j : String) (s : ℕ → A) (rs : List ℕ)
      → (i == j) ≡ false
      → first (λ r. has_id j (s r)) (drop_first (λ r. has_id i (s r)) rs)
        ≡ first (λ r. has_id j (s r)) rs
  unfolding first drop_first
  first-drop_first i j s [] e = refl
  first-drop_first i j s (r ∷ rs) e =
      let ih = first-drop_first i j s rs e in
      ground (arith, eq_iff i j, eq_iff (k.id (s r)) i, eq_iff (k.id (s r)) j)

  first_absent :
      (i : String) (s : ℕ → A) (rs : List ℕ)
      → ¬ Among i (map (λ r. k.id (s r)) rs)
      → first (λ r. has_id i (s r)) rs ≡ none
  unfolding first
  first_absent i s [] n = refl
  first_absent i s (r ∷ rs) n =
      let ih = first_absent i s rs (λ m. n (inr m)) in
      elim (Bool-cases (has_id i (s r))) [
        | inl here ↦ absurd (n (inl (sym ((eq_iff _ _).0 here))))
        | inr later ↦ rw later ih
      ]

  first_removed :
      (i : String) (s : ℕ → A) (rs : List ℕ)
      → Distinct (map (λ r. k.id (s r)) rs)
      → first (λ r. has_id i (s r)) (drop_first (λ r. has_id i (s r)) rs) ≡ none
  unfolding first drop_first
  first_removed i s [] d = refl
  first_removed i s (r ∷ rs) (n, d) = elim (Bool-cases (has_id i (s r))) [
    | inl here ↦ rw here (
        first_absent i s rs
          (λ m. n (subst (λ u. Among u (map (λ q. k.id (s q)) rs)) (sym ((eq_iff _ _).0 here)) m)))
    | inr later ↦ rw (later, later) (first_removed i s rs d)
  ]

  -- Where no identifier repeats, a removal removes the record of that identifier and no other.
  pub read-remove_id :
      (i : String) (t : Table A)
      → Distinct (ids t)
      → (j : String) → read j (remove_id i t) ≡ (if i == j then none else read j t)
  unfolding read remove_id find_id
  read-remove_id i t d j = elim (Bool-cases (i == j)) [
    | inl same ↦ rw same (
        ap (at t.store) (
          ap
            (λ n. first (λ r. has_id n (t.store r)) (drop_first (λ r. has_id i (t.store r)) t.refs))
            (sym ((eq_iff i j).0 same))
          ∙ first_removed i t.store t.refs d))
    | inr other ↦ rw other (ap (at t.store) (first-drop_first i j t.store t.refs other))
  ]

  drop_first-Among :
      (p : ℕ → Bool) (s : ℕ → A) (rs : List ℕ) (i : String)
      → Among i (map (λ r. k.id (s r)) (drop_first p rs))
      → Among i (map (λ r. k.id (s r)) rs)
  unfolding drop_first
  drop_first-Among p s [] i m = m
  drop_first-Among p s (r ∷ rs) i m = let ih = drop_first-Among p s rs i in ground arith

  drop_first-Distinct :
      (p : ℕ → Bool) (s : ℕ → A) (rs : List ℕ)
      → Distinct (map (λ r. k.id (s r)) rs)
      → Distinct (map (λ r. k.id (s r)) (drop_first p rs))
  unfolding drop_first
  drop_first-Distinct p s [] d = d
  drop_first-Distinct p s (r ∷ rs) (n, d) = elim (Bool-cases (p r)) [
    | inl here ↦ rw here d
    | inr later ↦ rw later (λ m. n (drop_first-Among p s rs _ m), drop_first-Distinct p s rs d)
  ]

  pub remove_id-Distinct :
      (i : String) (t : Table A) → Distinct (ids t) → Distinct (ids (remove_id i t))
  unfolding remove_id
  remove_id-Distinct i t d = drop_first-Distinct (λ r. has_id i (t.store r)) t.store t.refs d

  -- Removing several identifiers, one after the other.
  pub read-remove_ids :
      (is : List String) (t : Table A)
      → Distinct (ids t)
      → (j : String) → read j (remove_ids is t) ≡ (if includes j is then none else read j t)
  unfolding remove_ids
  read-remove_ids [] t d j = refl
  read-remove_ids (i ∷ is) t d j =
      read-remove_ids is (remove_id i t) (remove_id-Distinct i t d) j
      ∙ let here = read-remove_id i t d j in ground arith

  found_at_end :
      (j : String) (n : ℕ) (a : A) (s : ℕ → A) (rs : List ℕ)
      → All (λ r. r < n) rs
      → first (λ r. has_id (k.id a) (s r)) rs ≡ none
      → at (write n a s) (first (λ r. has_id j (write n a s r)) (rs ++ n ∷ []))
        ≡ (if k.id a == j then some a else at s (first (λ r. has_id j (s r)) rs))
  unfolding first
  found_at_end j n a s [] h e =
      rw (==ₙ_refl n) (elim (Bool-cases (k.id a == j)) [
        | inl here ↦ rw (here, ==ₙ_refl n)
        | inr other ↦ rw other
      ])
  found_at_end j n a s (r ∷ rs) h e = elim (Bool-cases (has_id (k.id a) (s r))) [
    | inl hides ↦ absurd (
        clash
          (sym (ap (λ b. if b then some r else first (λ q. has_id (k.id a) (s q)) rs) hides) ∙ e))
    | inr new ↦
        let rest : first (λ q. has_id (k.id a) (s q)) rs ≡ none =
          sym (ap (λ b. if b then some r else first (λ q. has_id (k.id a) (s q)) rs) new) ∙ e in
        let ih = found_at_end j n a s rs h.1 rest in
        let old : (r ==ₙ n) ≡ false = not_new in
        rw old (elim (Bool-cases (has_id j (s r))) [
          | inl here ↦
              let different : (k.id a == j) ≡ false = other_id here new in rw (here, old, different)
          | inr later ↦ rw later ih
        ])
  ]
    where
      clash : some r ≡ none → ⊥
      clash p = cc

      not_new : (r ==ₙ n) ≡ false
      not_new = let lt = h.0 in ground arith

      other_id : has_id j (s r) ≡ true → has_id (k.id a) (s r) ≡ false → (k.id a == j) ≡ false
      other_id x y =
          ground (arith, eq_iff (k.id (s r)) j, eq_iff (k.id (s r)) (k.id a), eq_iff (k.id a) j)

  -- A record pushed at the end is found where none had its identifier.
  pub read-push :
      (a : A) (t : Table A)
      → Allocated t
      → find_id (k.id a) t ≡ none
      → (j : String) → read j (push a t) ≡ (if k.id a == j then some a else read j t)
  unfolding read push find_id
  read-push a t h e j = found_at_end j t.next a t.store t.refs h e
