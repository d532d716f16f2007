-- ===== src/Plugins/Laws.antt =====
-- What a reordering of the node plugins gives.
use full_revna_like_projekt.Base.{
  ℕ, ◌≤◌, String, ◌≡◌, refl, ◌∙◌, ap, subst, inl, inr, true, false, Bool-cases, Option, none, some,
  Option-cases, ◌==◌, eq_iff, ==ₙ_iff, ==ₙ_refl, if◌then◌else◌, sym, List, [], ◌∷◌, arith, leb,
  ◌==ₙ◌, if-cases, filter, All,
}
use full_revna_like_projekt.Table.{Table, values, find_id, assign}
use full_revna_like_projekt.Table.Laws.{find_id-id, find_id-assign}
use full_revna_like_projekt.Types.Plugins.{NodePluginRecord}
use full_revna_like_projekt.Client.{Client, ok, node_plugin_keyed}
use full_revna_like_projekt.Plugins.{
  place, rank, insert_by, sort_by, sort_plugins, place_all, reorder_node_plugins,
}
use mathlib.Core.List.{Perm}
use mathlib.Core.List.Perm

-- The keys do not decrease.
abbrev pub SortedBy : (ℕ → ℕ) → List ℕ → Type 0
SortedBy key [] = Unit
SortedBy key (r ∷ rs) = All (λ q. key r ≤ key q) rs × SortedBy key rs

All-insert_by :
    (key : ℕ → ℕ) (n r : ℕ) (qs : List ℕ)
    → n ≤ key r
    → All (λ q. n ≤ key q) qs
    → All (λ q. n ≤ key q) (insert_by key r qs)
unfolding insert_by
All-insert_by key n r [] h a = (h, tt)
All-insert_by key n r (q ∷ qs) h a =
    let ih = All-insert_by key n r qs h a.1 in
    if-cases (All (λ x. n ≤ key x)) (leb (key r) (key q)) (r ∷ q ∷ qs) (q ∷ insert_by key r qs)
      (λ _. (h, a)) (λ _. (a.0, ih))

All-le_trans :
    (key : ℕ → ℕ) (m n : ℕ) (qs : List ℕ)
    → m ≤ n
    → All (λ q. n ≤ key q) qs
    → All (λ q. m ≤ key q) qs
All-le_trans key m n [] h a = tt
All-le_trans key m n (q ∷ qs) h a =
    let first_le = a.0 in (omega arith, All-le_trans key m n qs h a.1)

insert_by-SortedBy :
    (key : ℕ → ℕ) (r : ℕ) (qs : List ℕ) → SortedBy key qs → SortedBy key (insert_by key r qs)
unfolding insert_by
insert_by-SortedBy key r [] s = (tt, tt)
insert_by-SortedBy key r (q ∷ qs) s =
    if-cases (SortedBy key) (leb (key r) (key q)) (r ∷ q ∷ qs) (q ∷ insert_by key r qs)
      (λ e. let le = small e in ((le, All-le_trans key (key r) (key q) qs le s.0), s))
      (λ e. (All-insert_by key (key q) r qs (large e) s.0, insert_by-SortedBy key r qs s.1))
  where
    small : leb (key r) (key q) ≡ true → key r ≤ key q
    small e = ground arith

    large : leb (key r) (key q) ≡ false → key q ≤ key r
    large e = ground arith

sort_by-SortedBy : (key : ℕ → ℕ) (rs : List ℕ) → SortedBy key (sort_by key rs)
unfolding sort_by
sort_by-SortedBy key [] = tt
sort_by-SortedBy key (r ∷ rs) = insert_by-SortedBy key r (sort_by key rs) (sort_by-SortedBy key rs)

insert_by-Perm : (key : ℕ → ℕ) (r : ℕ) (qs : List ℕ) → Perm (insert_by key r qs) (r ∷ qs)
unfolding insert_by
insert_by-Perm key r [] = Perm.refl (r ∷ [])
insert_by-Perm key r (q ∷ qs) =
    if-cases (λ l. Perm l (r ∷ q ∷ qs)) (leb (key r) (key q)) (r ∷ q ∷ qs) (q ∷ insert_by key r qs)
      (λ _. Perm.refl (r ∷ q ∷ qs))
      (λ _. Perm.trans (Perm.cons q (insert_by-Perm key r qs)) (Perm.swap r q qs))

sort_by-Perm : (key : ℕ → ℕ) (rs : List ℕ) → Perm (sort_by key rs) rs
unfolding sort_by
sort_by-Perm key [] = Perm.refl []
sort_by-Perm key (r ∷ rs) =
    Perm.trans (insert_by-Perm key r (sort_by key rs)) (Perm.cons r (sort_by-Perm key rs))

-- Among equal keys, a reference is inserted in front.
insert_by-stable :
    (key : ℕ → ℕ) (n r : ℕ) (qs : List ℕ)
    → filter (λ q. key q ==ₙ n) (insert_by key r qs) ≡ filter (λ q. key q ==ₙ n) (r ∷ qs)
unfolding insert_by
insert_by-stable key n r [] = refl
insert_by-stable key n r (q ∷ qs) =
    let ih = insert_by-stable key n r qs in
    if-cases (λ l. filter (λ x. key x ==ₙ n) l ≡ filter (λ x. key x ==ₙ n) (r ∷ q ∷ qs))
      (leb (key r) (key q)) (r ∷ q ∷ qs) (q ∷ insert_by key r qs) (λ _. refl) (λ e. ground arith)

sort_by-stable :
    (key : ℕ → ℕ) (n : ℕ) (rs : List ℕ)
    → filter (λ q. key q ==ₙ n) (sort_by key rs) ≡ filter (λ q. key q ==ₙ n) rs
unfolding sort_by
sort_by-stable key n [] = refl
sort_by-stable key n (r ∷ rs) =
    insert_by-stable key n r (sort_by key rs) ∙ let ih = sort_by-stable key n rs in ground arith

place_all-refs :
    (now : String) (items : List (String × ℕ)) (t : Table NodePluginRecord)
    → (place_all now items t).refs ≡ t.refs
unfolding place_all assign
place_all-refs now [] t = refl
place_all-refs now ((i, n) ∷ rest) t = elim (Option-cases (find_id i t)) [
  | inl missing ↦ rw (missing, place_all) (place_all-refs now rest t)
  | inr (r, found) ↦ rw (found, place_all) (place_all-refs now rest (assign r (place now n) t))
]

-- The sort order that the items ask for a plugin: that of the last item with its identifier.
abbrev pub asked_for : String → List (String × ℕ) → Option ℕ
asked_for j [] = none
asked_for j ((i, n) ∷ rest) = elim (asked_for j rest) [
  | some m ↦ some m
  | none ↦ if i == j then some n else none
]

-- The plugin with a sort order that is asked for.
abbrev pub reordered : String → Option ℕ → NodePluginRecord → NodePluginRecord
reordered now none plugin = plugin
reordered now (some n) plugin = record plugin { sort_order = some n; updated_at = now }

-- A single item, and what the items after it make of the plugin.
place_one :
    (now j i : String) (n : ℕ) (t : Table NodePluginRecord) (r q : ℕ) (o : Option ℕ)
    → find_id j t ≡ some r
    → find_id i t ≡ some q
    → reordered now o ((assign q (place now n) t).store r)
      ≡ reordered now
          (elim o [ some m ↦ some m | none ↦ if i == j then some n else none ])
          (t.store r)
unfolding assign
place_one now j i n t r q o here there = elim (Bool-cases (i == j)) [
  | inl same ↦
      let e : q ≡ r = some_inner (sym there ∙ ap (λ k. find_id k t) ((eq_iff i j).0 same) ∙ here) in
      elim (Option-cases o) [
        | inl last ↦ rw (last, same, e, ==ₙ_refl r)
        | inr (m, later) ↦ rw (later, e, ==ₙ_refl r)
      ]
  | inr other ↦
      let e : (r ==ₙ q) ≡ false = apart other in
      elim (Option-cases o) [ inl last ↦ rw (last, other, e) | inr (m, later) ↦ rw (later, e) ]
]
  where
    some_inner : some q ≡ some r → q ≡ r
    some_inner h = cc

    apart : (i == j) ≡ false → (r ==ₙ q) ≡ false
    apart other = elim (Bool-cases (r ==ₙ q)) [
      | inr differ ↦ differ
      | inl equal ↦
          let k : i ≡ j =
            sym (find_id-id i t q there)
            ∙ ap (λ x. (t.store x).id) (sym ((==ₙ_iff r q).0 equal))
            ∙ find_id-id j t r here in
          let h = (eq_iff i j).1 k in cc
    ]

place_all-store :
    (now : String) (items : List (String × ℕ)) (t : Table NodePluginRecord) (j : String) (r : ℕ)
    → find_id j t ≡ some r
    → (place_all now items t).store r ≡ reordered now (asked_for j items) (t.store r)
unfolding place_all
place_all-store now [] t j r here = refl
place_all-store now ((i, n) ∷ rest) t j r here = elim (Option-cases (find_id i t)) [
  | inr (q, there) ↦
      rw (there, place_all)
        (place_all-store now rest (assign q (place now n) t) j r
            (find_id-assign j q (place now n) t (λ a. refl) ∙ here)
          ∙ place_one now j i n t r q (asked_for j rest) here there)
  | inl missing ↦
      let other = unnamed missing in
      rw (missing, place_all)
        (place_all-store now rest t j r here ∙ elim (Option-cases (asked_for j rest)) [
          | inl last ↦ rw (last, other)
          | inr (m, later) ↦ rw later
        ])
]
  where
    unnamed : find_id i t ≡ none → (i == j) ≡ false
    unnamed missing = elim (Bool-cases (i == j)) [
      | inr differ ↦ differ
      | inl same ↦ let e = ap (λ k. find_id k t) ((eq_iff i j).0 same) in cc
    ]

-- A reordering of the plugins permutes them. The plugin that an identifier finds has the sort order
-- of the last item with that identifier and the time of the call, or is unchanged where there is no
-- such item. Afterwards the sort orders do not decrease, plugins of equal sort order stand as they
-- stood before, and the reply lists the plugins as they stand.
pub reorder_node_plugins_sorts :
    (now : String) (items : List (String × ℕ)) (c : Client) (n : ℕ)
    → (let t = (reorder_node_plugins now items c).0.node_plugins in
        Perm t.refs c.node_plugins.refs
        × ((j : String) (r : ℕ)
            → find_id j c.node_plugins ≡ some r
            → t.store r ≡ reordered now (asked_for j items) (c.node_plugins.store r))
        × SortedBy (rank t) t.refs
        × (filter (λ r. rank t r ==ₙ n) t.refs ≡ filter (λ r. rank t r ==ₙ n) c.node_plugins.refs)
        × ((reorder_node_plugins now items c).1 ≡ ok (values t)))
unfolding reorder_node_plugins sort_plugins
reorder_node_plugins_sorts now items c n =
    let placed = place_all now items c.node_plugins in
    let same = place_all-refs now items c.node_plugins in
    (
      subst (Perm (sort_by (rank placed) placed.refs)) same
          (sort_by-Perm (rank placed) placed.refs),
      place_all-store now items c.node_plugins,
      sort_by-SortedBy (rank placed) placed.refs,
      sort_by-stable (rank placed) n placed.refs ∙ ap (filter (λ r. rank placed r ==ₙ n)) same,
      refl,
    )
