-- ===== src/Profiles/Selection/Laws.antt =====
-- What a selection of profiles does to the profiles and to the commands of a node.
use full_revna_like_projekt.Base.{
  ℕ, ◌≡◌, refl, inl, inr, ◌∙◌, sym, ap, subst, true, false, some, List, [], ◌∷◌, ◌++◌, arith, ◌==◌,
  eq_iff, String, if◌then◌else◌, Bool-cases, All, Among, includes, filter-Among, All-of_Among,
}
use full_revna_like_projekt.Table.{values, select, assign, assign_all}
use full_revna_like_projekt.Table.Laws.{Allocated, write_self, assign_where-store, assign_all-refs}
use full_revna_like_projekt.Types.Runtime.{NodeCommandRecord}
use full_revna_like_projekt.Types.Profiles.{ProtocolProfileRecord}
use full_revna_like_projekt.Client.{Client}
use full_revna_like_projekt.Nodes.{queued}
use full_revna_like_projekt.Nodes.Laws.{values-queue_command, queue_command-Allocated}
use full_revna_like_projekt.Profiles.{sync_status}
use full_revna_like_projekt.Profiles.Selection.{
  wanted_status, Selecting, selection_request, select_step, select_loop, node_profiles, selecting,
  update_node_protocol_selection,
}
use mathlib.Core.List.{reverse, reverse-append, append_assoc, append-nil}

module _ (now node_id : String) (enabled : List String) where
  -- What the selection makes of a profile of the node: one whose status is another than the wanted
  -- one gets that status, and the state of an apply that was queued for this node.
  pub settle : ProtocolProfileRecord → ProtocolProfileRecord
  settle p = if p.status == wanted_status enabled p then p else record p {
    status = wanted_status enabled p;
    runtime_sync = some (record (sync_status true "apply_queued") {
      last_apply_queued_at = some now;
      node_id = some node_id;
      profile_id = some p.id;
    });
  }

  settle-id : (p : ProtocolProfileRecord) → (settle p).id ≡ p.id
  unfolding settle
  settle-id p = elim (Bool-cases (p.status == wanted_status enabled p)) [
    | inl same ↦ rw same
    | inr other ↦ rw other
  ]

  settle-status : (p : ProtocolProfileRecord) → (settle p).status ≡ wanted_status enabled p
  unfolding settle
  settle-status p = elim (Bool-cases (p.status == wanted_status enabled p)) [
    | inl same ↦ rw same ((eq_iff _ _).0 same)
    | inr other ↦ rw other
  ]

  settle_of_status : (p : ProtocolProfileRecord) → p.status ≡ wanted_status enabled p → settle p ≡ p
  unfolding settle
  settle_of_status p e = rw ((eq_iff _ _).1 e)

  settle_twice : (p : ProtocolProfileRecord) → settle (settle p) ≡ settle p
  settle_twice p = settle_of_status (settle p) (
      settle-status p
      ∙ ap (λ i. if includes i enabled then "active" else "disabled") (sym (settle-id p)))

  step-profiles :
      (r : ℕ) (s : Selecting)
      → (select_step now node_id enabled r s).profiles ≡ assign r settle s.profiles
  unfolding select_step assign settle
  step-profiles r s =
      let p = s.profiles.store r in
      elim (Bool-cases (p.status == wanted_status enabled p)) [
        | inl same ↦
            rw same
              (λ i. record s.profiles { store = sym (write_self r p s.profiles.store refl) i })
        | inr other ↦ rw other
      ]

  loop-profiles :
      (rs : List ℕ) (s : Selecting)
      → (select_loop now node_id enabled rs s).profiles ≡ assign_all rs settle s.profiles
  unfolding select_loop assign_all
  loop-profiles [] s = refl
  loop-profiles (r ∷ rs) s =
      loop-profiles rs (select_step now node_id enabled r s)
      ∙ ap (assign_all rs settle) (step-profiles r s)

  abbrev pub selected_client : Client → Client
  selected_client c = (update_node_protocol_selection now node_id enabled c).0

  -- A selection leaves the array of profiles in its order, and settles each profile of the node:
  -- afterwards a profile that is enabled has the status active and any other one disabled. One that
  -- had it before is unchanged, the others tell that an apply was queued now for this node and change
  -- nothing else. The profiles of other nodes are unchanged.
  pub selection_settles :
      (c : Client) (r : ℕ)
      → Among r c.profiles.refs
      → ((selected_client c).profiles.refs ≡ c.profiles.refs)
        × ((selected_client c).profiles.store r ≡ (
            if (c.profiles.store r).node_id == node_id
            then settle (c.profiles.store r)
            else c.profiles.store r))
        × (((selected_client c).profiles.store r).status ≡ (
            if (c.profiles.store r).node_id == node_id
            then (if includes (c.profiles.store r).id enabled then "active" else "disabled")
            else (c.profiles.store r).status))
  unfolding update_node_protocol_selection selecting
  selection_settles c r m =
      let chosen = node_profiles node_id c.profiles in
      let same = loop-profiles chosen (selecting c) in
      let stored =
        ap (λ t. t.store r) same
        ∙ assign_where-store (λ p. p.node_id == node_id) settle c.profiles r settle_twice m in
      (
        ap (λ t. t.refs) same ∙ assign_all-refs chosen settle c.profiles,
        stored,
        ap (λ p. p.status) stored ∙ chosen_status (c.profiles.store r),
      )
    where
      chosen_status :
          (p : ProtocolProfileRecord)
          → (if p.node_id == node_id then settle p else p).status ≡ (
              if p.node_id == node_id
              then (if includes p.id enabled then "active" else "disabled")
              else p.status)
      chosen_status p = elim (Bool-cases (p.node_id == node_id)) [
        | inl here ↦ rw here (settle-status p)
        | inr away ↦ rw away
      ]

  -- With every chosen profile settled, the loop has nothing to do.
  loop_done :
      (rs : List ℕ) (s : Selecting)
      → All (λ r. (s.profiles.store r).status ≡ wanted_status enabled (s.profiles.store r)) rs
      → select_loop now node_id enabled rs s ≡ s
  unfolding select_loop select_step
  loop_done [] s h = refl
  loop_done (r ∷ rs) s h = rw ((eq_iff _ _).1 h.0) (loop_done rs s h.1)

  -- The commands that a run of the loop adds: at the end of the reply, and on top of the array.
  pub record Adds (s t : Selecting) : Type 0 where
    pub new : List NodeCommandRecord
    pub replied : t.queued_commands ≡ s.queued_commands ++ new
    pub stored : values t.node_commands ≡ reverse new ++ values s.node_commands
    pub allocated : Allocated t.node_commands

  step-Adds :
      (r : ℕ) (s : Selecting)
      → Allocated s.node_commands
      → Adds s (select_step now node_id enabled r s)
  unfolding select_step
  step-Adds r s h =
      let p = s.profiles.store r in
      elim (Bool-cases (p.status == wanted_status enabled p)) [
        | inl same ↦
            rw same
              (record { new = []; replied = sym (append-nil _); stored = refl; allocated = h })
        | inr other ↦
            let request = selection_request (wanted_status enabled p) p in
            let command = queued now node_id request s.node_commands in
            rw other (record {
              new = command ∷ [];
              replied = refl;
              stored = values-queue_command now node_id request s.node_commands h;
              allocated = queue_command-Allocated now node_id request s.node_commands h;
            })
      ]

  Adds-trans : (s t u : Selecting) → Adds s t → Adds t u → Adds s u
  Adds-trans s t u a b = record {
    new = a.new ++ b.new;
    replied =
        b.replied ∙ ap (λ l. l ++ b.new) a.replied ∙ append_assoc s.queued_commands a.new b.new;
    stored =
        b.stored
        ∙ ap (λ l. reverse b.new ++ l) a.stored
        ∙ sym (append_assoc (reverse b.new) (reverse a.new) (values s.node_commands))
        ∙ ap (λ l. l ++ values s.node_commands) (sym (reverse-append a.new b.new));
    allocated = b.allocated;
  }

  loop-Adds :
      (rs : List ℕ) (s : Selecting)
      → Allocated s.node_commands
      → Adds s (select_loop now node_id enabled rs s)
  unfolding select_loop
  loop-Adds [] s h = record { new = []; replied = sym (append-nil _); stored = refl; allocated = h }
  loop-Adds (r ∷ rs) s h =
      let a = step-Adds r s h in
      Adds-trans s _ _ a (loop-Adds rs (select_step now node_id enabled r s) a.allocated)

  -- Where the references of the commands are in use, the commands of the reply are the ones that the
  -- selection queued: they stand on top of the client's commands, the last one first, and the
  -- commands before it are unchanged.
  pub selection_commands :
      (c : Client)
      → Allocated c.node_commands
      → values (selected_client c).node_commands
        ≡ reverse (update_node_protocol_selection now node_id enabled c).1.queued_commands
          ++ values c.node_commands
  unfolding update_node_protocol_selection selecting
  selection_commands c h =
      let a = loop-Adds (node_profiles node_id c.profiles) (selecting c) h in
      a.stored ∙ ap (λ l. reverse l ++ values c.node_commands) (sym a.replied)

-- A profile that the first selection chose has the status that is wanted of it.
module _ (now node_id : String) (enabled : List String) (c : Client) where
  abbrev once : Client
  once = selected_client now node_id enabled c

  once_refs : once.profiles.refs ≡ c.profiles.refs
  unfolding update_node_protocol_selection selecting
  once_refs =
      let chosen = node_profiles node_id c.profiles in
      ap (λ t. t.refs) (loop-profiles now node_id enabled chosen (selecting c))
      ∙ assign_all-refs chosen (settle now node_id enabled) c.profiles

  chosen_settled :
      (r : ℕ)
      → Among r (node_profiles node_id once.profiles)
      → (once.profiles.store r).status ≡ wanted_status enabled (once.profiles.store r)
  unfolding select
  chosen_settled r m =
      let (listed, on_node) =
        filter-Among (λ q. (once.profiles.store q).node_id == node_id) once.profiles.refs r m in
      let (_, stored, _) =
        selection_settles now node_id enabled c r (subst (Among r) once_refs listed) in
      let p = c.profiles.store r in
      elim (Bool-cases (p.node_id == node_id)) [
        | inl here ↦
            let e : once.profiles.store r ≡ settle now node_id enabled p =
              stored ∙ ap (λ b. if b then settle now node_id enabled p else p) here in
            ap (λ q. q.status) e
            ∙ settle-status now node_id enabled p
            ∙ ap (λ i. if includes i enabled then "active" else "disabled")
                (sym (ap (λ q. q.id) e ∙ settle-id now node_id enabled p))
        | inr away ↦
            let e : once.profiles.store r ≡ p =
              stored ∙ ap (λ b. if b then settle now node_id enabled p else p) away in
            absurd (
              different p.node_id node_id (once.profiles.store r).node_id away on_node
                (ap (λ q. q.node_id) e))
      ]
    where
      different : (i n j : String) → (i == n) ≡ false → (j == n) ≡ true → j ≡ i → ⊥
      different i n j a b e = ground (arith, eq_iff i n, eq_iff j n)

  -- The same selection made again, at any time, queues nothing and changes nothing.
  pub selection_repeated :
      (later : String)
      → ((update_node_protocol_selection later node_id enabled once).0 ≡ once)
        × ((update_node_protocol_selection later node_id enabled once).1.queued_commands ≡ [])
  unfolding update_node_protocol_selection selecting
  selection_repeated later =
      let done =
        loop_done later node_id enabled (node_profiles node_id once.profiles) (selecting once)
          (All-of_Among _ _ chosen_settled) in
      (
        λ i. record once { profiles = (done i).profiles; node_commands = (done i).node_commands },
        λ i. (done i).queued_commands,
      )
