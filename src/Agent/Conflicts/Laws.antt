-- ===== src/Agent/Conflicts/Laws.antt =====
-- What the agent's detection of conflicts tells, and that it agrees with the detection of the
-- registry (apps/node-agent/src/conflict-model.js,
-- packages/protocol-registry/src/port-reservations.js).
use full_revna_like_projekt.Base.{
  ℕ, ◌≤◌, String, ◌≡◌, refl, sym, ap, ◌∙◌, inl, inr, ◌⊎◌, ◌↔◌, Bool, true, Option, none, List, [],
  ◌∷◌, ◌++◌, map, arith, ◌==◌, All, append-empty, Bool-cases, if◌then◌else◌, filter, filter-append,
  map-append,
}
use full_revna_like_projekt.Base.Json.{Json}
use full_revna_like_projekt.Base.Reply.{Reply, ok, throws, and_then, Reply-cases}
use full_revna_like_projekt.Registry.Ports.{
  OwnerId, undefined_id, null_id, nullish_or, ReservationInput, Reservation, BindConflict, Item,
  assert_port, reserve, map_reply, bind_clash, clashes_with, exclusive_conflict, conflicts_of,
  create_bind_reservation, expand_reservations, detect_exclusive_bind_port_conflicts,
}
use full_revna_like_projekt.Registry.Ports.Laws.{Apart, clashes_with_iff}
use full_revna_like_projekt.Agent.Capabilities.{bind_privileged_ports, has_capability}
use full_revna_like_projekt.Agent.Conflicts.{
  create_port_reservation, privileged_conflict, in_use_conflict, is_privileged, port_conflicts,
  detect_port_conflicts,
}

-- The node may bind the port of the reservation.
abbrev pub Bindable : Option Json → Reservation → Type 0
Bindable report r = (1024 ≤ r.port) ⊎ (has_capability report bind_privileged_ports ≡ true)

Bindable-iff :
    (report : Option Json) (r : Reservation)
    → ((if is_privileged report r then privileged_conflict r ∷ [] else []) ≡ []) ↔ Bindable report r
Bindable-iff report r = ground arith

-- The agent detects no conflict exactly where no two of the reservations clash, on a port, a protocol
-- and an address that they share and that one of them wants alone, and each port is 1024 or above
-- unless the node has the capability for ports below.
pub port_conflicts_iff :
    (report : Option Json) (rs : List Reservation)
    → (port_conflicts report rs ≡ []) ↔ (Apart rs × All (Bindable report) rs)
unfolding port_conflicts
port_conflicts_iff report [] = (λ e. (tt, tt), λ h. refl)
port_conflicts_iff report (r ∷ rs) =
    let own = Bindable-iff report r in
    let first = clashes_with_iff in_use_conflict r rs in
    let rest = port_conflicts_iff report rs in
    let outer =
      append-empty (if is_privileged report r then privileged_conflict r ∷ [] else []) _ in
    let inner = append-empty (clashes_with in_use_conflict r rs) (port_conflicts report rs) in
    (
      λ h.
          let (o, more) = outer.0 h in
          let (f, g) = inner.0 more in
          let (apart, bindable) = rest.0 g in ((first.0 f, apart), (own.0 o, bindable)),
      λ ((f, apart), (o, bindable)).
          outer.1 (own.1 o, inner.1 (first.1 f, rest.1 (apart, bindable))),
    )

-- What a conflict between two reservations tells: the port, the protocol and the owners.
abbrev pub summary : BindConflict → ℕ × String × List OwnerId
summary c = (c.port, c.protocol, c.owner_ids)

-- The same, with `null` for an owner that is `undefined`
abbrev pub null_summary : BindConflict → ℕ × String × List OwnerId
null_summary c = (c.port, c.protocol, map (λ o. nullish_or o null_id) c.owner_ids)

abbrev pub is_in_use : BindConflict → Bool
is_in_use c = c.kind == "port_in_use"

-- An item with the fields of a reservation
abbrev pub bare_item : ReservationInput → Item
bare_item input = record {
  port_reservations = none;
  bind = none;
  outbound_id = undefined_id;
  id = undefined_id;
  own = input;
}

-- A reservation of the registry without its purpose
abbrev unpurposed : Reservation → Reservation
unpurposed r = record r { purpose = "" }

-- A reservation of the agent without its purpose, and as the registry has it
abbrev translated : Reservation → Reservation
translated r = record r { purpose = ""; owner_id = nullish_or r.owner_id null_id }

abbrev Alike : List Reservation → List Reservation → Type 0
Alike [] [] = Unit
Alike (r ∷ rs) (q ∷ qs) = (translated r ≡ unpurposed q) × Alike rs qs
Alike _ _ = ⊥

bind_clash_alike :
    (r q r' q' : Reservation)
    → translated r ≡ unpurposed q
    → translated r' ≡ unpurposed q'
    → bind_clash r r' ≡ bind_clash q q'
unfolding bind_clash
bind_clash_alike r q r' q' e e' = λ i. bind_clash (e i) (e' i)

clashes-Alike :
    (r q : Reservation) (rs qs : List Reservation)
    → translated r ≡ unpurposed q
    → Alike rs qs
    → map null_summary (filter is_in_use (clashes_with in_use_conflict r rs))
      ≡ map summary (clashes_with exclusive_conflict q qs)
clashes-Alike r q [] [] e a = refl
clashes-Alike r q [] (q' ∷ qs) e a = absurd a
clashes-Alike r q (r' ∷ rs) [] e a = absurd a
clashes-Alike r q (r' ∷ rs) (q' ∷ qs) e (e', a) = elim (Bool-cases (bind_clash q q')) [
  | inl c ↦
      rw (bind_clash_alike r q r' q' e e', c)
        (λ i. summary (in_use_conflict (e i) (e' i)) ∷ clashes-Alike r q rs qs e a i)
  | inr c ↦ rw (bind_clash_alike r q r' q' e e', c) (clashes-Alike r q rs qs e a)
]

conflicts-Alike :
    (report : Option Json) (rs qs : List Reservation)
    → Alike rs qs
    → map null_summary (filter is_in_use (port_conflicts report rs)) ≡ map summary (conflicts_of qs)
unfolding port_conflicts conflicts_of
conflicts-Alike report [] [] a = refl
conflicts-Alike report [] (q ∷ qs) a = absurd a
conflicts-Alike report (r ∷ rs) [] a = absurd a
conflicts-Alike report (r ∷ rs) (q ∷ qs) (e, a) =
    own
    ∙ (ap (map null_summary) (filter-append is_in_use (clashes_with in_use_conflict r rs) _)
        ∙ (map-append null_summary (filter is_in_use (clashes_with in_use_conflict r rs)) _
            ∙ ((λ i. clashes-Alike r q rs qs e a i ++ conflicts-Alike report rs qs a i)
                ∙ sym
                    (map-append summary (clashes_with exclusive_conflict q qs) (conflicts_of qs)))))
  where
    own :
        map null_summary (filter is_in_use (port_conflicts report (r ∷ rs)))
        ≡ map null_summary
            (filter is_in_use (clashes_with in_use_conflict r rs ++ port_conflicts report rs))
    own = elim (Bool-cases (is_privileged report r)) [
      | inl p ↦ rw (p, port_conflicts) refl
      | inr p ↦ rw (p, port_conflicts) refl
    ]

-- The two ways to create reservations go alike.
data Pairwise : Reply (List Reservation) → Reply (List Reservation) → Type 0 where
  alike : {rs qs : List Reservation} → Alike rs qs → Pairwise (ok rs) (ok qs)
  both_throw : {m : String} → Pairwise (throws m) (throws m)

create_alike :
    (inputs : List ReservationInput)
    → Pairwise (map_reply create_port_reservation inputs) (map_reply create_bind_reservation inputs)
unfolding map_reply create_port_reservation create_bind_reservation
create_alike [] = alike {rs = []} {qs = []} tt
create_alike (x ∷ xs) = elim (Reply-cases (assert_port x.port)) [
  | inr (m, e) ↦ rw e both_throw
  | inl (port, e) ↦ rw e (more port (create_alike xs))
]
  where
    more :
        (port : ℕ) {rs qs : Reply (List Reservation)}
        → Pairwise rs qs
        → Pairwise (and_then rs (λ ys. ok (reserve "outbound-listener" x.owner_id x port ∷ ys))) (
            and_then qs
              (λ ys. ok (reserve "xray-listener" (nullish_or x.owner_id null_id) x port ∷ ys)))
    more port (alike a) = alike (refl, a)
    more port both_throw = both_throw

expand_bare : (inputs : List ReservationInput) → expand_reservations (map bare_item inputs) ≡ inputs
expand_bare [] = refl
expand_bare (x ∷ xs) = λ i. x ∷ expand_bare xs i

-- The agent and the registry detect the same conflicts between reservations, in the same order, with
-- the same ports, protocols and owners, whatever the capabilities of the node, except that an owner
-- that is missing is `undefined` in the agent's conflicts and `null` in the registry's. Where one of
-- them throws on a port that is none, the other throws the same.
pub detect_port_conflicts-agree :
    (inputs : List ReservationInput) (report : Option Json)
    → and_then
        (detect_port_conflicts inputs report)
        (λ cs. ok (map null_summary (filter is_in_use cs)))
      ≡ and_then
          (detect_exclusive_bind_port_conflicts (map bare_item inputs))
          (λ cs. ok (map summary cs))
unfolding detect_port_conflicts detect_exclusive_bind_port_conflicts
detect_port_conflicts-agree inputs report = rw (expand_bare inputs) (agreed (create_alike inputs))
  where
    agreed :
        {rs qs : Reply (List Reservation)}
        → Pairwise rs qs
        → and_then
            (and_then rs (λ xs. ok (port_conflicts report xs)))
            (λ cs. ok (map null_summary (filter is_in_use cs)))
          ≡ and_then (and_then qs (λ xs. ok (conflicts_of xs))) (λ cs. ok (map summary cs))
    agreed (alike {rs = rs} {qs = qs} a) = ap ok (conflicts-Alike report rs qs a)
    agreed both_throw = refl
