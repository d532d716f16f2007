-- ===== src/Profiles/Readiness/Laws.antt =====
-- When a profile may be applied and when it is offered for cleanup.
use full_revna_like_projekt.Base.{
  ◌≡◌, ◌↔◌, refl, inl, inr, true, false, Bool, List, [], ◌∷◌, arith, eq_iff, filter, Bool-cases,
  Among, Among-filter,
}
use full_revna_like_projekt.Table.{values}
use full_revna_like_projekt.Types.Profiles.{ProtocolProfileRecord}
use full_revna_like_projekt.Types.Hosts.{HostRecord}
use full_revna_like_projekt.Types.Subscriptions.{SubscriptionRecord}
use full_revna_like_projekt.Client.{Client}
use full_revna_like_projekt.Profiles.Readiness.{
  serves, is_runtime_client, active_hosts, runtime_clients, is_empty, blockers, readiness,
}

module _ {A : Type 0} (p : A → Bool) where
  -- A filter finds something exactly if an entry passes the test.
  found_iff :
      (xs : List A) → (is_empty (filter p xs) ≡ false) ↔ ((a : A) × Among a xs × (p a ≡ true))
  found_iff xs = (to xs, from)
    where
      to : (ys : List A) → is_empty (filter p ys) ≡ false → (a : A) × Among a ys × (p a ≡ true)
      to [] e = cc
      to (y ∷ ys) e = elim (Bool-cases (p y)) [
        | inl yes_y ↦ (y, inl refl, yes_y)
        | inr no_y ↦ let (a, m, q) = to ys (rw no_y at e) in (a, inr m, q)
      ]

      from : (a : A) × Among a xs × (p a ≡ true) → is_empty (filter p xs) ≡ false
      from (a, m, q) = some_left (filter p xs) (Among-filter p xs a m q)
        where
          some_left : (ys : List A) → Among a ys → is_empty ys ≡ false
          some_left [] h = absurd h
          some_left (y ∷ ys) h = refl

-- A profile has no blocker exactly if it is active, a host serves it and a subscription uses it.
blockers_iff :
    (c : Client) (p : ProtocolProfileRecord)
    → (is_empty (blockers p c) ≡ true) ↔ (
        (p.status ≡ "active")
        × (is_empty (active_hosts p c) ≡ false)
        × (is_empty (runtime_clients p c) ≡ false))
unfolding blockers
blockers_iff c p = ground (arith, eq_iff p.status "active")

-- The readiness of a profile says `apply_ready` exactly if the profile is active, some host of the
-- client serves it and some subscription of the client is one of its runtime clients.
pub apply_ready_iff :
    (c : Client) (p : ProtocolProfileRecord)
    → ((readiness c p).apply_ready ≡ true) ↔ (
        (p.status ≡ "active")
        × ((h : HostRecord) × Among h (values c.hosts) × (serves p h ≡ true))
        × ((s : SubscriptionRecord) × Among s (values c.subscriptions)
            × (is_runtime_client p s ≡ true)))
unfolding readiness active_hosts runtime_clients
apply_ready_iff c p =
    let (to, from) = blockers_iff c p in
    let (host_to, host_from) = found_iff (serves p) (values c.hosts) in
    let (client_to, client_from) = found_iff (is_runtime_client p) (values c.subscriptions) in
    (
      λ e. let (active, hosted, used) = to e in (active, host_to hosted, client_to used),
      λ h. from (h.0, host_from h.1, client_from h.2),
    )
