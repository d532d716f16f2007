-- ===== src/Registry/Ports/Laws.antt =====
-- When two reservations clash (packages/protocol-registry/src/port-reservations.js).
use full_revna_like_projekt.Base.{
  String, ◌≡◌, refl, inl, inr, ◌⊎◌, ◌↔◌, true, List, [], ◌∷◌, arith, ==ₙ_iff, eq_iff, All,
  append-empty, Bool-cases,
}
use full_revna_like_projekt.Registry.Ports.{
  Reservation, BindConflict, addresses_overlap, reservations_overlap, bind_clash, clashes_with,
  exclusive_conflict, conflicts_of,
}

-- The address stands for all addresses.
abbrev pub IsWildcard : String → Type 0
IsWildcard a = (a ≡ "0.0.0.0") ⊎ (a ≡ "::") ⊎ (a ≡ "*")

-- Two reservations that cannot both be had
pub record Clash (r q : Reservation) : Type 0 where
  pub same_port : r.port ≡ q.port
  pub same_protocol : r.protocol ≡ q.protocol
  pub overlap : (r.address ≡ q.address) ⊎ IsWildcard r.address ⊎ IsWildcard q.address
  pub wanted_alone : (r.exclusive ≡ true) ⊎ (q.exclusive ≡ true)

addresses_overlap_iff :
    (a b : String) → (addresses_overlap a b ≡ true) ↔ ((a ≡ b) ⊎ IsWildcard a ⊎ IsWildcard b)
unfolding addresses_overlap
addresses_overlap_iff a b = ground (
  arith,
  eq_iff a b,
  eq_iff a "0.0.0.0",
  eq_iff b "0.0.0.0",
  eq_iff a "::",
  eq_iff b "::",
  eq_iff a "*",
  eq_iff b "*",
)

pub bind_clash_iff : (r q : Reservation) → (bind_clash r q ≡ true) ↔ Clash r q
unfolding bind_clash reservations_overlap
bind_clash_iff r q = ground (
  arith,
  ==ₙ_iff r.port q.port,
  eq_iff r.protocol q.protocol,
  addresses_overlap_iff r.address q.address,
)

pub Clash-sym : (r q : Reservation) → Clash r q → Clash q r
Clash-sym r q c = ground (arith, c)

-- No reservation clashes with one after it.
abbrev pub Apart : List Reservation → Type 0
Apart [] = Unit
Apart (r ∷ rs) = All (λ q. ¬ Clash r q) rs × Apart rs

pub clashes_with_iff :
    (conflict : Reservation → Reservation → BindConflict) (r : Reservation) (rs : List Reservation)
    → (clashes_with conflict r rs ≡ []) ↔ All (λ q. ¬ Clash r q) rs
clashes_with_iff conflict r [] = (λ e. tt, λ h. refl)
clashes_with_iff conflict r (q ∷ rs) = elim (Bool-cases (bind_clash r q)) [
  | inl e ↦ rw e (λ h. absurd (cc h), λ (n, h). absurd (n ((bind_clash_iff r q).0 e)))
  | inr e ↦ rw e (
    λ h. (λ c. absurd (cc (e, (bind_clash_iff r q).1 c)), (clashes_with_iff conflict r rs).0 h),
    λ (n, h). (clashes_with_iff conflict r rs).1 h,
  )
]

-- No conflict is detected exactly where no two of the reservations clash.
pub conflicts_of_iff : (rs : List Reservation) → (conflicts_of rs ≡ []) ↔ Apart rs
unfolding conflicts_of
conflicts_of_iff [] = (λ e. tt, λ h. refl)
conflicts_of_iff (r ∷ rs) =
    let first = clashes_with_iff exclusive_conflict r rs in
    let rest = conflicts_of_iff rs in
    (
      λ h.
          let (f, g) = (append-empty (clashes_with exclusive_conflict r rs) _).0 h in
          (first.0 f, rest.0 g),
      λ (f, g). (append-empty (clashes_with exclusive_conflict r rs) _).1 (first.1 f, rest.1 g),
    )
