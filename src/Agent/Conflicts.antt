-- ===== src/Agent/Conflicts.antt =====
-- The conflicts of the ports that a node is to listen on
-- (apps/node-agent/src/conflict-model.js). The functions on addresses and on overlaps are the same as
-- in packages/protocol-registry/src/port-reservations.js.
pub mod Laws
use full_revna_like_projekt.Base.{
  ℕ, String, Bool, true, false, not, ◌&&◌, Option, none, some, List, [], ◌∷◌, ◌++◌, ltb,
  if◌then◌else◌,
}
use full_revna_like_projekt.Base.Json.{Json}
use full_revna_like_projekt.Base.Reply.{Reply, ok, throws, and_then}
use full_revna_like_projekt.Registry.Ports.{
  ReservationInput, Reservation, BindConflict, assert_port, reserve, map_reply, bind_clash,
  clashes_with,
}
use full_revna_like_projekt.Agent.Capabilities.{bind_privileged_ports, has_capability}

unfoldable pub create_port_reservation : ReservationInput → Reply Reservation
unfolding assert_port
create_port_reservation input =
    and_then (assert_port input.port)
      (λ port. ok (reserve "outbound-listener" input.owner_id input port))

abbrev pub privileged_conflict : Reservation → BindConflict
privileged_conflict r = record {
  kind = "privileged_port";
  port = r.port;
  protocol = r.protocol;
  owner_ids = r.owner_id ∷ [];
  message = "Binding ports below 1024 requires bind.privileged_ports capability.";
}

abbrev pub in_use_conflict : Reservation → Reservation → BindConflict
in_use_conflict r other = record {
  kind = "port_in_use";
  port = r.port;
  protocol = r.protocol;
  owner_ids = r.owner_id ∷ other.owner_id ∷ [];
  message = "Two reservations overlap on the same address, port, and protocol.";
}

abbrev pub is_privileged : Option Json → Reservation → Bool
is_privileged report r = ltb r.port 1024 && not (has_capability report bind_privileged_ports)

-- The two loops of `detectPortConflicts`
unfoldable pub port_conflicts : Option Json → List Reservation → List BindConflict
unfolding has_capability bind_clash
port_conflicts report [] = []
port_conflicts report (r ∷ rs) =
    (if is_privileged report r then privileged_conflict r ∷ [] else [])
    ++ (clashes_with in_use_conflict r rs ++ port_conflicts report rs)

unfoldable pub detect_port_conflicts :
    List ReservationInput → Option Json → Reply (List BindConflict)
unfolding create_port_reservation map_reply port_conflicts
detect_port_conflicts reservations report =
    and_then (map_reply create_port_reservation reservations) (λ rs. ok (port_conflicts report rs))
