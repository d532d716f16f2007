-- ===== src/Profiles/Ports.antt =====
-- `checkPortConflicts` in apps/web/src/shared/api/developmentClient.ts.
pub mod Laws
use full_revna_like_projekt.Base.{
  ℕ, ◌+◌, String, Bool, true, false, ◌&&◌, Option, none, some, List, [], ◌∷◌, map, ◌==◌, ◌==ₙ◌,
  if◌then◌else◌, or_else, filter, any, flat_map,
}
use full_revna_like_projekt.Base.Decimal.{to_text}
use full_revna_like_projekt.Base.Json.{Json, num, str, Fields, get, nullish}
use full_revna_like_projekt.Table.{values}
use full_revna_like_projekt.Types.Profiles.{
  PortReservation, PortConflict, PortCheckRequest, PortCheckResponse, ProtocolProfileRecord,
}
use full_revna_like_projekt.Client.{Client}
use full_revna_like_projekt.Nodes.{json_is}
use full_revna_like_projekt.Profiles.Readiness.{is_empty}
use Prim.Native.String.{◌++◌}

-- `unknown === number`
abbrev pub json_is_number : Option Json → ℕ → Bool
json_is_number (some (num m)) n = m ==ₙ n
json_is_number _ n = false

abbrev pub protocol_of : PortReservation → String
protocol_of reservation = or_else reservation.protocol "tcp"

-- An existing reservation takes the port and protocol that are asked for.
unfoldable pub clashes : PortReservation → Fields → Bool
clashes reservation existing =
    json_is_number (get "port" existing) reservation.port
    && json_is (some (or_else (nullish (get "protocol" existing)) (str "tcp")))
        (protocol_of reservation)

unfoldable pub conflict : ProtocolProfileRecord → PortReservation → PortConflict
conflict profile reservation = record {
  address = or_else reservation.address "0.0.0.0";
  message =
      profile.name
      ++ " already reserves "
      ++ to_text reservation.port
      ++ "/"
      ++ protocol_of reservation;
  port = reservation.port;
  profile_id = profile.id;
  profile_name = profile.name;
  protocol = protocol_of reservation;
  suggested_port = some (reservation.port + 1);
}

unfoldable pub profile_conflicts : List PortReservation → ProtocolProfileRecord → List PortConflict
unfolding clashes conflict
profile_conflicts reservations profile =
    map (conflict profile)
      (filter (λ reservation. any (clashes reservation) profile.port_reservations) reservations)

unfoldable pub check_port_conflicts : PortCheckRequest → Client → PortCheckResponse
unfolding profile_conflicts
check_port_conflicts request c =
    let conflicts =
      flat_map (profile_conflicts request.reservations)
        (filter (λ profile. profile.node_id == request.node_id) (values c.profiles)) in
    record { allowed = is_empty conflicts; conflicts = conflicts }
