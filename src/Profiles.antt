-- ===== src/Profiles.antt =====
-- Protocol profiles in apps/web/src/shared/api/developmentClient.ts: creating, changing, removing
-- and ordering them, and the check of their ports. Children: what makes a profile ready or stale,
-- and the selection of the profiles that a node serves.
pub mod Readiness
pub mod Cleanup
pub mod Selection
pub mod Ports
use full_revna_like_projekt.Base.{
  ℕ, String, Bool, true, false, Option, none, some, List, [], ◌∷◌, ◌==◌, if◌then◌else◌, or_else,
  length, includes, map,
}
use full_revna_like_projekt.Base.Text.{slug}
use full_revna_like_projekt.Base.Json.{Json, bool, num, str, Fields, end, field, put}
use full_revna_like_projekt.Table.{
  Table, values, find_id, select, assign, assign_all, unshift, remove_id, remove_ids, reorder,
  find_all,
}
use full_revna_like_projekt.Types.Runtime.{RuntimeSyncStatus, NodeCommandCreateRequest}
use full_revna_like_projekt.Types.Profiles.{
  PortReservation, ProtocolProfileRecord, ProtocolProfileCreateRequest,
  ProtocolProfileUpdateRequest, ProfileBulkActionRequest, ProfileApplyToNodeResponse,
}
use full_revna_like_projekt.Client.{Client, Reply, ok, throws, with_found, profile_keyed}
use full_revna_like_projekt.Nodes.{queue_command, queued}
use Prim.Native.String.{◌++◌}

-- `a || b` of texts: null and the empty text are falsy.
abbrev pub or_text : Option String → String → String
or_text none b = b
or_text (some a) b = if a == "" then b else a

-- An optional field of an object literal.
abbrev option_field : String → Option Json → Fields → Fields
option_field key none rest = rest
option_field key (some v) rest = field key v rest

unfoldable pub reservation_fields : PortReservation → Fields
reservation_fields reservation = option_field "address" (some_text reservation.address) (
    option_field "exclusive" (some_bool reservation.exclusive) (
      field "port" (num reservation.port)
        (option_field "protocol" (some_text reservation.protocol) end)))
  where
    some_text : Option String → Option Json
    some_text none = none
    some_text (some s) = some (str s)

    some_bool : Option Bool → Option Json
    some_bool none = none
    some_bool (some b) = some (bool b)

unfoldable pub profile_from_request : ProtocolProfileCreateRequest → ProtocolProfileRecord
unfolding reservation_fields
profile_from_request request = record {
  adapter = request.adapter;
  config_json = or_else request.config_json end;
  credentials_ref = request.credentials_ref;
  id = "profile_" ++ slug request.name;
  metadata_json = or_else request.metadata_json end;
  name = request.name;
  node_id = request.node_id;
  port_reservations = map reservation_fields (or_else request.port_reservations []);
  runtime_sync = none;
  squad_id = request.squad_id;
  status = or_else request.status "active";
  created_at = none;
  allow_port_conflicts = none;
}

unfoldable pub create_profile :
    ProtocolProfileCreateRequest → Client → Client × Reply ProtocolProfileRecord
create_profile request c =
    let profile = profile_from_request request in
    (record c { profiles = unshift profile c.profiles }, ok profile)

-- A synchronisation status with nothing but its two required fields.
abbrev pub sync_status : Bool → String → RuntimeSyncStatus
sync_status pending status = record {
  applied_command_id = none;
  changed_at = none;
  changed_fields = none;
  error_code = none;
  error_message = none;
  failed_command_id = none;
  host_id = none;
  last_applied_at = none;
  last_apply_queued_at = none;
  last_command_id = none;
  last_failed_at = none;
  node_id = none;
  pending_apply = pending;
  profile_id = none;
  reason = none;
  status = status;
}

-- The payload `{ adapter: profile.adapter, profileId: profile.id }`.
abbrev pub apply_payload : ProtocolProfileRecord → Fields
apply_payload profile =
    field "adapter" (str profile.adapter) (field "profileId" (str profile.id) end)

unfoldable pub apply_profile_to_node :
    String → String → Client → Client × Reply ProfileApplyToNodeResponse
unfolding queue_command queued
apply_profile_to_node now profile_id c =
    with_found (find_id profile_id c.profiles) ("Profile " ++ profile_id ++ " was not found") c λ r.
      let profile = c.profiles.store r in
      let request : NodeCommandCreateRequest = record {
        command_type = "outbound.apply";
        payload_json = some (apply_payload profile);
      } in
      let command = queued now profile.node_id request c.node_commands in
      let sync = record (sync_status true "apply_queued") {
        last_apply_queued_at = some command.created_at;
        last_command_id = some command.id;
        node_id = some profile.node_id;
        profile_id = some profile.id;
      } in
      (
        record c {
          profiles = assign r (λ p. record p { runtime_sync = some sync }) c.profiles;
          node_commands = queue_command now profile.node_id request c.node_commands;
        },
        ok (record {
          adapter = profile.adapter;
          command_id = command.id;
          command_type = command.command_type;
          node_id = command.node_id;
          status = command.status;
        }),
      )

unfoldable pub delete_profile : String → Client → Client
delete_profile profile_id c = record c { profiles = remove_id profile_id c.profiles }

unfoldable pub get_profile : String → Client → Reply ProtocolProfileRecord
get_profile profile_id c = elim (find_id profile_id c.profiles) [
  | none ↦ throws "Profile not found"
  | some r ↦ ok (c.profiles.store r)
]

-- `Object.assign(profile, request)`
unfoldable pub assign_profile :
    ProtocolProfileUpdateRequest → ProtocolProfileRecord → ProtocolProfileRecord
unfolding reservation_fields
assign_profile request p = record p {
  adapter = or_else request.adapter p.adapter;
  config_json = or_else request.config_json p.config_json;
  credentials_ref = or_else request.credentials_ref p.credentials_ref;
  metadata_json = or_else request.metadata_json p.metadata_json;
  name = or_else request.name p.name;
  node_id = or_else request.node_id p.node_id;
  port_reservations = elim request.port_reservations [
    | none ↦ p.port_reservations
    | some rs ↦ map reservation_fields rs
  ];
  squad_id = or_else request.squad_id p.squad_id;
  status = or_else request.status p.status;
  allow_port_conflicts = elim request.allow_port_conflicts [
    | none ↦ p.allow_port_conflicts
    | some b ↦ some b
  ];
}

unfoldable pub update_profile :
    String → ProtocolProfileUpdateRequest → Client → Client × Reply ProtocolProfileRecord
unfolding assign_profile
update_profile profile_id request c =
    with_found (find_id profile_id c.profiles) "Profile not found" c λ r.
      let profiles = assign r (assign_profile request) c.profiles in
      (record c { profiles = profiles }, ok (profiles.store r))

unfoldable pub bulk_profiles : String → ProfileBulkActionRequest → Client → Client × Reply ℕ
bulk_profiles action request c =
    let selected = select (λ p. includes p.id request.ids) c.profiles in
    let ids = map (λ r. (c.profiles.store r).id) selected in
    let set_status =
      λ (p : ProtocolProfileRecord). record p { status = or_text request.status p.status } in
    let profiles =
      if action == "delete"
      then remove_ids ids c.profiles
      else if action == "status"
      then assign_all selected set_status c.profiles
      else c.profiles in
    (record c { profiles = profiles }, ok (length selected))

unfoldable pub reorder_profiles : List String → Client → Client × Reply ℕ
reorder_profiles ids c = (
  record c {
    profiles =
        reorder (λ n p. record p { metadata_json = put "order" (num n) p.metadata_json }) ids
          c.profiles;
  },
  ok (length (find_all ids c.profiles)),
)
