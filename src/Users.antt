-- ===== src/Users.antt =====
-- Users in apps/web/src/shared/api/developmentClient.ts. Children: looking users up, and their
-- devices.
pub mod Laws
pub mod Membership
pub mod Lookup
pub mod Devices
use full_revna_like_projekt.Base.{
  ℕ, String, Bool, true, false, not, ◌&&◌, ◌||◌, Option, none, some, List, [], map, ◌==◌,
  if◌then◌else◌, or_else, filter, length, includes, distinct, ◌++◌,
}
use full_revna_like_projekt.Base.Text.{slug}
use full_revna_like_projekt.Base.Int.{pos, add_clamped}
use full_revna_like_projekt.Base.Json.{end}
use full_revna_like_projekt.Table.{
  Table, values, find_id, select, assign, assign_all, unshift, remove_id, remove_ids,
}
use full_revna_like_projekt.Types.Users.{
  UserRecord, UserCreateRequest, UserUpdateRequest, UserBulkActionRequest, UserBulkActionResponse,
}
use full_revna_like_projekt.Client.{Client, Reply, ok, throws, with_found, user_keyed, squad_keyed}
use full_revna_like_projekt.Profiles.{or_text}
use full_revna_like_projekt.Squads.{member_ids, set_members}
use Prim.Native.String
use Prim.Native.String.{String}

unfoldable pub user_from_request : String → UserCreateRequest → UserRecord
user_from_request now request = record {
  created_at = now;
  device_limit = request.device_limit;
  display_name = elim request.display_name [ none ↦ request.username | some name ↦ some name ];
  email = request.email;
  expires_at = request.expires_at;
  id = String.◌++◌ "user_" (slug request.email);
  metadata_json = or_else request.metadata_json end;
  role = or_else request.role "user";
  status = or_else request.status "active";
  tags = or_else request.tags [];
  telegram_id = request.telegram_id;
  traffic_limit_gb = request.traffic_limit_gb;
  traffic_used_gb = or_else request.traffic_used_gb 0;
  updated_at = now;
  username = request.username;
  password = none;
}

unfoldable pub create_user : String → UserCreateRequest → Client → Client × Reply UserRecord
create_user now request c =
    let user = user_from_request now request in (record c { users = unshift user c.users }, ok user)

unfoldable pub delete_user : String → Client → Client
delete_user user_id c = record c { users = remove_id user_id c.users }

unfoldable pub get_user : String → Client → Reply UserRecord
get_user user_id c = elim (find_id user_id c.users) [
  | none ↦ throws "User not found"
  | some r ↦ ok (c.users.store r)
]

-- One assignment to the user that is found, and its record as the reply.
unfoldable pub change_user : (UserRecord → UserRecord) → String → Client → Client × Reply UserRecord
change_user f user_id c =
    with_found (find_id user_id c.users) "User not found" c
      λ r. let users = assign r f c.users in (record c { users = users }, ok (users.store r))

abbrev pub set_status : String → UserRecord → UserRecord
set_status status u = record u { status = status }

abbrev pub clear_traffic : UserRecord → UserRecord
clear_traffic u = record u { traffic_used_gb = 0 }

unfoldable pub disable_user : String → Client → Client × Reply UserRecord
unfolding change_user
disable_user = change_user (set_status "disabled")

unfoldable pub enable_user : String → Client → Client × Reply UserRecord
unfolding change_user
enable_user = change_user (set_status "active")

unfoldable pub revoke_user : String → Client → Client × Reply UserRecord
unfolding change_user
revoke_user = change_user (set_status "revoked")

unfoldable pub reset_user_traffic : String → Client → Client × Reply UserRecord
unfolding change_user
reset_user_traffic = change_user clear_traffic

-- `Object.assign(user, request, { updated_at: … })`
unfoldable pub assign_user : String → UserUpdateRequest → UserRecord → UserRecord
assign_user now request a = record a {
  device_limit = or_else request.device_limit a.device_limit;
  display_name = or_else request.display_name a.display_name;
  email = or_else request.email a.email;
  expires_at = or_else request.expires_at a.expires_at;
  metadata_json = or_else request.metadata_json a.metadata_json;
  role = or_else request.role a.role;
  status = or_else request.status a.status;
  tags = or_else request.tags a.tags;
  telegram_id = or_else request.telegram_id a.telegram_id;
  traffic_limit_gb = or_else request.traffic_limit_gb a.traffic_limit_gb;
  traffic_used_gb = or_else request.traffic_used_gb a.traffic_used_gb;
  username = or_else request.username a.username;
  password = elim request.password [ none ↦ a.password | some p ↦ some p ];
  updated_at = now;
}

unfoldable pub update_user :
    String → String → UserUpdateRequest → Client → Client × Reply UserRecord
unfolding change_user assign_user
update_user now user_id request = change_user (assign_user now request) user_id

-- The assignments of `bulkUsers` to one selected user.
unfoldable pub bulk_user : String → UserBulkActionRequest → UserRecord → UserRecord
bulk_user action request user = record user {
  traffic_used_gb =
      if action == "reset-traffic"
      then 0
      else if action == "traffic"
      then add_clamped user.traffic_used_gb (or_else request.traffic_delta_gb (pos 0))
      else user.traffic_used_gb;
  status =
      if action == "status"
      then or_text request.status user.status
      else if action == "revoke"
      then "revoked"
      else user.status;
  tags = if action == "tag" then or_else request.tags [] else user.tags;
  expires_at = if action == "extend" then request.expires_at else user.expires_at;
}

-- `squad-add` and `squad-remove`, on the members of a squad.
unfoldable pub bulk_members : String → List String → List String → List String
bulk_members action user_ids current =
    if action == "squad-add"
    then distinct (current ++ user_ids)
    else filter (λ user_id. not (includes user_id user_ids)) current

unfoldable pub bulk_squad : String → UserBulkActionRequest → Client → Client
unfolding bulk_members
bulk_squad action request c =
    if (action == "squad-add") || (action == "squad-remove")
    then elim (find_id (or_else request.squad_id "") c.squads) [
      | none ↦ c
      | some r ↦ if or_else request.squad_id "" == "" then c else record c {
        squads =
            assign r
              (λ squad. set_members (bulk_members action request.user_ids (member_ids squad)) squad)
              c.squads;
      }
    ]
    else c

unfoldable pub bulk_users :
    String → UserBulkActionRequest → Client → Client × Reply UserBulkActionResponse
unfolding bulk_user bulk_squad
bulk_users action request c =
    let selected = select (λ u. includes u.id request.user_ids) c.users in
    let changed = assign_all selected (bulk_user action request) c.users in
    let ids = map (λ r. (changed.store r).id) selected in
    let users = if action == "delete" then remove_ids ids changed else changed in
    (
      bulk_squad action request (record c { users = users }),
      ok (record { items = map users.store selected; updated = length selected }),
    )
