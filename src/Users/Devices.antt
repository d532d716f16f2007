-- ===== src/Users/Devices.antt =====
-- The details of a user and the devices in its metadata
-- (apps/web/src/shared/api/developmentClient.ts).
use full_revna_like_projekt.Base.{
  String, Bool, true, false, not, ◌&&◌, none, some, List, [], ◌==◌, if◌then◌else◌, filter, any,
}
use full_revna_like_projekt.Base.Json.{
  Json, null, arr, obj, of_list, get, put, nullish, to_string, array_or_empty,
}
use full_revna_like_projekt.Table.{values, find_id, assign}
use full_revna_like_projekt.Types.Users.{UserRecord}
use full_revna_like_projekt.Types.Nodes.{NodeResponse}
use full_revna_like_projekt.Types.Subscriptions.{SubscriptionRecord}
use full_revna_like_projekt.Client.{Client, Reply, ok, throws, with_found, user_keyed}
use full_revna_like_projekt.Nodes.{as_node_list_response}

-- `UserDetailResponse`; the nodes are given whole, and the history of requests is empty.
pub record UserDetail : Type 0 where
  pub accessible_nodes : List NodeResponse
  pub devices : List Json
  pub subscriptions : List SubscriptionRecord
  pub user : UserRecord

abbrev pub devices_of : UserRecord → List Json
devices_of user = array_or_empty (get "devices" user.metadata_json)

unfoldable pub build_user_detail : UserRecord → Client → UserDetail
build_user_detail user c = record {
  accessible_nodes = as_node_list_response c;
  devices = devices_of user;
  subscriptions = filter (λ subscription. subscription.user_id == user.id) (values c.subscriptions);
  user = user;
}

unfoldable pub get_user_detail : String → Client → Reply UserDetail
unfolding build_user_detail
get_user_detail user_id c = elim (find_id user_id c.users) [
  | none ↦ throws "User not found"
  | some r ↦ ok (build_user_detail (c.users.store r) c)
]

-- `user.metadata_json = { ...user.metadata_json, devices }`
abbrev pub set_devices : List Json → UserRecord → UserRecord
set_devices devices user = record user {
  metadata_json = put "devices" (arr (of_list devices)) user.metadata_json;
}

unfoldable pub clear_user_devices : String → Client → Client × Reply UserDetail
unfolding build_user_detail
clear_user_devices user_id c = with_found (find_id user_id c.users) "User not found" c λ r.
    let c' = record c { users = assign r (set_devices []) c.users } in
    (c', ok (build_user_detail (c'.users.store r) c'))

-- `String(device[key] ?? '')`; a value that is no object has no such property.
abbrev pub device_text : String → Json → String
device_text key (obj device) = elim (nullish (get key device)) [ none ↦ "" | some v ↦ to_string v ]
device_text key _ = ""

unfoldable pub keeps_device : String → Json → Bool
keeps_device device_id device =
    not (device_text "id" device == device_id) && not (device_text "hwid" device == device_id)

abbrev pub is_null : Json → Bool
is_null null = true
is_null _ = false

-- Reading a property of `null` throws.
unfoldable pub delete_user_device : String → String → Client → Client × Reply UserDetail
unfolding build_user_detail keeps_device
delete_user_device user_id device_id c =
    with_found (find_id user_id c.users) "User not found" c λ r.
      let devices = devices_of (c.users.store r) in
      let users = assign r (set_devices (filter (keeps_device device_id) devices)) c.users in
      let c' = record c { users = users } in
      if any is_null devices
      then (c, throws "Cannot read properties of null (reading 'id')")
      else (c', ok (build_user_detail (users.store r) c'))
