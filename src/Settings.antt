-- ===== src/Settings.antt =====
-- Settings, setting groups and login providers, in apps/web/src/shared/api/developmentClient.ts.
-- Child: API keys and second factors.
pub mod Credentials
pub mod Laws
use full_revna_like_projekt.Base.{
  ℕ, String, Bool, true, false, ◌&&◌, Option, none, some, List, [], ◌==◌, if◌then◌else◌, or_else,
}
use full_revna_like_projekt.Base.Json.{Fields}
use full_revna_like_projekt.Table.{Table, find_id, assign, push}
use full_revna_like_projekt.Types.Settings.{
  SettingRecord, SettingGroupRecord, AuthProviderRecord, AuthProviderUpdateRequest,
}
use full_revna_like_projekt.Client.{
  Client, Reply, ok, throws, with_found, setting_keyed, setting_group_keyed, auth_provider_keyed,
  session_user_id,
}
use Prim.Native.String.{◌++◌}

-- `next` in `updateSettingValue`
unfoldable pub next_setting : String → String → Fields → Option String → SettingRecord
next_setting now key value_json existing_id = record {
  id = some (or_else existing_id ("setting_" ++ key));
  key = key;
  updated_at = now;
  updated_by = some session_user_id;
  value_json = value_json;
}

-- The setting of that key is overwritten, or pushed at the end if there is none.
unfoldable pub update_setting_value :
    String → String → Fields → Table SettingRecord → Table SettingRecord
unfolding next_setting
update_setting_value now key value_json settings = elim (find_id key settings) [
  | none ↦ push (next_setting now key value_json none) settings
  | some r ↦ assign r (λ s. next_setting now key value_json s.id) settings
]

-- The record that the call returns.
unfoldable pub updated_setting : String → String → Fields → Table SettingRecord → SettingRecord
unfolding next_setting
updated_setting now key value_json settings = elim (find_id key settings) [
  | none ↦ next_setting now key value_json none
  | some r ↦ next_setting now key value_json (settings.store r).id
]

unfoldable pub update_setting : String → String → Fields → Client → Client × Reply SettingRecord
unfolding update_setting_value updated_setting
update_setting now key value_json c = (
  record c { settings = update_setting_value now key value_json c.settings },
  ok (updated_setting now key value_json c.settings),
)

abbrev pub write_group : String → Fields → SettingGroupRecord → SettingGroupRecord
write_group now value_json group = record group {
  value_json = value_json;
  updated_at = some now;
  updated_by = some session_user_id;
}

-- The group and the setting of its key change together.
unfoldable pub update_setting_group :
    String → String → Fields → Client → Client × Reply SettingGroupRecord
unfolding update_setting_value
update_setting_group now group_key value_json c =
    with_found (find_id group_key c.setting_groups) "Setting group not found" c λ r.
      let setting_groups = assign r (write_group now value_json) c.setting_groups in
      (
        record c {
          setting_groups = setting_groups;
          settings = update_setting_value now group_key value_json c.settings;
        },
        ok (setting_groups.store r),
      )

-- `Object.assign(record, request)`
unfoldable pub assign_provider : AuthProviderUpdateRequest → AuthProviderRecord → AuthProviderRecord
assign_provider request a = record a {
  display_name = or_else request.display_name a.display_name;
  enabled = or_else request.enabled a.enabled;
  metadata_json = or_else request.metadata_json a.metadata_json;
  scopes = or_else request.scopes a.scopes;
  status = or_else request.status a.status;
}

abbrev pub is_true : Option Bool → Bool
is_true none = false
is_true (some b) = b

unfoldable pub update_auth_provider :
    String → AuthProviderUpdateRequest → Client → Client × Reply AuthProviderRecord
unfolding assign_provider
update_auth_provider provider request c =
    with_found (find_id provider c.auth_providers) "Auth provider not found" c λ r.
      let auth_providers = assign r (assign_provider request) c.auth_providers in
      if is_true request.enabled && ((c.auth_providers.store r).status == "unimplemented")
      then (c, throws "Auth provider is catalog-only until its live login callback is implemented.")
      else (record c { auth_providers = auth_providers }, ok (auth_providers.store r))
