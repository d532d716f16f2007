-- ===== src/Client.antt =====
-- The state of `createDevelopmentLumenApiClient` (apps/web/src/shared/api/developmentClient.ts):
-- its arrays, and the nodes of apps/web/src/shared/data/developmentFixtures.ts. An operation takes
-- the state and returns the state after it with its reply; none of them waits, so each is one step.
pub mod Initial
use full_revna_like_projekt.Base.{ℕ, String, Option, none, some, List}
pub use full_revna_like_projekt.Base.Reply.{Reply, ok, throws}
use full_revna_like_projekt.Table.{Table, Keyed}
use full_revna_like_projekt.Types.Runtime.{NodeCommandRecord}
use full_revna_like_projekt.Types.Nodes.{NodeRecord}
use full_revna_like_projekt.Types.Profiles.{ProtocolProfileRecord}
use full_revna_like_projekt.Types.Hosts.{HostRecord}
use full_revna_like_projekt.Types.Users.{UserRecord}
use full_revna_like_projekt.Types.Squads.{SquadRecord}
use full_revna_like_projekt.Types.Subscriptions.{SubscriptionRecord}
use full_revna_like_projekt.Types.Delivery.{
  SubscriptionTemplateRecord, ResponseRuleRecord, SubscriptionPageConfigRecord,
}
use full_revna_like_projekt.Types.Plugins.{NodePluginRecord}
use full_revna_like_projekt.Types.Settings.{
  SettingRecord, SettingGroupRecord, AuthProviderRecord, ApiKeyRecord, MfaMethod,
  WebAuthnCredentialRecord,
}

pub record Client : Type 0 where
  pub api_keys : Table ApiKeyRecord
  pub hosts : Table HostRecord
  pub profiles : Table ProtocolProfileRecord
  pub settings : Table SettingRecord
  pub squads : Table SquadRecord
  pub subscriptions : Table SubscriptionRecord
  pub templates : Table SubscriptionTemplateRecord
  pub response_rules : Table ResponseRuleRecord
  pub subpage_configs : Table SubscriptionPageConfigRecord
  pub node_plugins : Table NodePluginRecord
  pub node_commands : Table NodeCommandRecord
  pub mfa_methods : Table MfaMethod
  pub webauthn_credentials : Table WebAuthnCredentialRecord
  pub auth_providers : Table AuthProviderRecord
  pub users : Table UserRecord
  pub setting_groups : Table SettingGroupRecord
  pub node_records : List NodeRecord

-- `const record = array.find(…); if (!record) throw new Error(message)`, then the rest.
abbrev pub with_found {ℓ} :
    {A : Type ℓ} → Option ℕ → String → Client → (ℕ → Client × Reply A) → Client × Reply A
with_found none message c rest = (c, throws message)
with_found (some r) message c rest = rest r

-- The time of a call: `new Date().toISOString()` and the values of `Date.now()`, in the order in
-- which the call asks for them.
pub record Moment : Type 0 where
  pub iso : String
  pub first_ms : ℕ
  pub second_ms : ℕ

instance abbrev pub api_key_keyed : Keyed ApiKeyRecord
api_key_keyed = record { id = λ a. a.id }

instance abbrev pub host_keyed : Keyed HostRecord
host_keyed = record { id = λ a. a.id }

instance abbrev pub profile_keyed : Keyed ProtocolProfileRecord
profile_keyed = record { id = λ a. a.id }

-- Settings and their groups are found by their keys.
instance abbrev pub setting_keyed : Keyed SettingRecord
setting_keyed = record { id = λ a. a.key }

instance abbrev pub setting_group_keyed : Keyed SettingGroupRecord
setting_group_keyed = record { id = λ a. a.key }

instance abbrev pub squad_keyed : Keyed SquadRecord
squad_keyed = record { id = λ a. a.id }

instance abbrev pub subscription_keyed : Keyed SubscriptionRecord
subscription_keyed = record { id = λ a. a.id }

instance abbrev pub template_keyed : Keyed SubscriptionTemplateRecord
template_keyed = record { id = λ a. a.id }

instance abbrev pub response_rule_keyed : Keyed ResponseRuleRecord
response_rule_keyed = record { id = λ a. a.id }

instance abbrev pub subpage_config_keyed : Keyed SubscriptionPageConfigRecord
subpage_config_keyed = record { id = λ a. a.id }

instance abbrev pub node_plugin_keyed : Keyed NodePluginRecord
node_plugin_keyed = record { id = λ a. a.id }

instance abbrev pub mfa_method_keyed : Keyed MfaMethod
mfa_method_keyed = record { id = λ a. a.id }

instance abbrev pub webauthn_credential_keyed : Keyed WebAuthnCredentialRecord
webauthn_credential_keyed = record { id = λ a. a.id }

-- Login providers are found by their names.
instance abbrev pub auth_provider_keyed : Keyed AuthProviderRecord
auth_provider_keyed = record { id = λ a. a.provider }

instance abbrev pub user_keyed : Keyed UserRecord
user_keyed = record { id = λ a. a.id }

-- `developmentSession.userId` and `.name`
abbrev pub session_user_id : String
session_user_id = "usr_dev_operator"

abbrev pub session_name : String
session_name = "Control Plane Operator"

-- `generatedAt`
abbrev pub generated_at : String
generated_at = "2026-05-27T00:00:00Z"
