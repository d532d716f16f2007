-- ===== src/History/Frame.antt =====
-- The calls that leave the commands, the subscriptions, the settings and the users alone.
use full_revna_like_projekt.Base.{
  ℕ, String, ◌≡◌, refl, sym, subst, inl, inr, ◌==ₙ◌, length, filter, includes, if-cases, Bool-cases,
  Option-cases,
}
use full_revna_like_projekt.Table.{find_id}
use full_revna_like_projekt.Table.Laws.{Allocated}
use full_revna_like_projekt.Table.Upkeep.{Tidy}
use full_revna_like_projekt.Nodes.Laws.{Numbered}
use full_revna_like_projekt.Types.Settings.{AuthProviderUpdateRequest}
use full_revna_like_projekt.Types.Hosts.{HostUpdateRequest}
use full_revna_like_projekt.Types.Plugins.{NodePluginCloneRequest, NodePluginUpdateRequest}
use full_revna_like_projekt.Types.Profiles.{
  ProtocolProfileUpdateRequest, StaleProfileCleanupRequest,
}
use full_revna_like_projekt.Types.Delivery.{
  ResponseRuleUpdateRequest, SubscriptionPageConfigCloneRequest,
  SubscriptionPageConfigUpdateRequest, SubscriptionTemplateUpdateRequest,
}
use full_revna_like_projekt.Types.Squads.{SquadUpdateRequest, SquadUserMutationRequest}
use full_revna_like_projekt.Client.{
  Client, Moment, throws, Reply, api_key_keyed, host_keyed, profile_keyed, squad_keyed,
  template_keyed, response_rule_keyed, subpage_config_keyed, node_plugin_keyed, auth_provider_keyed,
}
use full_revna_like_projekt.Delivery.Pages.{
  update_subscription_page_config, clone_subscription_page_config,
}
use full_revna_like_projekt.Delivery.Rules.{update_response_rule}
use full_revna_like_projekt.Delivery.Templates.{update_subscription_template}
use full_revna_like_projekt.Hosts.{update_host}
use full_revna_like_projekt.Plugins.{update_node_plugin, clone_node_plugin}
use full_revna_like_projekt.Profiles.{update_profile}
use full_revna_like_projekt.Squads.{update_squad, add_squad_users, remove_squad_users}
use full_revna_like_projekt.Settings.Credentials.{revoke_api_key}
use full_revna_like_projekt.Settings.{update_auth_provider}
use full_revna_like_projekt.Profiles.Cleanup.{cleanup_stale_profiles, allowed_ids}
use full_revna_like_projekt.Settings.Laws.{refused}

abbrev pub Frame : Client → Client → Type 0
Frame c d =
    (d.node_commands ≡ c.node_commands)
    × (d.subscriptions ≡ c.subscriptions)
    × (d.settings ≡ c.settings)
    × (d.users ≡ c.users)

-- What the theorems on the commands, the subscriptions, the settings and the users ask of a client.
pub record Sound (c : Client) : Type 0 where
  pub commands : Numbered c.node_commands
  pub subscriptions : Allocated c.subscriptions
  pub settings : Allocated c.settings
  pub users : Tidy c.users

pub framed : (c d : Client) → Sound c → Frame c d → Sound d
framed c d v (commands, subscriptions, settings, users) = record {
  commands = subst Numbered (sym commands) v.commands;
  subscriptions = subst Allocated (sym subscriptions) v.subscriptions;
  settings = subst Allocated (sym settings) v.settings;
  users = subst Tidy (sym users) v.users;
}

pub with_commands :
    (c d : Client)
    → Sound c
    → Numbered d.node_commands
    → d.subscriptions ≡ c.subscriptions
    → d.settings ≡ c.settings
    → d.users ≡ c.users
    → Sound d
with_commands c d v new same_subscriptions same_settings same_users = record {
  commands = new;
  subscriptions = subst Allocated (sym same_subscriptions) v.subscriptions;
  settings = subst Allocated (sym same_settings) v.settings;
  users = subst Tidy (sym same_users) v.users;
}

pub with_subscriptions :
    (c d : Client)
    → Sound c
    → Allocated d.subscriptions
    → d.node_commands ≡ c.node_commands
    → d.settings ≡ c.settings
    → d.users ≡ c.users
    → Sound d
with_subscriptions c d v new same_commands same_settings same_users = record {
  commands = subst Numbered (sym same_commands) v.commands;
  subscriptions = new;
  settings = subst Allocated (sym same_settings) v.settings;
  users = subst Tidy (sym same_users) v.users;
}

pub with_settings :
    (c d : Client)
    → Sound c
    → Allocated d.settings
    → d.node_commands ≡ c.node_commands
    → d.subscriptions ≡ c.subscriptions
    → d.users ≡ c.users
    → Sound d
with_settings c d v new same_commands same_subscriptions same_users = record {
  commands = subst Numbered (sym same_commands) v.commands;
  subscriptions = subst Allocated (sym same_subscriptions) v.subscriptions;
  settings = new;
  users = subst Tidy (sym same_users) v.users;
}

pub with_users :
    (c d : Client)
    → Sound c
    → Tidy d.users
    → d.node_commands ≡ c.node_commands
    → d.subscriptions ≡ c.subscriptions
    → d.settings ≡ c.settings
    → Sound d
with_users c d v new same_commands same_subscriptions same_settings = record {
  commands = subst Numbered (sym same_commands) v.commands;
  subscriptions = subst Allocated (sym same_subscriptions) v.subscriptions;
  settings = subst Allocated (sym same_settings) v.settings;
  users = new;
}

pub update_subscription_page_config-Frame :
    (s : String) (request : SubscriptionPageConfigUpdateRequest) (c : Client)
    → Frame c (update_subscription_page_config s request c).0
unfolding update_subscription_page_config
update_subscription_page_config-Frame s request c =
    elim (Option-cases (find_id s c.subpage_configs)) [
      | inl missing ↦ rw (missing, update_subscription_page_config) (refl, refl, refl, refl)
      | inr (r, found) ↦ rw (found, update_subscription_page_config) (refl, refl, refl, refl)
    ]

pub clone_subscription_page_config-Frame :
    (m : Moment) (s : String) (request : SubscriptionPageConfigCloneRequest) (c : Client)
    → Frame c (clone_subscription_page_config m s request c).0
unfolding clone_subscription_page_config
clone_subscription_page_config-Frame m s request c =
    elim (Option-cases (find_id s c.subpage_configs)) [
      | inl missing ↦ rw (missing, clone_subscription_page_config) (refl, refl, refl, refl)
      | inr (r, found) ↦ rw (found, clone_subscription_page_config) (refl, refl, refl, refl)
    ]

pub update_response_rule-Frame :
    (s : String) (request : ResponseRuleUpdateRequest) (c : Client)
    → Frame c (update_response_rule s request c).0
unfolding update_response_rule
update_response_rule-Frame s request c = elim (Option-cases (find_id s c.response_rules)) [
  | inl missing ↦ rw (missing, update_response_rule) (refl, refl, refl, refl)
  | inr (r, found) ↦ rw (found, update_response_rule) (refl, refl, refl, refl)
]

pub update_subscription_template-Frame :
    (s : String) (request : SubscriptionTemplateUpdateRequest) (c : Client)
    → Frame c (update_subscription_template s request c).0
unfolding update_subscription_template
update_subscription_template-Frame s request c = elim (Option-cases (find_id s c.templates)) [
  | inl missing ↦ rw (missing, update_subscription_template) (refl, refl, refl, refl)
  | inr (r, found) ↦ rw (found, update_subscription_template) (refl, refl, refl, refl)
]

pub update_host-Frame :
    (s : String) (request : HostUpdateRequest) (c : Client) → Frame c (update_host s request c).0
unfolding update_host
update_host-Frame s request c = elim (Option-cases (find_id s c.hosts)) [
  | inl missing ↦ rw (missing, update_host) (refl, refl, refl, refl)
  | inr (r, found) ↦ rw (found, update_host) (refl, refl, refl, refl)
]

pub update_node_plugin-Frame :
    (s : String) (s2 : String) (request : NodePluginUpdateRequest) (c : Client)
    → Frame c (update_node_plugin s s2 request c).0
unfolding update_node_plugin
update_node_plugin-Frame s s2 request c = elim (Option-cases (find_id s2 c.node_plugins)) [
  | inl missing ↦ rw (missing, update_node_plugin) (refl, refl, refl, refl)
  | inr (r, found) ↦ rw (found, update_node_plugin) (refl, refl, refl, refl)
]

pub clone_node_plugin-Frame :
    (m : Moment) (s : String) (request : NodePluginCloneRequest) (c : Client)
    → Frame c (clone_node_plugin m s request c).0
unfolding clone_node_plugin
clone_node_plugin-Frame m s request c = elim (Option-cases (find_id s c.node_plugins)) [
  | inl missing ↦ rw (missing, clone_node_plugin) (refl, refl, refl, refl)
  | inr (r, found) ↦ rw (found, clone_node_plugin) (refl, refl, refl, refl)
]

pub update_profile-Frame :
    (s : String) (request : ProtocolProfileUpdateRequest) (c : Client)
    → Frame c (update_profile s request c).0
unfolding update_profile
update_profile-Frame s request c = elim (Option-cases (find_id s c.profiles)) [
  | inl missing ↦ rw (missing, update_profile) (refl, refl, refl, refl)
  | inr (r, found) ↦ rw (found, update_profile) (refl, refl, refl, refl)
]

pub update_squad-Frame :
    (s : String) (request : SquadUpdateRequest) (c : Client) → Frame c (update_squad s request c).0
unfolding update_squad
update_squad-Frame s request c = elim (Option-cases (find_id s c.squads)) [
  | inl missing ↦ rw (missing, update_squad) (refl, refl, refl, refl)
  | inr (r, found) ↦ rw (found, update_squad) (refl, refl, refl, refl)
]

pub add_squad_users-Frame :
    (s : String) (request : SquadUserMutationRequest) (c : Client)
    → Frame c (add_squad_users s request c).0
unfolding add_squad_users
add_squad_users-Frame s request c = elim (Option-cases (find_id s c.squads)) [
  | inl missing ↦ rw (missing, add_squad_users) (refl, refl, refl, refl)
  | inr (r, found) ↦ rw (found, add_squad_users) (refl, refl, refl, refl)
]

pub remove_squad_users-Frame :
    (s : String) (request : SquadUserMutationRequest) (c : Client)
    → Frame c (remove_squad_users s request c).0
unfolding remove_squad_users
remove_squad_users-Frame s request c = elim (Option-cases (find_id s c.squads)) [
  | inl missing ↦ rw (missing, remove_squad_users) (refl, refl, refl, refl)
  | inr (r, found) ↦ rw (found, remove_squad_users) (refl, refl, refl, refl)
]

pub revoke_api_key-Frame : (s : String) (c : Client) → Frame c (revoke_api_key s c)
unfolding revoke_api_key
revoke_api_key-Frame s c = elim (Option-cases (find_id s c.api_keys)) [
  | inl missing ↦ rw (missing, revoke_api_key) (refl, refl, refl, refl)
  | inr (r, found) ↦ rw (found, revoke_api_key) (refl, refl, refl, refl)
]

pub update_auth_provider-Frame :
    (s : String) (request : AuthProviderUpdateRequest) (c : Client)
    → Frame c (update_auth_provider s request c).0
unfolding update_auth_provider
update_auth_provider-Frame s request c = elim (Option-cases (find_id s c.auth_providers)) [
  | inl missing ↦ rw (missing, update_auth_provider) (refl, refl, refl, refl)
  | inr (r, found) ↦ elim (Bool-cases (refused request (c.auth_providers.store r))) [
    | inl refuses ↦ rw (found, update_auth_provider, refuses) (refl, refl, refl, refl)
    | inr accepts ↦ rw (found, update_auth_provider, accepts) (refl, refl, refl, refl)
  ]
]

pub cleanup_stale_profiles-Frame :
    (request : StaleProfileCleanupRequest) (c : Client)
    → Frame c (cleanup_stale_profiles request c).0
unfolding cleanup_stale_profiles
cleanup_stale_profiles-Frame request c =
    if-cases (λ (out : Client × Reply ℕ). Frame c out.0)
      (length (filter (λ i. includes i (allowed_ids c)) request.ids) ==ₙ length request.ids) _
      (c, throws "Only stale profiles can be cleaned up") (λ _. (refl, refl, refl, refl))
      (λ _. (refl, refl, refl, refl))
