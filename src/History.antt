-- ===== src/History.antt =====
-- The calls that change the state of the client in
-- apps/web/src/shared/api/developmentClient.ts, as steps, and the states that they reach.
pub mod Frame
pub mod Tracked
pub mod Laws
use full_revna_like_projekt.Base.{ℕ, String, Option, List}
use full_revna_like_projekt.Base.Json.{Fields}
use full_revna_like_projekt.Types.Settings.{ApiKeyCreateRequest, AuthProviderUpdateRequest}
use full_revna_like_projekt.Types.Runtime.{DropConnectionsRequest, NodeCommandCreateRequest}
use full_revna_like_projekt.Types.Hosts.{
  HostBulkActionRequest, HostCreateRequest, HostUpdateRequest,
}
use full_revna_like_projekt.Types.Plugins.{
  NodePluginCloneRequest, NodePluginCreateRequest, NodePluginUpdateRequest,
}
use full_revna_like_projekt.Types.Profiles.{
  ProfileBulkActionRequest, ProtocolProfileCreateRequest, ProtocolProfileUpdateRequest,
  StaleProfileCleanupRequest,
}
use full_revna_like_projekt.Types.Delivery.{
  ResponseRuleCreateRequest, ResponseRuleUpdateRequest, SubscriptionPageConfigCloneRequest,
  SubscriptionPageConfigCreateRequest, SubscriptionPageConfigUpdateRequest,
  SubscriptionTemplateCreateRequest, SubscriptionTemplateUpdateRequest,
}
use full_revna_like_projekt.Types.Squads.{
  SquadCreateRequest, SquadUpdateRequest, SquadUserMutationRequest,
}
use full_revna_like_projekt.Types.Subscriptions.{
  SubscriptionCreateRequest, SubscriptionIssueFromProfileRequest, SubscriptionUpdateRequest,
}
use full_revna_like_projekt.Types.Users.{
  UserBulkActionRequest, UserCreateRequest, UserUpdateRequest,
}
use full_revna_like_projekt.Client.{Client, Moment}
use full_revna_like_projekt.Client.Initial.{initial}
use full_revna_like_projekt.Delivery.Pages
use full_revna_like_projekt.Delivery.Rules
use full_revna_like_projekt.Delivery.Templates
use full_revna_like_projekt.Hosts
use full_revna_like_projekt.Nodes
use full_revna_like_projekt.Plugins
use full_revna_like_projekt.Profiles
use full_revna_like_projekt.Profiles.Cleanup
use full_revna_like_projekt.Profiles.Selection
use full_revna_like_projekt.Settings
use full_revna_like_projekt.Settings.Credentials
use full_revna_like_projekt.Squads
use full_revna_like_projekt.Subscriptions
use full_revna_like_projekt.Users
use full_revna_like_projekt.Users.Devices

-- One call, from the state before it to the state after it.
pub data Step : Client → Client → Type 0 where
  create_subscription_page_config :
      (m : Moment) (request : SubscriptionPageConfigCreateRequest) (c : Client)
      → Step c (Pages.create_subscription_page_config m request c).0
  delete_subscription_page_config :
      (s : String) (c : Client) → Step c (Pages.delete_subscription_page_config s c)
  update_subscription_page_config :
      (s : String) (request : SubscriptionPageConfigUpdateRequest) (c : Client)
      → Step c (Pages.update_subscription_page_config s request c).0
  reorder_subscription_page_configs :
      (list : List String) (c : Client) → Step c (Pages.reorder_subscription_page_configs list c).0
  clone_subscription_page_config :
      (m : Moment) (s : String) (request : SubscriptionPageConfigCloneRequest) (c : Client)
      → Step c (Pages.clone_subscription_page_config m s request c).0
  create_response_rule :
      (m : Moment) (request : ResponseRuleCreateRequest) (c : Client)
      → Step c (Rules.create_response_rule m request c).0
  delete_response_rule : (s : String) (c : Client) → Step c (Rules.delete_response_rule s c)
  update_response_rule :
      (s : String) (request : ResponseRuleUpdateRequest) (c : Client)
      → Step c (Rules.update_response_rule s request c).0
  reorder_response_rules :
      (list : List String) (c : Client) → Step c (Rules.reorder_response_rules list c).0
  create_subscription_template :
      (m : Moment) (request : SubscriptionTemplateCreateRequest) (c : Client)
      → Step c (Templates.create_subscription_template m request c).0
  delete_subscription_template :
      (s : String) (c : Client) → Step c (Templates.delete_subscription_template s c)
  update_subscription_template :
      (s : String) (request : SubscriptionTemplateUpdateRequest) (c : Client)
      → Step c (Templates.update_subscription_template s request c).0
  reorder_subscription_templates :
      (list : List String) (c : Client) → Step c (Templates.reorder_subscription_templates list c).0
  create_host : (request : HostCreateRequest) (c : Client) → Step c (Hosts.create_host request c).0
  delete_host : (s : String) (c : Client) → Step c (Hosts.delete_host s c)
  update_host :
      (s : String) (request : HostUpdateRequest) (c : Client)
      → Step c (Hosts.update_host s request c).0
  bulk_hosts :
      (s : String) (request : HostBulkActionRequest) (c : Client)
      → Step c (Hosts.bulk_hosts s request c).0
  reorder_hosts : (list : List String) (c : Client) → Step c (Hosts.reorder_hosts list c).0
  create_node_command :
      (s : String) (s2 : String) (request : NodeCommandCreateRequest) (c : Client)
      → Step c (Nodes.create_node_command s s2 request c).0
  restart_node : (s : String) (s2 : String) (c : Client) → Step c (Nodes.restart_node s s2 c).0
  restart_all_nodes : (s : String) (c : Client) → Step c (Nodes.restart_all_nodes s c).0
  reset_node_traffic :
      (s : String) (s2 : String) (c : Client) → Step c (Nodes.reset_node_traffic s s2 c).0
  drop_connections :
      (s : String) (request : DropConnectionsRequest) (c : Client)
      → Step c (Nodes.drop_connections s request c).0
  create_node_plugin :
      (m : Moment) (request : NodePluginCreateRequest) (c : Client)
      → Step c (Plugins.create_node_plugin m request c).0
  clone_node_plugin :
      (m : Moment) (s : String) (request : NodePluginCloneRequest) (c : Client)
      → Step c (Plugins.clone_node_plugin m s request c).0
  reorder_node_plugins :
      (s : String) (items : List (String × ℕ)) (c : Client)
      → Step c (Plugins.reorder_node_plugins s items c).0
  update_node_plugin :
      (s : String) (s2 : String) (request : NodePluginUpdateRequest) (c : Client)
      → Step c (Plugins.update_node_plugin s s2 request c).0
  delete_node_plugin : (s : String) (c : Client) → Step c (Plugins.delete_node_plugin s c)
  create_profile :
      (request : ProtocolProfileCreateRequest) (c : Client)
      → Step c (Profiles.create_profile request c).0
  apply_profile_to_node :
      (s : String) (s2 : String) (c : Client) → Step c (Profiles.apply_profile_to_node s s2 c).0
  delete_profile : (s : String) (c : Client) → Step c (Profiles.delete_profile s c)
  update_profile :
      (s : String) (request : ProtocolProfileUpdateRequest) (c : Client)
      → Step c (Profiles.update_profile s request c).0
  bulk_profiles :
      (s : String) (request : ProfileBulkActionRequest) (c : Client)
      → Step c (Profiles.bulk_profiles s request c).0
  reorder_profiles : (list : List String) (c : Client) → Step c (Profiles.reorder_profiles list c).0
  cleanup_stale_profiles :
      (request : StaleProfileCleanupRequest) (c : Client)
      → Step c (Cleanup.cleanup_stale_profiles request c).0
  update_node_protocol_selection :
      (s : String) (s2 : String) (list : List String) (c : Client)
      → Step c (Selection.update_node_protocol_selection s s2 list c).0
  update_setting :
      (s : String) (s2 : String) (value_json : Fields) (c : Client)
      → Step c (Settings.update_setting s s2 value_json c).0
  update_setting_group :
      (s : String) (s2 : String) (value_json : Fields) (c : Client)
      → Step c (Settings.update_setting_group s s2 value_json c).0
  update_auth_provider :
      (s : String) (request : AuthProviderUpdateRequest) (c : Client)
      → Step c (Settings.update_auth_provider s request c).0
  create_api_key :
      (request : ApiKeyCreateRequest) (c : Client) → Step c (Credentials.create_api_key request c).0
  revoke_api_key : (s : String) (c : Client) → Step c (Credentials.revoke_api_key s c)
  verify_totp_setup :
      (s : String) (s2 : String) (c : Client) → Step c (Credentials.verify_totp_setup s s2 c).0
  delete_mfa_method : (s : String) (c : Client) → Step c (Credentials.delete_mfa_method s c)
  webauthn_register_verify :
      (m : Moment) (label : Option String) (c : Client)
      → Step c (Credentials.webauthn_register_verify m label c).0
  delete_webauthn_credential :
      (s : String) (c : Client) → Step c (Credentials.delete_webauthn_credential s c)
  create_squad :
      (request : SquadCreateRequest) (c : Client) → Step c (Squads.create_squad request c).0
  delete_squad : (s : String) (c : Client) → Step c (Squads.delete_squad s c)
  update_squad :
      (s : String) (request : SquadUpdateRequest) (c : Client)
      → Step c (Squads.update_squad s request c).0
  add_squad_users :
      (s : String) (request : SquadUserMutationRequest) (c : Client)
      → Step c (Squads.add_squad_users s request c).0
  remove_squad_users :
      (s : String) (request : SquadUserMutationRequest) (c : Client)
      → Step c (Squads.remove_squad_users s request c).0
  reorder_squads : (list : List String) (c : Client) → Step c (Squads.reorder_squads list c).0
  create_subscription :
      (m : Moment) (request : SubscriptionCreateRequest) (c : Client)
      → Step c (Subscriptions.create_subscription m request c).0
  issue_subscription_from_profile :
      (m : Moment) (request : SubscriptionIssueFromProfileRequest) (c : Client)
      → Step c (Subscriptions.issue_subscription_from_profile m request c).0
  clone_subscription :
      (m : Moment) (s : String) (c : Client) → Step c (Subscriptions.clone_subscription m s c).0
  delete_subscription : (s : String) (c : Client) → Step c (Subscriptions.delete_subscription s c)
  revoke_subscription :
      (s : String) (s2 : String) (c : Client) → Step c (Subscriptions.revoke_subscription s s2 c).0
  update_subscription :
      (s : String) (request : SubscriptionUpdateRequest) (c : Client)
      → Step c (Subscriptions.update_subscription s request c).0
  create_user :
      (s : String) (request : UserCreateRequest) (c : Client)
      → Step c (Users.create_user s request c).0
  delete_user : (s : String) (c : Client) → Step c (Users.delete_user s c)
  disable_user : (s : String) (c : Client) → Step c (Users.disable_user s c).0
  enable_user : (s : String) (c : Client) → Step c (Users.enable_user s c).0
  revoke_user : (s : String) (c : Client) → Step c (Users.revoke_user s c).0
  reset_user_traffic : (s : String) (c : Client) → Step c (Users.reset_user_traffic s c).0
  update_user :
      (s : String) (s2 : String) (request : UserUpdateRequest) (c : Client)
      → Step c (Users.update_user s s2 request c).0
  bulk_users :
      (s : String) (request : UserBulkActionRequest) (c : Client)
      → Step c (Users.bulk_users s request c).0
  clear_user_devices : (s : String) (c : Client) → Step c (Devices.clear_user_devices s c).0
  delete_user_device :
      (s : String) (s2 : String) (c : Client) → Step c (Devices.delete_user_device s s2 c).0

-- The states that a new client can be in after any number of calls, one after the other.
pub data Reachable : Client → Type 0 where
  start : Reachable initial
  then : {c d : Client} → Reachable c → Step c d → Reachable d
