-- ===== src/Client/Initial.antt =====
-- The first state of `createDevelopmentLumenApiClient`
-- (apps/web/src/shared/api/developmentClient.ts). The `unused_` records stand behind references
-- that no array holds yet.
use full_revna_like_projekt.Base.{none, [], false}
use full_revna_like_projekt.Base.Json.{end}
use full_revna_like_projekt.Table.{table_of}
use full_revna_like_projekt.Fixtures.Catalog
use full_revna_like_projekt.Fixtures.People.{
  user_records, api_key_records, setting_records, squad_records,
}
use full_revna_like_projekt.Fixtures.Network.{
  node_records, profile_records, host_records, subscription_records,
}
use full_revna_like_projekt.Client.{Client}
use full_revna_like_projekt.Types.Delivery.{
  SubscriptionTemplateRecord, ResponseRuleRecord, SubscriptionPageConfigRecord,
}
use full_revna_like_projekt.Types.Hosts.{HostRecord}
use full_revna_like_projekt.Types.Plugins.{NodePluginRecord}
use full_revna_like_projekt.Types.Profiles.{ProtocolProfileRecord}
use full_revna_like_projekt.Types.Runtime.{NodeCommandRecord}
use full_revna_like_projekt.Types.Settings.{
  WebAuthnCredentialRecord, ApiKeyRecord, SettingRecord, AuthProviderRecord, SettingGroupRecord,
  MfaMethod,
}
use full_revna_like_projekt.Types.Squads.{SquadRecord}
use full_revna_like_projekt.Types.Subscriptions.{SubscriptionRecord}
use full_revna_like_projekt.Types.Users.{UserRecord}

abbrev unused_api_key : ApiKeyRecord
unused_api_key = record {
  created_at = "";
  expires_at = none;
  fingerprint = "";
  id = "";
  key_prefix = none;
  last_used_at = none;
  name = "";
  owner = "";
  owner_user_id = none;
  scopes = [];
  status = "";
}

abbrev unused_host : HostRecord
unused_host = record {
  address = none;
  excluded_internal_squad_ids = [];
  final_mask = none;
  hidden = false;
  hostname = "";
  id = "";
  inbound_tag = none;
  metadata_json = end;
  mihomo_x25519_public_key = none;
  mux_json = end;
  name = "";
  node_id = "";
  path = none;
  port = none;
  protocol_profile_id = none;
  remark = none;
  runtime_sync = none;
  security = none;
  shuffle_host = false;
  sni = none;
  sockopt_json = end;
  squad_id = none;
  status = "";
  subscription_excluded = false;
  tags = [];
  xhttp_json = end;
  xray_template_json = end;
}

abbrev unused_profile : ProtocolProfileRecord
unused_profile = record {
  adapter = "";
  config_json = end;
  credentials_ref = none;
  id = "";
  metadata_json = end;
  name = "";
  node_id = "";
  port_reservations = [];
  runtime_sync = none;
  squad_id = none;
  status = "";
  created_at = none;
  allow_port_conflicts = none;
}

abbrev unused_setting : SettingRecord
unused_setting = record {
  id = none;
  key = "";
  updated_at = "";
  updated_by = none;
  value_json = end;
}

abbrev unused_squad : SquadRecord
unused_squad = record { id = ""; kind = ""; metadata_json = end; name = ""; status = "" }

abbrev unused_subscription : SubscriptionRecord
unused_subscription = record {
  config_hash = none;
  created_at = "";
  delivery_profile = [];
  expires_at = none;
  id = "";
  node_id = none;
  public_id = "";
  public_manifest_url = "";
  public_page_url = "";
  public_render_url = "";
  public_render_urls = [];
  render_formats = [];
  revoked_at = none;
  status = "";
  updated_at = "";
  user_id = "";
}

abbrev unused_template : SubscriptionTemplateRecord
unused_template = record {
  content_json = end;
  format = "";
  id = "";
  name = "";
  order = none;
  status = "";
}

abbrev unused_response_rule : ResponseRuleRecord
unused_response_rule = record {
  body = "";
  enabled = false;
  headers = [];
  id = "";
  name = "";
  order = none;
  status_code = 0;
  trigger_status = "";
}

abbrev unused_subpage_config : SubscriptionPageConfigRecord
unused_subpage_config = record { config_json = end; id = ""; name = ""; order = none; status = "" }

abbrev unused_node_plugin : NodePluginRecord
unused_node_plugin = record {
  id = "";
  node_id = none;
  kind = "";
  name = "";
  config_json = end;
  enabled = false;
  sort_order = none;
  created_at = "";
  updated_at = "";
}

abbrev unused_node_command : NodeCommandRecord
unused_node_command = record {
  claimed_at = none;
  command_type = "";
  completed_at = none;
  created_at = "";
  error_code = none;
  error_message = none;
  id = "";
  node_id = "";
  payload_json = end;
  result_json = none;
  status = "";
  updated_at = "";
}

abbrev unused_mfa_method : MfaMethod
unused_mfa_method = record {
  confirmed_at = none;
  id = "";
  kind = "";
  label = "";
  last_used_at = none;
  status = "";
}

abbrev unused_webauthn_credential : WebAuthnCredentialRecord
unused_webauthn_credential = record {
  id = "";
  label = none;
  aaguid = none;
  transports = [];
  sign_count = 0;
  last_used_at = none;
  created_at = "";
}

abbrev unused_auth_provider : AuthProviderRecord
unused_auth_provider = record {
  display_name = "";
  enabled = false;
  metadata_json = end;
  provider = "";
  scopes = [];
  status = "";
}

abbrev unused_user : UserRecord
unused_user = record {
  created_at = "";
  device_limit = none;
  display_name = none;
  email = "";
  expires_at = none;
  id = "";
  metadata_json = end;
  role = "";
  status = "";
  tags = [];
  telegram_id = none;
  traffic_limit_gb = none;
  traffic_used_gb = 0;
  updated_at = "";
  username = none;
  password = none;
}

abbrev unused_setting_group : SettingGroupRecord
unused_setting_group = record {
  key = "";
  title = "";
  description = "";
  value_json = end;
  updated_by = none;
  updated_at = none;
}

abbrev pub initial : Client
initial = record {
  api_keys = table_of unused_api_key api_key_records;
  hosts = table_of unused_host host_records;
  profiles = table_of unused_profile profile_records;
  settings = table_of unused_setting setting_records;
  squads = table_of unused_squad squad_records;
  subscriptions = table_of unused_subscription subscription_records;
  templates = table_of unused_template [];
  response_rules = table_of unused_response_rule [];
  subpage_configs = table_of unused_subpage_config [];
  node_plugins = table_of unused_node_plugin [];
  node_commands = table_of unused_node_command [];
  mfa_methods = table_of unused_mfa_method Catalog.mfa_methods;
  webauthn_credentials = table_of unused_webauthn_credential [];
  auth_providers = table_of unused_auth_provider Catalog.auth_providers;
  users = table_of unused_user user_records;
  setting_groups = table_of unused_setting_group Catalog.setting_groups;
  node_records = node_records;
}
