-- ===== src/Fixtures/Catalog.antt =====
-- apps/web/src/shared/api/developmentClient.ts: the login providers, setting groups and second factors
-- that a new client holds.
use full_revna_like_projekt.Base.{none, some, List, [], ◌∷◌, true, false}
use full_revna_like_projekt.Base.Json.{bool, num, str, obj, end, field}
use full_revna_like_projekt.Base.Json.{null}
use full_revna_like_projekt.Types.Settings.{AuthProviderRecord}
use full_revna_like_projekt.Types.Settings.{MfaMethod}
use full_revna_like_projekt.Types.Settings.{SettingGroupRecord}

abbrev pub auth_providers : List AuthProviderRecord
auth_providers =
    record {
      display_name = "Password";
      enabled = true;
      metadata_json = field "mfa_required" (bool true) end;
      provider = "password";
      scopes = ("admin:login" ∷ []);
      status = "active";
    }
    ∷ record {
      display_name = "Passkey";
      enabled = false;
      metadata_json = field "webauthn" (str "disabled_until_registered") end;
      provider = "passkey";
      scopes = ("admin:login" ∷ []);
      status = "unimplemented";
    }
    ∷ record {
      display_name = "Telegram";
      enabled = false;
      metadata_json = field "bot_binding" (str "disabled_until_callback_implemented") end;
      provider = "telegram";
      scopes = ("admin:login" ∷ []);
      status = "unimplemented";
    }
    ∷ record {
      display_name = "GitHub";
      enabled = false;
      metadata_json = end;
      provider = "github";
      scopes = ("read:user" ∷ "user:email" ∷ []);
      status = "unimplemented";
    }
    ∷ record {
      display_name = "Google";
      enabled = false;
      metadata_json = end;
      provider = "google";
      scopes = ("openid" ∷ "email" ∷ "profile" ∷ []);
      status = "unimplemented";
    }
    ∷ record {
      display_name = "Pocket ID";
      enabled = false;
      metadata_json = end;
      provider = "pocketid";
      scopes = ("openid" ∷ "email" ∷ "profile" ∷ []);
      status = "unimplemented";
    }
    ∷ record {
      display_name = "Keycloak";
      enabled = false;
      metadata_json = end;
      provider = "keycloak";
      scopes = ("openid" ∷ "email" ∷ "profile" ∷ []);
      status = "unimplemented";
    }
    ∷ record {
      display_name = "Generic OAuth2";
      enabled = false;
      metadata_json = end;
      provider = "generic_oauth2";
      scopes = ("openid" ∷ "email" ∷ "profile" ∷ []);
      status = "unimplemented";
    }
    ∷ []

abbrev pub setting_groups : List SettingGroupRecord
setting_groups =
    record {
      key = "panel.identity";
      title = "Panel identity";
      description = "Product name, documentation links and default locale exposed in the panel.";
      value_json = field "default_locale" (str "ru") (
          field "docs_url" null
            (field "product_name" (str "Lumen") (field "support_url" null end)));
      updated_by = none;
      updated_at = none;
    }
    ∷ record {
      key = "subscription.delivery";
      title = "Subscription delivery";
      description = "Client-facing subscription presentation and update behavior.";
      value_json = field "base_json" (obj end) (
          field "custom_remarks" (obj end) (
            field "happ_announce" null (
              field "profile_page_url" null (
                field "random_host_order" (bool false) (
                  field "response_headers" (obj end) (
                    field "routing" (obj end) (
                      field "subpage" (obj end) (
                        field "support_url" null (
                          field "title" (str "Lumen VPN")
                            (field "update_interval_hours" (num 2) end))))))))));
      updated_by = none;
      updated_at = none;
    }
    ∷ record {
      key = "security.policy";
      title = "Security policy";
      description = "Panel-wide MFA, API key and session lifetime policy.";
      value_json =
          field "api_key_max_ttl_days" (num 90) (
            field "require_mfa_for_admins" (bool false)
              (field "session_ttl_minutes" (num 720) end));
      updated_by = none;
      updated_at = none;
    }
    ∷ record {
      key = "node.defaults";
      title = "Node defaults";
      description = "Default node runtime intervals and operational retention windows.";
      value_json = field "command_poll_interval_seconds" (num 30) (
          field "default_region" (str "global") (
            field "heartbeat_interval_seconds" (num 30)
              (field "runtime_metrics_retention_days" (num 30) end)));
      updated_by = none;
      updated_at = none;
    }
    ∷ []

abbrev pub mfa_methods : List MfaMethod
mfa_methods =
    record {
      confirmed_at = (some "2026-05-27T00:00:00Z");
      id = "dev-mfa-method";
      kind = "totp";
      label = "Development authenticator";
      last_used_at = none;
      status = "active";
    }
    ∷ []
