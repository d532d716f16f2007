-- ===== src/Fixtures/People.antt =====
-- apps/web/src/shared/data/developmentFixtures.ts: the users, API keys and settings
-- that a new client holds.
use full_revna_like_projekt.Base.{none, some, List, [], ◌∷◌}
use full_revna_like_projekt.Base.Json.{str, end, field}
use full_revna_like_projekt.Types.Settings.{ApiKeyRecord}
use full_revna_like_projekt.Types.Settings.{SettingRecord}
use full_revna_like_projekt.Types.Squads.{SquadRecord}
use full_revna_like_projekt.Types.Users.{UserRecord}

abbrev pub user_records : List UserRecord
user_records =
    record {
      created_at = "2026-05-27T00:00:00Z";
      device_limit = (some 5);
      display_name = (some "Mira Volkova");
      email = "mira@lumen.local";
      expires_at = (some "2026-08-31T00:00:00Z");
      id = "usr_mira";
      metadata_json = end;
      role = "owner";
      status = "active";
      tags = ("owner" ∷ []);
      telegram_id = none;
      traffic_limit_gb = (some 300);
      traffic_used_gb = 184;
      updated_at = "2026-05-27T00:00:00Z";
      username = (some "mira");
      password = none;
    }
    ∷ record {
      created_at = "2026-05-27T00:00:00Z";
      device_limit = (some 2);
      display_name = (some "Nikolai Orlov");
      email = "nikolai@lumen.local";
      expires_at = (some "2026-06-15T00:00:00Z");
      id = "usr_nikolai";
      metadata_json = end;
      role = "admin";
      status = "limited";
      tags = ("grace" ∷ []);
      telegram_id = none;
      traffic_limit_gb = (some 500);
      traffic_used_gb = 512;
      updated_at = "2026-05-27T00:00:00Z";
      username = (some "nikolai");
      password = none;
    }
    ∷ record {
      created_at = "2026-05-27T00:00:00Z";
      device_limit = (some 1);
      display_name = (some "Beta Squad Relay");
      email = "beta-relay@lumen.local";
      expires_at = (some "2026-07-01T00:00:00Z");
      id = "usr_beta_relay";
      metadata_json = end;
      role = "user";
      status = "active";
      tags = ("trial" ∷ []);
      telegram_id = none;
      traffic_limit_gb = (some 100);
      traffic_used_gb = 48;
      updated_at = "2026-05-27T00:00:00Z";
      username = (some "beta-relay");
      password = none;
    }
    ∷ []

abbrev pub api_key_records : List ApiKeyRecord
api_key_records =
    record {
      created_at = "2026-05-13";
      expires_at = (some "2026-08-13");
      fingerprint = "fp_6C91_AUDIT";
      id = "key_audit_export";
      key_prefix = none;
      last_used_at = (some "2026-05-27T00:12:00Z");
      name = "Audit export worker";
      owner = "Control Plane Operator";
      owner_user_id = none;
      scopes = ("audit:read" ∷ "api-keys:read" ∷ []);
      status = "active";
    }
    ∷ record {
      created_at = "2026-04-22";
      expires_at = (some "2026-06-01");
      fingerprint = "fp_2F44_ROTATE";
      id = "key_rotation_probe";
      key_prefix = none;
      last_used_at = (some "2026-05-26T22:36:00Z");
      name = "Rotation probe";
      owner = "SRE automation";
      owner_user_id = none;
      scopes = ("nodes:read" ∷ []);
      status = "expiring";
    }
    ∷ []

abbrev pub setting_records : List SettingRecord
setting_records =
    record {
      id = (some "setting_subscription_info");
      key = "subscription.info";
      updated_at = "2026-05-27T00:00:00Z";
      updated_by = (some "usr_dev_operator");
      value_json = field "auto_update_hours" (str "2") (
          field "support_url" (str "https://t.me/lumentech_support_bot")
            (field "title" (str "LUMEN") end));
    }
    ∷ record {
      id = (some "setting_auth_providers");
      key = "auth.providers";
      updated_at = "2026-05-27T00:00:00Z";
      updated_by = (some "usr_dev_operator");
      value_json = field "generic_oauth2" (str "disabled") (
          field "github" (str "disabled") (
            field "google" (str "disabled") (
              field "passkey" (str "disabled_until_registered")
                (field "telegram" (str "disabled") end))));
    }
    ∷ []

abbrev pub squad_records : List SquadRecord
squad_records =
    record {
      id = "squad_default";
      kind = "internal";
      metadata_json = field "channel" (str "stable") (field "hwid_limit" (str "5") end);
      name = "Default-Squad";
      status = "active";
    }
    ∷ record {
      id = "squad_external_trial";
      kind = "external";
      metadata_json = field "channel" (str "trial") (field "hwid_limit" (str "2") end);
      name = "External trial";
      status = "active";
    }
    ∷ []
