-- ===== src/Fixtures/Network.antt =====
-- apps/web/src/shared/data/developmentFixtures.ts: the nodes, profiles, hosts and subscriptions
-- that a new client holds.
use full_revna_like_projekt.Base.{none, some, List, [], ◌∷◌, true, false}
use full_revna_like_projekt.Base.Json.{bool, num, str, end, field}
use full_revna_like_projekt.Types.Hosts.{HostRecord}
use full_revna_like_projekt.Types.Nodes.{NodeRecord}
use full_revna_like_projekt.Types.Profiles.{ProtocolProfileRecord}
use full_revna_like_projekt.Types.Subscriptions.{SubscriptionRecord}

abbrev pub node_records : List NodeRecord
node_records =
    record {
      active_users = 912;
      id = "node_mow_02";
      last_seen_at = "2026-05-27T00:28:00Z";
      load_percent = 63;
      name = "moscow-edge-02";
      region = "MOW";
      status = "healthy";
      transports = ("xhttp" ∷ "grpc" ∷ []);
      version = "2026.05.2";
    }
    ∷ record {
      active_users = 641;
      id = "node_fra_01";
      last_seen_at = "2026-05-27T00:25:00Z";
      load_percent = 78;
      name = "frankfurt-relay-01";
      region = "FRA";
      status = "degraded";
      transports = ("ws" ∷ "grpc" ∷ []);
      version = "2026.04.8";
    }
    ∷ record {
      active_users = 0;
      id = "node_ams_03";
      last_seen_at = "2026-05-26T22:02:00Z";
      load_percent = 0;
      name = "amsterdam-drain-03";
      region = "AMS";
      status = "offline";
      transports = ("xhttp" ∷ []);
      version = "2026.04.8";
    }
    ∷ []

abbrev pub profile_records : List ProtocolProfileRecord
profile_records =
    record {
      adapter = "vless";
      config_json =
          field "flow" (str "xtls-rprx-vision")
            (field "transport" (str "tcp") (field "security" (str "reality") end));
      credentials_ref = (some "vault://lumen/profiles/stealconfig");
      id = "profile_stealconfig";
      metadata_json = end;
      name = "StealConfig";
      node_id = "node_mow_02";
      port_reservations =
          ((field "address" (str "0.0.0.0") (
              field "exclusive" (bool true)
                (field "port" (num 443) (field "protocol" (str "tcp") end))))
            ∷ []);
      runtime_sync = none;
      squad_id = (some "squad_default");
      status = "active";
      created_at = none;
      allow_port_conflicts = none;
    }
    ∷ record {
      adapter = "trojan";
      config_json = field "transport" (str "xhttp") (field "security" (str "tls") end);
      credentials_ref = (some "vault://lumen/profiles/trojanxhttp");
      id = "profile_trojan_xhttp";
      metadata_json = end;
      name = "Trojan XHTTP TLS";
      node_id = "node_fra_01";
      port_reservations =
          ((field "address" (str "0.0.0.0") (
              field "exclusive" (bool true)
                (field "port" (num 8443) (field "protocol" (str "tcp") end))))
            ∷ []);
      runtime_sync = none;
      squad_id = (some "squad_external_trial");
      status = "active";
      created_at = none;
      allow_port_conflicts = none;
    }
    ∷ []

abbrev pub host_records : List HostRecord
host_records =
    record {
      address = (some "auto.lumen.local");
      excluded_internal_squad_ids = [];
      final_mask = none;
      hidden = false;
      hostname = "auto.lumen.local";
      id = "host_auto_wifi";
      inbound_tag = (some "AUTO_WIFI");
      metadata_json = end;
      mihomo_x25519_public_key = none;
      mux_json = end;
      name = "Auto WiFi";
      node_id = "node_mow_02";
      path = none;
      port = (some 443);
      protocol_profile_id = (some "profile_stealconfig");
      remark = (some "Default host");
      runtime_sync = none;
      security = none;
      shuffle_host = false;
      sni = none;
      sockopt_json = end;
      squad_id = (some "squad_default");
      status = "active";
      subscription_excluded = false;
      tags = ("auto-wifi" ∷ "balancer" ∷ []);
      xhttp_json = end;
      xray_template_json = end;
    }
    ∷ record {
      address = (some "de.lumen.local");
      excluded_internal_squad_ids = [];
      final_mask = (some "de-mask.lumen.local");
      hidden = false;
      hostname = "de.lumen.local";
      id = "host_germany_wifi";
      inbound_tag = (some "DE_WIFI");
      metadata_json = end;
      mihomo_x25519_public_key = none;
      mux_json = field "enabled" (bool true) end;
      name = "Germany WiFi";
      node_id = "node_fra_01";
      path = (some "/xhttp");
      port = (some 8443);
      protocol_profile_id = (some "profile_trojan_xhttp");
      remark = (some "Germany host");
      runtime_sync = none;
      security = (some "tls");
      shuffle_host = true;
      sni = (some "front.lumen.local");
      sockopt_json = end;
      squad_id = (some "squad_external_trial");
      status = "active";
      subscription_excluded = false;
      tags = ("lte" ∷ "reality" ∷ []);
      xhttp_json = field "mode" (str "auto") end;
      xray_template_json = end;
    }
    ∷ []

abbrev pub subscription_records : List SubscriptionRecord
subscription_records =
    record {
      config_hash = (some "sha256:subscription-fixture");
      created_at = "2026-05-27T00:00:00Z";
      delivery_profile =
          (("client", "happ") ∷ ("hwid_limit", "5") ∷ ("traffic_limit_gb", "300") ∷ []);
      expires_at = (some "2026-09-30T00:00:00Z");
      id = "sub_default";
      node_id = (some "node_mow_02");
      public_id = "sub_pub_default";
      public_manifest_url = "/api/v1/subscriptions/public/sub_pub_default/manifest";
      public_page_url = "/sub/sub_pub_default";
      public_render_url = "/api/v1/subscriptions/public/sub_pub_default/render";
      public_render_urls =
          (("happ", "/api/v1/subscriptions/public/sub_pub_default/render?target=happ")
            ∷ ("hiddify", "/api/v1/subscriptions/public/sub_pub_default/render?target=hiddify")
            ∷ []);
      render_formats = ("happ" ∷ "hiddify" ∷ []);
      revoked_at = none;
      status = "active";
      updated_at = "2026-05-27T00:00:00Z";
      user_id = "usr_mira";
    }
    ∷ []
