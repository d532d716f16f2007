-- ===== src/Types/Hosts.antt =====
-- apps/web/src/shared/api/types.ts: the hosts that subscriptions are served through.
use full_revna_like_projekt.Base.{ℕ, String, Bool, Option, List}
use full_revna_like_projekt.Base.Json.{Fields}
use full_revna_like_projekt.Types.Runtime.{RuntimeSyncStatus}

pub record HostRecord : Type 0 where
  pub address : Option String
  pub excluded_internal_squad_ids : List String
  pub final_mask : Option String
  pub hidden : Bool
  pub hostname : String
  pub id : String
  pub inbound_tag : Option String
  pub metadata_json : Fields
  pub mihomo_x25519_public_key : Option String
  pub mux_json : Fields
  pub name : String
  pub node_id : String
  pub path : Option String
  pub port : Option ℕ
  pub protocol_profile_id : Option String
  pub remark : Option String
  pub runtime_sync : Option RuntimeSyncStatus
  pub security : Option String
  pub shuffle_host : Bool
  pub sni : Option String
  pub sockopt_json : Fields
  pub squad_id : Option String
  pub status : String
  pub subscription_excluded : Bool
  pub tags : List String
  pub xhttp_json : Fields
  pub xray_template_json : Fields

pub record HostCreateRequest : Type 0 where
  pub address : Option String
  pub excluded_internal_squad_ids : Option (List String)
  pub final_mask : Option String
  pub hidden : Option Bool
  pub hostname : String
  pub inbound_tag : Option String
  pub metadata_json : Option Fields
  pub mihomo_x25519_public_key : Option String
  pub mux_json : Option Fields
  pub name : String
  pub node_id : String
  pub path : Option String
  pub port : Option ℕ
  pub protocol_profile_id : Option String
  pub remark : Option String
  pub security : Option String
  pub shuffle_host : Option Bool
  pub sni : Option String
  pub sockopt_json : Option Fields
  pub squad_id : Option String
  pub status : Option String
  pub subscription_excluded : Option Bool
  pub tags : Option (List String)
  pub xhttp_json : Option Fields
  pub xray_template_json : Option Fields

pub record HostUpdateRequest : Type 0 where
  pub address : Option (Option String)
  pub excluded_internal_squad_ids : Option (List String)
  pub final_mask : Option (Option String)
  pub hidden : Option Bool
  pub hostname : Option String
  pub inbound_tag : Option (Option String)
  pub metadata_json : Option Fields
  pub mihomo_x25519_public_key : Option (Option String)
  pub mux_json : Option Fields
  pub name : Option String
  pub node_id : Option String
  pub path : Option (Option String)
  pub port : Option (Option ℕ)
  pub protocol_profile_id : Option (Option String)
  pub remark : Option (Option String)
  pub security : Option (Option String)
  pub shuffle_host : Option Bool
  pub sni : Option (Option String)
  pub sockopt_json : Option Fields
  pub squad_id : Option (Option String)
  pub status : Option String
  pub subscription_excluded : Option Bool
  pub tags : Option (List String)
  pub xhttp_json : Option Fields
  pub xray_template_json : Option Fields

pub record HostBulkActionRequest : Type 0 where
  pub ids : List String
  pub inbound_tag : Option String
  pub port : Option ℕ
  pub status : Option String
