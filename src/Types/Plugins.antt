-- ===== src/Types/Plugins.antt =====
-- apps/web/src/shared/api/types.ts: node plugins.
use full_revna_like_projekt.Base.{ℕ, String, Bool, Option}
use full_revna_like_projekt.Base.Json.{Fields}

-- An update may set the sort order to null.
pub record NodePluginRecord : Type 0 where
  pub id : String
  pub node_id : Option String
  pub kind : String
  pub name : String
  pub config_json : Fields
  pub enabled : Bool
  pub sort_order : Option ℕ
  pub created_at : String
  pub updated_at : String

pub record NodePluginCreateRequest : Type 0 where
  pub node_id : Option String
  pub kind : String
  pub name : String
  pub config_json : Option Fields
  pub enabled : Option Bool
  pub sort_order : Option ℕ

pub record NodePluginUpdateRequest : Type 0 where
  pub node_id : Option (Option String)
  pub kind : Option String
  pub name : Option String
  pub config_json : Option Fields
  pub enabled : Option Bool
  pub sort_order : Option (Option ℕ)

pub record NodePluginCloneRequest : Type 0 where
  pub name : Option String
  pub node_id : Option String
  pub enabled : Option Bool

pub record NodePluginApplyRequest : Type 0 where
  pub node_id : String
  pub reason : Option String
