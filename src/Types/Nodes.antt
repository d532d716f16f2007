-- ===== src/Types/Nodes.antt =====
-- apps/web/src/shared/api/types.ts: nodes as the console reads them.
use full_revna_like_projekt.Base.{ℕ, String, Option, List, TextMap}

pub record NodeRecord : Type 0 where
  pub active_users : ℕ
  pub id : String
  pub last_seen_at : String
  pub load_percent : ℕ
  pub name : String
  pub region : String
  pub status : String
  pub transports : List String
  pub version : String

pub record NodeResponse : Type 0 where
  pub capabilities : TextMap
  pub id : String
  pub last_seen_at : Option String
  pub name : String
  pub public_address : String
  pub region : String
  pub sort_order : ℕ
  pub status : String

pub record NodeUpdateRequest : Type 0 where
  pub capabilities : Option TextMap
  pub name : Option String
  pub public_address : Option String
  pub region : Option String
  pub sort_order : Option ℕ
  pub status : Option String

pub record NodeCommandStatusCount : Type 0 where
  pub status : String
  pub count : ℕ

pub record NodeCommandHistoryRecord : Type 0 where
  pub id : String
  pub command_type : String
  pub status : String
  pub error_code : Option String
  pub claimed_at : Option String
  pub completed_at : Option String
  pub created_at : String
