-- ===== src/Types/Runtime.antt =====
-- apps/web/src/shared/api/types.ts: the synchronisation of a profile or host with its node,
-- and the commands queued for a node.
use full_revna_like_projekt.Base.{String, Bool, Option, List}
use full_revna_like_projekt.Base.Json.{Fields}

pub record RuntimeSyncStatus : Type 0 where
  pub applied_command_id : Option String
  pub changed_at : Option String
  pub changed_fields : Option (List String)
  pub error_code : Option String
  pub error_message : Option String
  pub failed_command_id : Option String
  pub host_id : Option String
  pub last_applied_at : Option String
  pub last_apply_queued_at : Option String
  pub last_command_id : Option String
  pub last_failed_at : Option String
  pub node_id : Option String
  pub pending_apply : Bool
  pub profile_id : Option String
  pub reason : Option String
  pub status : String

pub record NodeCommandCreateRequest : Type 0 where
  pub command_type : String
  pub payload_json : Option Fields

pub record NodeCommandRecord : Type 0 where
  pub claimed_at : Option String
  pub command_type : String
  pub completed_at : Option String
  pub created_at : String
  pub error_code : Option String
  pub error_message : Option String
  pub id : String
  pub node_id : String
  pub payload_json : Fields
  pub result_json : Option Fields
  pub status : String
  pub updated_at : String

-- `reason`, `subscription_id` and `user_id` may be missing or null.
pub record DropConnectionsRequest : Type 0 where
  pub ip : String
  pub node_id : String
  pub reason : Option String
  pub subscription_id : Option String
  pub user_id : Option String
