-- ===== src/Types/Profiles.antt =====
-- apps/web/src/shared/api/types.ts: protocol profiles, their ports and their readiness.
use full_revna_like_projekt.Base.{ℕ, String, Bool, Option, List}
use full_revna_like_projekt.Base.Json.{Fields}
use full_revna_like_projekt.Types.Runtime.{RuntimeSyncStatus, NodeCommandRecord}

pub record PortReservation : Type 0 where
  pub address : Option String
  pub exclusive : Option Bool
  pub port : ℕ
  pub protocol : Option String

pub record PortConflict : Type 0 where
  pub address : String
  pub message : String
  pub port : ℕ
  pub profile_id : String
  pub profile_name : String
  pub protocol : String
  pub suggested_port : Option ℕ

pub record PortCheckRequest : Type 0 where
  pub exclude_profile_id : Option String
  pub node_id : String
  pub reservations : List PortReservation

pub record PortCheckResponse : Type 0 where
  pub allowed : Bool
  pub conflicts : List PortConflict

-- `allow_port_conflicts` is no field of the type: an update copies it onto the record.
pub record ProtocolProfileRecord : Type 0 where
  pub adapter : String
  pub config_json : Fields
  pub credentials_ref : Option String
  pub id : String
  pub metadata_json : Fields
  pub name : String
  pub node_id : String
  pub port_reservations : List Fields
  pub runtime_sync : Option RuntimeSyncStatus
  pub squad_id : Option String
  pub status : String
  pub created_at : Option String
  pub allow_port_conflicts : Option Bool

pub record ProtocolProfileCreateRequest : Type 0 where
  pub adapter : String
  pub allow_port_conflicts : Option Bool
  pub config_json : Option Fields
  pub credentials_ref : Option String
  pub metadata_json : Option Fields
  pub name : String
  pub node_id : String
  pub port_reservations : Option (List PortReservation)
  pub squad_id : Option String
  pub status : Option String

pub record ProtocolProfileUpdateRequest : Type 0 where
  pub adapter : Option String
  pub allow_port_conflicts : Option Bool
  pub config_json : Option Fields
  pub credentials_ref : Option (Option String)
  pub metadata_json : Option Fields
  pub name : Option String
  pub node_id : Option String
  pub port_reservations : Option (List PortReservation)
  pub squad_id : Option (Option String)
  pub status : Option String

pub record ProfileBulkActionRequest : Type 0 where
  pub ids : List String
  pub status : Option String

pub record ProfileApplyToNodeResponse : Type 0 where
  pub adapter : String
  pub command_id : String
  pub command_type : String
  pub node_id : String
  pub status : String

pub record NodeProtocolSelectionItem : Type 0 where
  pub adapter : String
  pub enabled : Bool
  pub name : String
  pub profile_id : String
  pub runtime_sync : RuntimeSyncStatus
  pub status : String

pub record NodeProtocolSelectionResponse : Type 0 where
  pub items : List NodeProtocolSelectionItem
  pub node_id : String
  pub queued_commands : List NodeCommandRecord

pub record ProfileLatestApplyCommandRecord : Type 0 where
  pub adapter : Option String
  pub claimed_at : Option String
  pub completed_at : Option String
  pub created_at : Option String
  pub error_code : Option String
  pub id : String
  pub implementation_status : Option String
  pub status : String

pub record ProfileRuntimeReadinessRecord : Type 0 where
  pub active_hosts : ℕ
  pub adapter : String
  pub apply_ready : Bool
  pub blockers : List String
  pub last_command_id : Option String
  pub latest_apply_command : Option ProfileLatestApplyCommandRecord
  pub name : String
  pub node_id : String
  pub pending_apply : Option Bool
  pub profile_id : String
  pub runtime_clients : ℕ
  pub runtime_sync_status : Option String

pub record StaleProfileCleanupCandidateRecord : Type 0 where
  pub active_hosts : ℕ
  pub adapter : String
  pub blockers : List String
  pub latest_apply_status : Option String
  pub name : String
  pub node_id : String
  pub profile_id : String
  pub recommended_action : String
  pub runtime_clients : ℕ
  pub runtime_sync_status : Option String
  pub status : String

pub record StaleProfileCleanupRequest : Type 0 where
  pub action : String
  pub confirmation : String
  pub ids : List String
