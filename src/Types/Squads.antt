-- ===== src/Types/Squads.antt =====
-- apps/web/src/shared/api/types.ts: squads and their members.
use full_revna_like_projekt.Base.{String, Option, List}
use full_revna_like_projekt.Base.Json.{Fields}

pub record SquadRecord : Type 0 where
  pub id : String
  pub kind : String
  pub metadata_json : Fields
  pub name : String
  pub status : String

pub record SquadCreateRequest : Type 0 where
  pub kind : Option String
  pub metadata_json : Option Fields
  pub name : String
  pub status : Option String

pub record SquadUpdateRequest : Type 0 where
  pub kind : Option String
  pub metadata_json : Option Fields
  pub name : Option String
  pub status : Option String

pub record SquadUserMutationRequest : Type 0 where
  pub user_ids : List String
