-- ===== src/Types/Users.antt =====
-- apps/web/src/shared/api/types.ts: users. Gigabytes are whole numbers here, and a change of them
-- is an integer.
use full_revna_like_projekt.Base.{ℕ, String, Option, List}
use full_revna_like_projekt.Base.Json.{Fields}
use full_revna_like_projekt.Base.Int.{ℤ}

-- `password` is no field of the type: an update copies it onto the record.
pub record UserRecord : Type 0 where
  pub created_at : String
  pub device_limit : Option ℕ
  pub display_name : Option String
  pub email : String
  pub expires_at : Option String
  pub id : String
  pub metadata_json : Fields
  pub role : String
  pub status : String
  pub tags : List String
  pub telegram_id : Option String
  pub traffic_limit_gb : Option ℕ
  pub traffic_used_gb : ℕ
  pub updated_at : String
  pub username : Option String
  pub password : Option (Option String)

pub record UserCreateRequest : Type 0 where
  pub device_limit : Option ℕ
  pub display_name : Option String
  pub email : String
  pub expires_at : Option String
  pub metadata_json : Option Fields
  pub password : Option String
  pub role : Option String
  pub status : Option String
  pub tags : Option (List String)
  pub telegram_id : Option String
  pub traffic_limit_gb : Option ℕ
  pub traffic_used_gb : Option ℕ
  pub username : Option String

pub record UserUpdateRequest : Type 0 where
  pub device_limit : Option (Option ℕ)
  pub display_name : Option (Option String)
  pub email : Option String
  pub expires_at : Option (Option String)
  pub metadata_json : Option Fields
  pub password : Option (Option String)
  pub role : Option String
  pub status : Option String
  pub tags : Option (List String)
  pub telegram_id : Option (Option String)
  pub traffic_limit_gb : Option (Option ℕ)
  pub traffic_used_gb : Option ℕ
  pub username : Option (Option String)

pub record UserLookupResponse : Type 0 where
  pub items : List UserRecord
  pub query : String
  pub strategy : String

pub record UserBulkActionRequest : Type 0 where
  pub expires_at : Option String
  pub squad_id : Option String
  pub status : Option String
  pub tags : Option (List String)
  pub traffic_delta_gb : Option ℤ
  pub user_ids : List String

pub record UserBulkActionResponse : Type 0 where
  pub items : List UserRecord
  pub updated : ℕ
