-- ===== src/Types/Settings.antt =====
-- apps/web/src/shared/api/types.ts: settings, setting groups, login providers, API keys and the
-- second factors of an operator.
use full_revna_like_projekt.Base.{ℕ, String, Bool, Option, List}
use full_revna_like_projekt.Base.Json.{Fields}

pub record SettingRecord : Type 0 where
  pub id : Option String
  pub key : String
  pub updated_at : String
  pub updated_by : Option String
  pub value_json : Fields

pub record SettingGroupRecord : Type 0 where
  pub key : String
  pub title : String
  pub description : String
  pub value_json : Fields
  pub updated_by : Option String
  pub updated_at : Option String

pub record AuthProviderRecord : Type 0 where
  pub display_name : String
  pub enabled : Bool
  pub metadata_json : Fields
  pub provider : String
  pub scopes : List String
  pub status : String

pub record AuthProviderUpdateRequest : Type 0 where
  pub display_name : Option String
  pub enabled : Option Bool
  pub metadata_json : Option Fields
  pub scopes : Option (List String)
  pub status : Option String

pub record ApiKeyRecord : Type 0 where
  pub created_at : String
  pub expires_at : Option String
  pub fingerprint : String
  pub id : String
  pub key_prefix : Option String
  pub last_used_at : Option String
  pub name : String
  pub owner : String
  pub owner_user_id : Option String
  pub scopes : List String
  pub status : String

pub record ApiKeyCreateRequest : Type 0 where
  pub expires_at : Option String
  pub name : String
  pub owner_user_id : Option String
  pub scopes : List String

pub record ApiKeyCreateResponse : Type 0 where
  pub api_key : String
  pub expires_at : Option String
  pub id : String
  pub key_prefix : String
  pub name : String

pub record MfaMethod : Type 0 where
  pub confirmed_at : Option String
  pub id : String
  pub kind : String
  pub label : String
  pub last_used_at : Option String
  pub status : String

pub record WebAuthnCredentialRecord : Type 0 where
  pub id : String
  pub label : Option String
  pub aaguid : Option String
  pub transports : List String
  pub sign_count : ℕ
  pub last_used_at : Option String
  pub created_at : String
