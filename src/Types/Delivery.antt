-- ===== src/Types/Delivery.antt =====
-- apps/web/src/shared/api/types.ts: subscription templates, response rules and page configurations.
use full_revna_like_projekt.Base.{ℕ, String, Bool, Option, TextMap}
use full_revna_like_projekt.Base.Json.{Fields}

-- An update may set the order to null, here and in the two records below.
pub record SubscriptionTemplateRecord : Type 0 where
  pub content_json : Fields
  pub format : String
  pub id : String
  pub name : String
  pub order : Option ℕ
  pub status : String

pub record SubscriptionTemplateCreateRequest : Type 0 where
  pub content_json : Option Fields
  pub format : String
  pub name : String
  pub order : Option ℕ
  pub status : Option String

pub record SubscriptionTemplateUpdateRequest : Type 0 where
  pub content_json : Option Fields
  pub format : Option String
  pub name : Option String
  pub order : Option (Option ℕ)
  pub status : Option String

pub record ResponseRuleRecord : Type 0 where
  pub body : String
  pub enabled : Bool
  pub headers : TextMap
  pub id : String
  pub name : String
  pub order : Option ℕ
  pub status_code : ℕ
  pub trigger_status : String

pub record ResponseRuleCreateRequest : Type 0 where
  pub body : Option String
  pub enabled : Option Bool
  pub headers : Option TextMap
  pub name : String
  pub order : Option ℕ
  pub status_code : Option ℕ
  pub trigger_status : String

pub record ResponseRuleUpdateRequest : Type 0 where
  pub body : Option String
  pub enabled : Option Bool
  pub headers : Option TextMap
  pub name : Option String
  pub order : Option (Option ℕ)
  pub status_code : Option ℕ
  pub trigger_status : Option String

pub record ResponseRuleTestRequest : Type 0 where
  pub subscription_status : String

pub record ResponseRuleTestResponse : Type 0 where
  pub body : String
  pub headers : TextMap
  pub matched : Bool
  pub rule : Option ResponseRuleRecord
  pub status_code : ℕ

pub record SubscriptionPageConfigRecord : Type 0 where
  pub config_json : Fields
  pub id : String
  pub name : String
  pub order : Option ℕ
  pub status : String

pub record SubscriptionPageConfigCreateRequest : Type 0 where
  pub config_json : Option Fields
  pub name : String
  pub order : Option ℕ
  pub status : Option String

pub record SubscriptionPageConfigUpdateRequest : Type 0 where
  pub config_json : Option Fields
  pub name : Option String
  pub order : Option (Option ℕ)
  pub status : Option String

pub record SubscriptionPageConfigCloneRequest : Type 0 where
  pub name : Option String
  pub status : Option String
