-- ===== src/Types/Subscriptions.antt =====
-- apps/web/src/shared/api/types.ts: subscriptions and the requests that issue and change them.
use full_revna_like_projekt.Base.{String, Option, List, TextMap}

pub record SubscriptionRecord : Type 0 where
  pub config_hash : Option String
  pub created_at : String
  pub delivery_profile : TextMap
  pub expires_at : Option String
  pub id : String
  pub node_id : Option String
  pub public_id : String
  pub public_manifest_url : String
  pub public_page_url : String
  pub public_render_url : String
  pub public_render_urls : TextMap
  pub render_formats : List String
  pub revoked_at : Option String
  pub status : String
  pub updated_at : String
  pub user_id : String

pub record SubscriptionCreateRequest : Type 0 where
  pub config_hash : Option String
  pub delivery_profile : Option TextMap
  pub expires_at : Option String
  pub node_id : Option String
  pub user_id : String

pub record SubscriptionIssueFromProfileRequest : Type 0 where
  pub config_hash : Option String
  pub expires_at : Option String
  pub host_id : Option String
  pub profile_id : String
  pub profile_title : Option String
  pub render_targets : Option (List String)
  pub user_id : String

pub record SubscriptionUpdateRequest : Type 0 where
  pub config_hash : Option (Option String)
  pub delivery_profile : Option TextMap
  pub expires_at : Option (Option String)
  pub node_id : Option (Option String)
  pub status : Option String
