-- ===== src/Subscriptions.antt =====
-- Subscriptions in apps/web/src/shared/api/developmentClient.ts. Child: the formats that a
-- subscription is rendered in, and its public addresses.
pub mod Laws
pub mod Formats
use full_revna_like_projekt.Base.{
  ℕ, String, Bool, true, false, not, ◌&&◌, Option, none, some, List, [], ◌∷◌, map, ◌==◌,
  if◌then◌else◌, or_else, filter, any, TextMap,
}
use full_revna_like_projekt.Base.Text.{trim, join, to_lower_case, contains}
use full_revna_like_projekt.Base.Decimal.{to_text}
use full_revna_like_projekt.Table.{Table, values, find, find_id, assign, unshift, remove_id}
use full_revna_like_projekt.Types.Profiles.{ProtocolProfileRecord}
use full_revna_like_projekt.Types.Hosts.{HostRecord}
use full_revna_like_projekt.Types.Users.{UserRecord}
use full_revna_like_projekt.Types.Subscriptions.{
  SubscriptionRecord, SubscriptionCreateRequest, SubscriptionIssueFromProfileRequest,
  SubscriptionUpdateRequest,
}
use full_revna_like_projekt.Client.{
  Client, Reply, ok, throws, with_found, Moment, subscription_keyed, profile_keyed, user_keyed,
}
use full_revna_like_projekt.Profiles.{or_text}
use full_revna_like_projekt.Profiles.Readiness.{text_is, serves}
use Formats.{render_formats, manifest_url, page_url, render_url, render_urls}
use Prim.Native.String.{◌++◌}

-- The fields that every new subscription shares.
unfoldable pub new_subscription :
    String
    → String
    → String
    → Option String
    → Option String
    → Option String
    → TextMap
    → String
    → SubscriptionRecord
new_subscription now id public_id config_hash expires_at node_id delivery user_id = record {
  config_hash = config_hash;
  created_at = now;
  delivery_profile = delivery;
  expires_at = expires_at;
  id = id;
  node_id = node_id;
  public_id = public_id;
  public_manifest_url = manifest_url public_id;
  public_page_url = page_url public_id;
  public_render_url = render_url public_id;
  public_render_urls = render_urls public_id (render_formats delivery);
  render_formats = render_formats delivery;
  revoked_at = none;
  status = "active";
  updated_at = now;
  user_id = user_id;
}

unfoldable pub create_subscription :
    Moment → SubscriptionCreateRequest → Client → Client × Reply SubscriptionRecord
create_subscription m request c =
    let subscription =
      new_subscription m.iso ("sub_" ++ request.user_id ++ "_" ++ to_text m.first_ms)
        ("sub_pub_" ++ request.user_id) request.config_hash request.expires_at request.node_id
        (or_else request.delivery_profile []) request.user_id in
    (record c { subscriptions = unshift subscription c.subscriptions }, ok subscription)

-- The host asked for, if it belongs to the profile; else the first host that serves the profile.
unfoldable pub choose_host : Option String → ProtocolProfileRecord → Table HostRecord → Option ℕ
choose_host host_id profile hosts =
    elim (find (λ h. text_is host_id h.id && text_is h.protocol_profile_id profile.id) hosts) [
      | some r ↦ some r
      | none ↦ find (serves profile) hosts
    ]

abbrev first_or_empty : List String → String
first_or_empty [] = ""
first_or_empty (t ∷ ts) = t

abbrev pub render_targets_of : SubscriptionIssueFromProfileRequest → List String
render_targets_of request = elim request.render_targets [
  | none ↦ "happ" ∷ "sing-box" ∷ []
  | some [] ↦ "happ" ∷ "sing-box" ∷ []
  | some (t ∷ ts) ↦ t ∷ ts
]

unfoldable pub issued_delivery :
    SubscriptionIssueFromProfileRequest → ProtocolProfileRecord → HostRecord → TextMap
issued_delivery request profile host =
    ("adapter", profile.adapter)
    ∷ ("client", join "," (render_targets_of request))
    ∷ ("format", first_or_empty (render_targets_of request))
    ∷ ("host_id", host.id)
    ∷ ("profile_id", profile.id)
    ∷ ("profile_title", or_text (trimmed request.profile_title) profile.name)
    ∷ ("protocol", profile.adapter)
    ∷ ("server_name", or_else host.sni host.hostname)
    ∷ []
  where
    trimmed : Option String → Option String
    trimmed none = none
    trimmed (some s) = some (trim s)

unfoldable pub issue_subscription_from_profile :
    Moment → SubscriptionIssueFromProfileRequest → Client → Client × Reply SubscriptionRecord
issue_subscription_from_profile m request c =
    with_found (find_id request.profile_id c.profiles) "Profile not found" c λ p.
      let profile = c.profiles.store p in
      with_found (choose_host request.host_id profile c.hosts)
        "Profile has no active subscription host" c
        λ h.
          let subscription =
            new_subscription m.iso
              ("sub_profile_" ++ request.profile_id ++ "_" ++ to_text m.second_ms)
              ("sub_pub_" ++ request.user_id ++ "_" ++ to_text m.first_ms) request.config_hash
              request.expires_at (some profile.node_id)
              (issued_delivery request profile (c.hosts.store h)) request.user_id in
          (record c { subscriptions = unshift subscription c.subscriptions }, ok subscription)

unfoldable pub clone_record : Moment → SubscriptionRecord → SubscriptionRecord
clone_record m source =
    let public_id = "sub_pub_clone_" ++ to_text m.first_ms in
    record source {
      created_at = m.iso;
      id = "sub_clone_" ++ to_text m.second_ms;
      public_id = public_id;
      public_manifest_url = manifest_url public_id;
      public_page_url = page_url public_id;
      public_render_url = render_url public_id;
      public_render_urls = render_urls public_id (render_formats source.delivery_profile);
      render_formats = render_formats source.delivery_profile;
      revoked_at = none;
      status = "active";
      updated_at = m.iso;
    }

unfoldable pub clone_subscription : Moment → String → Client → Client × Reply SubscriptionRecord
unfolding clone_record
clone_subscription m subscription_id c =
    with_found (find_id subscription_id c.subscriptions) "Subscription not found" c λ r.
      let clone = clone_record m (c.subscriptions.store r) in
      (record c { subscriptions = unshift clone c.subscriptions }, ok clone)

unfoldable pub delete_subscription : String → Client → Client
delete_subscription subscription_id c = record c {
  subscriptions = remove_id subscription_id c.subscriptions;
}

abbrev pub revoke : String → SubscriptionRecord → SubscriptionRecord
revoke now s = record s { status = "revoked"; revoked_at = some now }

unfoldable pub revoke_subscription : String → String → Client → Client × Reply SubscriptionRecord
revoke_subscription now subscription_id c =
    with_found (find_id subscription_id c.subscriptions) "Subscription not found" c λ r.
      let subscriptions = assign r (revoke now) c.subscriptions in
      (record c { subscriptions = subscriptions }, ok (subscriptions.store r))

-- `Object.assign(subscription, request)`
unfoldable pub assign_subscription :
    SubscriptionUpdateRequest → SubscriptionRecord → SubscriptionRecord
assign_subscription request a = record a {
  config_hash = or_else request.config_hash a.config_hash;
  delivery_profile = or_else request.delivery_profile a.delivery_profile;
  expires_at = or_else request.expires_at a.expires_at;
  node_id = or_else request.node_id a.node_id;
  status = or_else request.status a.status;
}

unfoldable pub update_subscription :
    String → SubscriptionUpdateRequest → Client → Client × Reply SubscriptionRecord
unfolding assign_subscription
update_subscription subscription_id request c =
    with_found (find_id subscription_id c.subscriptions) "Subscription not found" c λ r.
      let subscriptions = assign r (assign_subscription request) c.subscriptions in
      (record c { subscriptions = subscriptions }, ok (subscriptions.store r))

-- The texts of a subscription and its user that a query may be part of.
unfoldable pub subscription_fields : Client → SubscriptionRecord → List String
subscription_fields c s =
    s.id
    ∷ s.public_id
    ∷ user_text (λ u. some u.email)
    ∷ user_text (λ u. u.username)
    ∷ user_text (λ u. u.display_name)
    ∷ []
  where
    user_text : (UserRecord → Option String) → String
    user_text field = elim (find_id s.user_id c.users) [
      | none ↦ ""
      | some r ↦ or_else (field (c.users.store r)) ""
    ]

unfoldable pub lookup_subscriptions : String → Client → List SubscriptionRecord
unfolding subscription_fields
lookup_subscriptions query c =
    let normalized_query = to_lower_case (trim query) in
    filter
      (λ s.
        any (λ value. contains (to_lower_case value) normalized_query) (subscription_fields c s))
      (values c.subscriptions)
