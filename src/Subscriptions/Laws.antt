-- ===== src/Subscriptions/Laws.antt =====
-- When a subscription can be issued from a profile, and what it is good for.
use full_revna_like_projekt.Base.{
  ℕ, String, ◌≡◌, refl, ◌∙◌, sym, ap, inl, inr, ◌⊎◌, Bool, true, false, ◌&&◌, Option, none, some,
  ◌∷◌, ◌==◌, eq_iff, filter, Among, Among-map, Option-cases,
}
use full_revna_like_projekt.Table.{values, find, find_id, unshift}
use full_revna_like_projekt.Base.Decimal.{to_text}
use Prim.Native.String.{◌++◌}
use full_revna_like_projekt.Table.Laws.{
  Allocated, values-unshift, first_sound, first-Among, first-none,
}
use full_revna_like_projekt.Table.Map.{read, read-find, read-missing}
use full_revna_like_projekt.Table.Bulk.{Among-of_map}
use full_revna_like_projekt.Types.Profiles.{ProtocolProfileRecord}
use full_revna_like_projekt.Types.Hosts.{HostRecord}
use full_revna_like_projekt.Types.Subscriptions.{
  SubscriptionRecord, SubscriptionIssueFromProfileRequest,
}
use full_revna_like_projekt.Client.{Client, Reply, Moment, throws, ok, profile_keyed}
use full_revna_like_projekt.Profiles.Readiness.{
  text_is, serves, is_runtime_client, runtime_clients, is_empty,
}
use full_revna_like_projekt.Profiles.Cleanup.{is_stale}
use full_revna_like_projekt.Subscriptions.{
  new_subscription, choose_host, issued_delivery, issue_subscription_from_profile,
}

same_text : (s : String) → (s == s) ≡ true
same_text s = (eq_iff s s).1 refl

-- The host is the one that the request asks for, and it belongs to the profile.
abbrev pub asked_for :
    SubscriptionIssueFromProfileRequest → ProtocolProfileRecord → HostRecord → Bool
asked_for request profile h =
    text_is request.host_id h.id && text_is h.protocol_profile_id profile.id

abbrev pub NoHost : SubscriptionIssueFromProfileRequest → ProtocolProfileRecord → Client → Type 0
NoHost request profile c =
    (h : HostRecord)
    → Among h (values c.hosts)
    → (asked_for request profile h ≡ false) × (serves profile h ≡ false)

module _ (request : SubscriptionIssueFromProfileRequest) (profile : ProtocolProfileRecord)
    (c : Client) where
  chosen_host :
      (r : ℕ)
      → choose_host request.host_id profile c.hosts ≡ some r
      → Among (c.hosts.store r) (values c.hosts)
        × ((asked_for request profile (c.hosts.store r) ≡ true)
            ⊎ (serves profile (c.hosts.store r) ≡ true))
  unfolding choose_host find values
  chosen_host r e = elim (Option-cases (find (asked_for request profile) c.hosts)) [
    | inl missing ↦
        let e' : find (serves profile) c.hosts ≡ some r = sym (ap fallback missing) ∙ e in
        (
          Among-map c.hosts.store c.hosts.refs r (first-Among _ c.hosts.refs r e'),
          inr (first_sound (λ q. serves profile (c.hosts.store q)) c.hosts.refs r e'),
        )
    | inr (q, found) ↦
        let e' : find (asked_for request profile) c.hosts ≡ some r =
          found ∙ (sym (ap fallback found) ∙ e) in
        (
          Among-map c.hosts.store c.hosts.refs r (first-Among _ c.hosts.refs r e'),
          inl (first_sound (λ q. asked_for request profile (c.hosts.store q)) c.hosts.refs r e'),
        )
  ]
    where
      fallback : Option ℕ → Option ℕ
      fallback o = elim o [ some r ↦ some r | none ↦ find (serves profile) c.hosts ]

  no_host : choose_host request.host_id profile c.hosts ≡ none → NoHost request profile c
  unfolding choose_host find values
  no_host e h m =
      let (r, listed, same) = Among-of_map c.hosts.store c.hosts.refs h m in
      elim (Option-cases (find (asked_for request profile) c.hosts)) [
        | inr (q, found) ↦ absurd (clash q (sym (ap fallback found) ∙ e))
        | inl missing ↦ (
          ap (asked_for request profile) same
              ∙ first-none (λ q. asked_for request profile (c.hosts.store q)) c.hosts.refs r missing
                  listed,
          ap (serves profile) same
              ∙ first-none (λ q. serves profile (c.hosts.store q)) c.hosts.refs r
                  (sym (ap fallback missing) ∙ e) listed,
        )
      ]
    where
      fallback : Option ℕ → Option ℕ
      fallback o = elim o [ some r ↦ some r | none ↦ find (serves profile) c.hosts ]

      clash : (q : ℕ) → some q ≡ none → ⊥
      clash q p = cc

  -- A subscription issued from a profile is one of the profile's runtime clients.
  issued-is_runtime_client :
      (now id public_id user_id : String) (config_hash expires_at : Option String)
      (host : HostRecord)
      → is_runtime_client profile (
          new_subscription now id public_id config_hash expires_at
            (some profile.node_id)
            (issued_delivery request profile host)
            user_id)
        ≡ true
  unfolding is_runtime_client new_subscription issued_delivery
  issued-is_runtime_client now id public_id user_id config_hash expires_at host =
      rw (same_text profile.node_id, same_text profile.id)

  not_stale :
      (s : SubscriptionRecord)
      → Allocated c.subscriptions
      → is_runtime_client profile s ≡ true
      → is_stale (record c { subscriptions = unshift s c.subscriptions }) profile ≡ false
  unfolding is_stale runtime_clients
  not_stale s h e =
      ap (λ l. (profile.status == "active") && is_empty (filter (is_runtime_client profile) l))
        (values-unshift s c.subscriptions h)
      ∙ rw e (never (profile.status == "active"))
    where
      never : (b : Bool) → b && false ≡ false
      never true = refl
      never false = refl

-- What a call that issues a subscription from the profile can have given.
pub record Issued (request : SubscriptionIssueFromProfileRequest) (profile : ProtocolProfileRecord)
    (c : Client) (out : Client × Reply SubscriptionRecord) : Type 0 where
  pub host : HostRecord
  pub listed : Among host (values c.hosts)
  pub fits : (asked_for request profile host ≡ true) ⊎ (serves profile host ≡ true)
  pub subscription : SubscriptionRecord
  pub replied : out.1 ≡ ok subscription
  pub stored : values out.0.subscriptions ≡ subscription ∷ values c.subscriptions
  pub owner : subscription.user_id ≡ request.user_id
  pub used : is_runtime_client profile subscription ≡ true
  pub fresh : is_stale out.0 profile ≡ false

issue-found :
    (m : Moment) (request : SubscriptionIssueFromProfileRequest) (c : Client) (p h : ℕ)
    → Allocated c.subscriptions
    → find_id request.profile_id c.profiles ≡ some p
    → choose_host request.host_id (c.profiles.store p) c.hosts ≡ some h
    → Issued request (c.profiles.store p) c (issue_subscription_from_profile m request c)
unfolding issue_subscription_from_profile new_subscription
issue-found m request c p h a found chosen =
    let profile = c.profiles.store p in
    let host = c.hosts.store h in
    let (listed, fits) = chosen_host request profile c h chosen in
    let used =
      issued-is_runtime_client request profile c m.iso
        ("sub_profile_" ++ request.profile_id ++ "_" ++ to_text m.second_ms)
        ("sub_pub_" ++ request.user_id ++ "_" ++ to_text m.first_ms) request.user_id
        request.config_hash request.expires_at host in
    rw (found, chosen, issue_subscription_from_profile)
      (record {
        host = host;
        listed = listed;
        fits = fits;
        subscription = _;
        replied = refl;
        stored = values-unshift _ c.subscriptions a;
        owner = refl;
        used = used;
        fresh = not_stale request profile c _ a used;
      })

-- Where the references of the subscriptions are in use, a subscription is issued from a profile
-- exactly where the profile is there and it has a host: the one asked for, which has to belong to
-- the profile, or one that serves it. The subscription stands
-- on top of the others, belongs to the user of the request, and counts as a runtime client of the
-- profile, which is then not stale. Otherwise the call throws and changes nothing.
pub issue_subscription_cases :
    (m : Moment) (request : SubscriptionIssueFromProfileRequest) (c : Client)
    → Allocated c.subscriptions
    → ((read request.profile_id c.profiles ≡ none)
        × (issue_subscription_from_profile m request c ≡ (c, throws "Profile not found")))
      ⊎ ((profile : ProtocolProfileRecord) × (read request.profile_id c.profiles ≡ some profile)
          × ((NoHost request profile c
                × (issue_subscription_from_profile m request c
                    ≡ (c, throws "Profile has no active subscription host")))
              ⊎ Issued request profile c (issue_subscription_from_profile m request c)))
unfolding issue_subscription_from_profile
issue_subscription_cases m request c a =
    elim (Option-cases (find_id request.profile_id c.profiles)) [
      | inl missing ↦ inl (
        read-missing request.profile_id c.profiles missing,
        rw (missing, issue_subscription_from_profile),
      )
      | inr (p, found) ↦
          let profile = c.profiles.store p in
          inr (
            profile,
            read-find request.profile_id c.profiles p found,
            elim (Option-cases (choose_host request.host_id profile c.hosts)) [
              | inl nowhere ↦ inl (
                no_host request profile c nowhere,
                rw (found, nowhere, issue_subscription_from_profile),
              )
              | inr (h, chosen) ↦ inr (issue-found m request c p h a found chosen)
            ],
          )
    ]
