-- ===== src/Profiles/Readiness.antt =====
-- Which profiles can be applied: `listProfileRuntimeReadiness` and
-- `listStaleProfileCleanupCandidates` in apps/web/src/shared/api/developmentClient.ts.
pub mod Laws
use full_revna_like_projekt.Base.{
  ℕ, String, Bool, true, false, not, ◌&&◌, ◌||◌, Option, none, some, List, [], ◌∷◌, ◌++◌, map, ◌==◌,
  ◌==ₙ◌, if◌then◌else◌, filter, length, lookup,
}
use full_revna_like_projekt.Base.Text.{to_lower_case, contains}
use full_revna_like_projekt.Base.Json.{Json, get, text_or_null}
use full_revna_like_projekt.Table.{values}
use full_revna_like_projekt.Types.Runtime.{RuntimeSyncStatus, NodeCommandRecord}
use full_revna_like_projekt.Types.Profiles.{
  ProtocolProfileRecord, ProfileLatestApplyCommandRecord, ProfileRuntimeReadinessRecord,
  StaleProfileCleanupCandidateRecord,
}
use full_revna_like_projekt.Types.Hosts.{HostRecord}
use full_revna_like_projekt.Types.Subscriptions.{SubscriptionRecord}
use full_revna_like_projekt.Client.{Client}
use full_revna_like_projekt.Nodes.{find_latest_profile_apply_command}

-- `value === text` where the value may be null or missing.
abbrev pub text_is : Option String → String → Bool
text_is none t = false
text_is (some s) t = s == t

-- `!value`
abbrev pub is_falsy : Option String → Bool
is_falsy none = true
is_falsy (some s) = s == ""

-- The host of the profile that subscriptions may be served through.
unfoldable pub serves : ProtocolProfileRecord → HostRecord → Bool
serves profile host =
    text_is host.protocol_profile_id profile.id
    && (host.status == "active")
    && not host.hidden
    && not host.subscription_excluded

-- The subscription that the profile's runtime has to admit.
unfoldable pub is_runtime_client : ProtocolProfileRecord → SubscriptionRecord → Bool
is_runtime_client profile subscription =
    let delivery = subscription.delivery_profile in
    (subscription.status == "active")
    && text_is subscription.node_id profile.node_id
    && (text_is (lookup "profile_id" delivery) profile.id
        || (is_falsy (lookup "profile_id" delivery)
            && (text_is (lookup "adapter" delivery) profile.adapter
                || text_is (lookup "protocol" delivery) profile.adapter)))

unfoldable pub active_hosts : ProtocolProfileRecord → Client → List HostRecord
active_hosts profile c = filter (serves profile) (values c.hosts)

unfoldable pub runtime_clients : ProtocolProfileRecord → Client → List SubscriptionRecord
runtime_clients profile c = filter (is_runtime_client profile) (values c.subscriptions)

abbrev pub is_empty {ℓ} : {A : Type ℓ} → List A → Bool
is_empty [] = true
is_empty (x ∷ xs) = false

-- `test ? blocker : null` in a list that is filtered afterwards.
abbrev pub blocker_if : Bool → String → List String
blocker_if true blocker = blocker ∷ []
blocker_if false blocker = []

-- The blockers that the cleanup and the readiness share.
unfoldable pub delivery_blockers : ProtocolProfileRecord → Client → List String
delivery_blockers profile c =
    blocker_if (is_empty (active_hosts profile c)) "active_host_required"
    ++ blocker_if (is_empty (runtime_clients profile c)) "active_subscription_required"

unfoldable pub blockers : ProtocolProfileRecord → Client → List String
unfolding delivery_blockers
blockers profile c =
    blocker_if (not (profile.status == "active")) "profile_not_active"
    ++ delivery_blockers profile c

abbrev sync_text : Option RuntimeSyncStatus → (RuntimeSyncStatus → Option String) → Option String
sync_text none field = none
sync_text (some sync) field = field sync

abbrev sync_pending : Option RuntimeSyncStatus → Option Bool
sync_pending none = none
sync_pending (some sync) = some sync.pending_apply

abbrev implementation_status : NodeCommandRecord → Option String
implementation_status command = elim command.result_json [
  | none ↦ none
  | some result ↦ text_or_null (get "status" result)
]

abbrev latest_apply :
    ProtocolProfileRecord → Client → Option ℕ → Option ProfileLatestApplyCommandRecord
latest_apply profile c none = none
latest_apply profile c (some r) =
    let command = c.node_commands.store r in
    some (record {
      adapter = some profile.adapter;
      claimed_at = command.claimed_at;
      completed_at = command.completed_at;
      created_at = some command.created_at;
      error_code = command.error_code;
      id = command.id;
      implementation_status = implementation_status command;
      status = command.status;
    })

unfoldable pub readiness : Client → ProtocolProfileRecord → ProfileRuntimeReadinessRecord
unfolding blockers find_latest_profile_apply_command
readiness c profile = record {
  active_hosts = length (active_hosts profile c);
  adapter = profile.adapter;
  apply_ready = is_empty (blockers profile c);
  blockers = blockers profile c;
  last_command_id = sync_text profile.runtime_sync (λ s. s.last_command_id);
  latest_apply_command = latest_apply profile c (find_latest_profile_apply_command profile c);
  name = profile.name;
  node_id = profile.node_id;
  pending_apply = sync_pending profile.runtime_sync;
  profile_id = profile.id;
  runtime_clients = length (runtime_clients profile c);
  runtime_sync_status = sync_text profile.runtime_sync (λ s. some s.status);
}

unfoldable pub list_profile_runtime_readiness : Client → List ProfileRuntimeReadinessRecord
unfolding readiness
list_profile_runtime_readiness c = map (readiness c) (values c.profiles)

unfoldable pub is_candidate : Client → ProtocolProfileRecord → Bool
unfolding delivery_blockers
is_candidate c profile =
    (profile.status == "active")
    && is_empty (runtime_clients profile c)
    && not (is_empty (delivery_blockers profile c))

unfoldable pub candidate : Client → ProtocolProfileRecord → StaleProfileCleanupCandidateRecord
unfolding delivery_blockers
candidate c profile = record {
  active_hosts = length (active_hosts profile c);
  adapter = profile.adapter;
  blockers = delivery_blockers profile c;
  latest_apply_status = sync_text profile.runtime_sync (λ s. some s.status);
  name = profile.name;
  node_id = profile.node_id;
  profile_id = profile.id;
  recommended_action = if contains (to_lower_case profile.name) "qa" then "delete" else "disable";
  runtime_clients = length (runtime_clients profile c);
  runtime_sync_status = sync_text profile.runtime_sync (λ s. some s.status);
  status = profile.status;
}

unfoldable pub list_stale_profile_cleanup_candidates :
    Client → List StaleProfileCleanupCandidateRecord
unfolding is_candidate candidate
list_stale_profile_cleanup_candidates c =
    map (candidate c) (filter (is_candidate c) (values c.profiles))
