-- ===== src/Examples.antt =====
-- The theorems at the state of a new client (apps/web/src/shared/data/developmentFixtures.ts), and
-- after calls on it.
mod Users
mod Orders
mod Requests
mod Refreshes
mod Agents
use full_revna_like_projekt.Base.{
  ℕ, zero, suc, ◌<◌, String, ◌≡◌, ◌≢◌, refl, inl, ◌⊎◌, ◌↔◌, Bool, true, false, Option, none, some,
  List, [], ◌∷◌, ◌++◌, map, arith, ◌==◌, if◌then◌else◌, any, includes, All, Among, length, is_some,
}
use full_revna_like_projekt.Table.{values}
use full_revna_like_projekt.Table.Laws.{Allocated}
use full_revna_like_projekt.Base.Json.{get}
use full_revna_like_projekt.Table.Map.{read}
use full_revna_like_projekt.Types.Squads.{SquadCreateRequest}
use full_revna_like_projekt.Types.Runtime.{NodeCommandRecord, NodeCommandCreateRequest}
use full_revna_like_projekt.Types.Profiles.{
  ProtocolProfileRecord, PortReservation, PortCheckRequest, StaleProfileCleanupRequest,
}
use full_revna_like_projekt.Types.Hosts.{HostRecord}
use full_revna_like_projekt.Types.Subscriptions.{
  SubscriptionRecord, SubscriptionIssueFromProfileRequest,
}
use full_revna_like_projekt.Client.{Client, Moment, ok, throws, profile_keyed}
use full_revna_like_projekt.Client.Initial.{initial}
use full_revna_like_projekt.Nodes.{queued, create_node_command, restart_request}
use full_revna_like_projekt.Profiles.Readiness.{
  readiness, serves, is_runtime_client, list_stale_profile_cleanup_candidates,
}
use full_revna_like_projekt.Profiles.Readiness.Laws.{apply_ready_iff}
use full_revna_like_projekt.Profiles.Cleanup.{cleanup_stale_profiles}
use full_revna_like_projekt.Profiles.Cleanup.Laws.{
  OnlyStale, all_candidates, cleanup_cases, cleanup_candidates_clears,
}
use full_revna_like_projekt.Profiles.Ports.{clashes, check_port_conflicts}
use full_revna_like_projekt.Profiles.Ports.Laws.{port_check_iff}
use full_revna_like_projekt.Profiles.Selection.{wanted_status, update_node_protocol_selection}
use full_revna_like_projekt.Profiles.Selection.Laws.{
  settle, selected_client, selection_settles, selection_commands, selection_repeated,
}
use full_revna_like_projekt.Subscriptions.{issue_subscription_from_profile}
use full_revna_like_projekt.Subscriptions.Laws.{NoHost, Issued, issue_subscription_cases}
use full_revna_like_projekt.Subscriptions.Formats.{render_formats}
use full_revna_like_projekt.Subscriptions.Formats.Laws.{Normalized, render_formats-Normalized}
use full_revna_like_projekt.History.{Step, Reachable}
use full_revna_like_projekt.History.Frame.{Sound}
use full_revna_like_projekt.History.Laws.{Reachable-Sound, Reachable-new_command}
use mathlib.Core.List.{reverse}

abbrev noon : String
noon = "2026-06-01T12:00:00Z"

-- A new client after one command for a node.
abbrev commanded : Client
commanded = (create_node_command noon "node_mow_02" restart_request initial).0

commanded-Reachable : Reachable commanded
commanded-Reachable =
    Reachable.then Reachable.start
      (Step.create_node_command noon "node_mow_02" restart_request initial)

Reachable-Sound_example : Sound commanded
Reachable-Sound_example = Reachable-Sound commanded commanded-Reachable

abbrev moscow_profile : ProtocolProfileRecord
moscow_profile = initial.profiles.store 0

-- Turning every profile of the node off.
selection_settles_example :
    ((selected_client noon "node_mow_02" [] initial).profiles.refs ≡ initial.profiles.refs)
    × ((selected_client noon "node_mow_02" [] initial).profiles.store 0 ≡ (
        if moscow_profile.node_id == "node_mow_02"
        then settle noon "node_mow_02" [] moscow_profile
        else moscow_profile))
    × (((selected_client noon "node_mow_02" [] initial).profiles.store 0).status ≡ (
        if moscow_profile.node_id == "node_mow_02"
        then (if includes moscow_profile.id [] then "active" else "disabled")
        else moscow_profile.status))
selection_settles_example = selection_settles noon "node_mow_02" [] initial 0 (inl refl)

selection_repeated_example :
    ((update_node_protocol_selection "later" "node_mow_02" []
        (selected_client noon "node_mow_02" [] initial)).0
      ≡ selected_client noon "node_mow_02" [] initial)
    × ((update_node_protocol_selection "later" "node_mow_02" []
          (selected_client noon "node_mow_02" [] initial)).1.queued_commands
        ≡ [])
selection_repeated_example = selection_repeated noon "node_mow_02" [] initial "later"

apply_ready_iff_example : ((readiness initial moscow_profile).apply_ready ≡ true) ↔ (
    (moscow_profile.status ≡ "active")
    × ((h : HostRecord) × Among h (values initial.hosts) × (serves moscow_profile h ≡ true))
    × ((s : SubscriptionRecord) × Among s (values initial.subscriptions)
        × (is_runtime_client moscow_profile s ≡ true)))
apply_ready_iff_example = apply_ready_iff initial moscow_profile

-- The profile of Frankfurt has no subscription, so it is stale.
abbrev frankfurt_only : StaleProfileCleanupRequest
frankfurt_only = record {
  action = "disable";
  confirmation = "CLEANUP";
  ids = "profile_trojan_xhttp" ∷ [];
}

cleanup_cases_example :
    (OnlyStale frankfurt_only initial
      × ((cleanup_stale_profiles frankfurt_only initial).1 ≡ ok (length frankfurt_only.ids)))
    ⊎ ((¬ OnlyStale frankfurt_only initial)
        × (cleanup_stale_profiles frankfurt_only initial
            ≡ (initial, throws "Only stale profiles can be cleaned up")))
cleanup_cases_example = cleanup_cases frankfurt_only initial

disable_not_delete : frankfurt_only.action ≢ "delete"
disable_not_delete e = cc

cleanup_candidates_clears_example :
    list_stale_profile_cleanup_candidates
      (cleanup_stale_profiles (all_candidates "disable" "CLEANUP" initial) initial).0
    ≡ []
cleanup_candidates_clears_example =
    cleanup_candidates_clears "disable" "CLEANUP" initial disable_not_delete

abbrev moscow_port : PortReservation
moscow_port = record { address = none; exclusive = none; port = 443; protocol = none }

-- The profile of Moscow checks a port for itself.
abbrev moscow_ports : PortCheckRequest
moscow_ports = record {
  exclude_profile_id = some "profile_stealconfig";
  node_id = "node_mow_02";
  reservations = moscow_port ∷ [];
}

port_check_iff_example : ((check_port_conflicts moscow_ports initial).allowed ≡ true) ↔ (
    (p : ProtocolProfileRecord)
    → Among p (values initial.profiles)
    → p.node_id ≡ moscow_ports.node_id
    → (r : PortReservation) → Among r moscow_ports.reservations
    → any (clashes r) p.port_reservations ≡ false)
port_check_iff_example = port_check_iff moscow_ports initial

moscow_listed : Among moscow_profile (values initial.profiles)
unfolding values
moscow_listed = inl refl

moscow_taken : any (clashes moscow_port) moscow_profile.port_reservations ≡ true
unfolding clashes get
moscow_taken = refl

abbrev mira_request : SubscriptionIssueFromProfileRequest
mira_request = record {
  config_hash = none;
  expires_at = none;
  host_id = none;
  profile_id = "profile_trojan_xhttp";
  profile_title = none;
  render_targets = none;
  user_id = "usr_mira";
}

abbrev moment : Moment
moment = record { iso = noon; first_ms = 1780315200000; second_ms = 1780315200001 }

subscriptions-Allocated : Allocated initial.subscriptions
subscriptions-Allocated = ground arith

issue_subscription_cases_example :
    ((read "profile_trojan_xhttp" initial.profiles ≡ none)
      × (issue_subscription_from_profile moment mira_request initial
          ≡ (initial, throws "Profile not found")))
    ⊎ ((profile : ProtocolProfileRecord) × (read "profile_trojan_xhttp" initial.profiles
          ≡ some profile)
        × ((NoHost mira_request profile initial
              × (issue_subscription_from_profile moment mira_request initial
                  ≡ (initial, throws "Profile has no active subscription host")))
            ⊎ Issued mira_request profile initial
                (issue_subscription_from_profile moment mira_request initial)))
issue_subscription_cases_example =
    issue_subscription_cases moment mira_request initial subscriptions-Allocated

render_formats-Normalized_example :
    Normalized (render_formats (("client", "Happ, clash") ∷ []))
    × (render_formats (("client", "Happ, clash") ∷ []) ≢ [])
render_formats-Normalized_example = render_formats-Normalized (("client", "Happ, clash") ∷ [])
