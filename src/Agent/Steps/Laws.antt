-- ===== src/Agent/Steps/Laws.antt =====
-- The state in which a command leaves the node, and which commands leave an action
-- (apps/node-agent/src/runtime-runner.js).
use full_revna_like_projekt.Base.{
  String, ◌≡◌, refl, Bool, true, false, Option, none, some, arith, is_some,
}
use full_revna_like_projekt.Base.Json.{Json, Fields, get}
use full_revna_like_projekt.Base.Reply.{
  Reply, ok, and_then, Gives, Gives-ok, Gives-throws, Gives-and_then,
}
use full_revna_like_projekt.Agent.CommandType.{
  Command, validate_state, apply_state, apply_firewall, apply_outbound, remove_outbound, pause,
  resume, confine, restart, drop_connections, reset_traffic, report, scan, is_mutating,
}
use full_revna_like_projekt.Agent.Provisioning.{
  Event, validate_started, validate_succeeded, apply_started, apply_succeeded, remove_started,
  remove_succeeded, report_started, report_succeeded, pause_requested, resume_requested,
  quarantine_requested, idle, ProvisioningState, EventInput, no_input, either, dispatch,
}
use full_revna_like_projekt.Agent.Provisioning.Invariant.{
  Coherent, dispatch-Coherent, transition-dispatch,
}
use full_revna_like_projekt.Agent.Plans.{Planner, RuntimeAction, apply_action, remove_action}
use full_revna_like_projekt.Agent.Steps.{
  AgentInput, Done, moved, transition_apply_state, transition_validate_state,
  transition_report_state, transition_remove_state, with_action, apply_with, apply_something,
  carry_out, quietly, pause_input, pause_outputs, resume_input, resume_outputs, confine_input,
  confine_outputs, validate_outputs, report_outputs, drop_done, remove_done,
}

-- The node is between two commands.
abbrev pub Settled : ProvisioningState → Type 0
Settled s = Coherent s × (s.phase ≡ idle)

-- The events after which a node is idle
abbrev ends : Event → Bool
ends validate_succeeded = true
ends apply_succeeded = true
ends remove_succeeded = true
ends report_succeeded = true
ends pause_requested = true
ends resume_requested = true
ends quarantine_requested = true
ends _ = false

dispatch-idle :
    (e : Event) (input : EventInput) (at : String) (s t : ProvisioningState)
    → ends e ≡ true
    → dispatch e input at s ≡ ok t
    → t.phase ≡ idle
unfolding dispatch
dispatch-idle e input at s t n h = ground arith

moved-dispatch :
    (e : Event) (input : EventInput) (at : String) (s : ProvisioningState)
    → Coherent s
    → moved e input at s ≡ dispatch e (record input { at = some at }) at s
moved-dispatch e input at s c = transition-dispatch at s e (record input { at = some at }) c

moved-Coherent :
    (e : Event) (input : EventInput) (at : String) (s : ProvisioningState)
    → Coherent s
    → Gives Coherent (moved e input at s)
moved-Coherent e input at s c =
    rw (moved-dispatch e input at s c)
      (λ t h. dispatch-Coherent e (record input { at = some at }) at s t c h)

moved-Settled :
    (e : Event) (input : EventInput) (at : String) (s : ProvisioningState)
    → ends e ≡ true
    → Coherent s
    → Gives Settled (moved e input at s)
moved-Settled e input at s n c = rw (moved-dispatch e input at s c) (λ t h. (
  dispatch-Coherent e (record input { at = some at }) at s t c h,
  dispatch-idle e (record input { at = some at }) at s t n h,
))

-- Two steps of the state, of which the second ends the work
twice-Settled :
    (e f : Event) (input : EventInput) (later : ProvisioningState → EventInput) (at end_at : String)
    (s : ProvisioningState)
    → ends f ≡ true
    → Coherent s
    → Gives Settled (and_then (moved e input at s) (λ u. moved f (later u) end_at u))
twice-Settled e f input later at end_at s n c =
    Gives-and_then Coherent Settled _ _ (moved-Coherent e input at s c)
      (λ u k. moved-Settled f (later u) end_at u n k)

transition_apply_state-Settled :
    (s : ProvisioningState) (payload : Fields) (at end_at : String)
    → Coherent s
    → Gives Settled (transition_apply_state s payload at end_at)
unfolding transition_apply_state
transition_apply_state-Settled s payload at end_at c =
    twice-Settled apply_started apply_succeeded
      (record no_input {
        desired_revision = either (get "desiredRevision" payload) s.desired_revision;
      })
      (λ u. record no_input {
        applied_revision = either (get "desiredRevision" payload) u.desired_revision;
      })
      at end_at s refl c

transition_validate_state-Settled :
    (s : ProvisioningState) (payload : Fields) (at end_at : String)
    → Coherent s
    → Gives Settled (transition_validate_state s payload at end_at)
unfolding transition_validate_state
transition_validate_state-Settled s payload at end_at c =
    twice-Settled validate_started validate_succeeded no_input
      (λ u. record no_input {
        desired_revision = either (get "desiredRevision" payload) s.desired_revision;
      })
      at end_at s refl c

-- The command leaves the node settled, and leaves an action only if it is a mutating command.
abbrev pub Finished : Command → Done → Type 0
Finished c d = Settled d.next × (is_some d.action ≡ true → is_mutating c ≡ true)

-- What a command without action makes of the state that it leads to
quiet :
    (c : Command) (r : Reply ProvisioningState) (outputs : ProvisioningState → Fields)
    → Gives Settled r
    → Gives (Finished c) (and_then r (quietly outputs))
quiet c r outputs g =
    Gives-and_then Settled (Finished c) r _ g
      (λ t k. Gives-ok (Finished c) _ (k, λ e. absurd (cc e)))

-- What a mutating command makes of the step before
loud {ℓ} :
    {A : Type ℓ} (c : Command) (r : Reply A) (d : A → Done)
    → is_mutating c ≡ true
    → Gives (λ a. Settled (d a).next) r
    → Gives (Finished c) (and_then r (λ a. ok (d a)))
loud c r d m g =
    Gives-and_then (λ a. Settled (d a).next) (Finished c) r _ g
      (λ a k. Gives-ok (Finished c) _ (k, λ e. m))

module _ (plans : Planner) (input : AgentInput) (at end_at : String) where
  apply_something-Finished :
      (c : Command) (s : ProvisioningState) (id : Option Json) (payload : Fields)
      → is_mutating c ≡ true
      → Coherent s
      → Gives (Finished c) (apply_something plans input at end_at c s id payload)
  unfolding apply_something
  apply_something-Finished c s id payload m k =
      Gives-and_then (λ a. Unit) (Finished c) (apply_action plans id payload c) _ (λ a e. tt)
        (λ action u. acted action)
    where
      acted :
          (action : Option RuntimeAction)
          → Gives (Finished c) (with_action c action (apply_with plans input at end_at c s payload))
      acted none = Gives-throws (Finished c) _
      acted (some a) =
          Gives-and_then Settled (Finished c) _ _
            (transition_apply_state-Settled s payload at end_at k)
            (λ t g. Gives-ok (Finished c) _ (g, λ e. m))

  pub carry_out-Finished :
      (c : Command) (s : ProvisioningState) (id node_id : Option Json) (payload : Fields)
      → Settled s
      → Gives (Finished c) (carry_out plans input at end_at c s id node_id payload)
  unfolding carry_out transition_validate_state transition_report_state transition_remove_state
  carry_out-Finished pause s id node_id payload (k, i) =
      quiet pause _ (pause_outputs payload)
        (moved-Settled pause_requested (pause_input payload) end_at s refl k)
  carry_out-Finished resume s id node_id payload (k, i) =
      quiet resume _ (resume_outputs payload)
        (moved-Settled resume_requested (resume_input payload) end_at s refl k)
  carry_out-Finished confine s id node_id payload (k, i) =
      quiet confine _ (confine_outputs payload)
        (moved-Settled quarantine_requested (confine_input id payload) end_at s refl k)
  carry_out-Finished restart s id node_id payload g = Gives-ok (Finished restart) _ (g, λ e. refl)
  carry_out-Finished drop_connections s id node_id payload g =
      loud drop_connections _ (drop_done input s) refl (λ plan e. g)
  carry_out-Finished reset_traffic s id node_id payload g =
      Gives-ok (Finished reset_traffic) _ (g, λ e. refl)
  carry_out-Finished validate_state s id node_id payload (k, i) =
      quiet validate_state _ validate_outputs
        (transition_validate_state-Settled s payload at end_at k)
  carry_out-Finished apply_state s id node_id payload (k, i) =
      apply_something-Finished apply_state s id payload refl k
  carry_out-Finished apply_firewall s id node_id payload (k, i) =
      apply_something-Finished apply_firewall s id payload refl k
  carry_out-Finished apply_outbound s id node_id payload (k, i) =
      apply_something-Finished apply_outbound s id payload refl k
  carry_out-Finished remove_outbound s id node_id payload (k, i) =
      loud remove_outbound _ (remove_done input (remove_action plans id payload)) refl
        (twice-Settled remove_started remove_succeeded no_input (λ u. no_input) at end_at s refl k)
  carry_out-Finished report s id node_id payload (k, i) =
      quiet report _ (report_outputs input)
        (twice-Settled report_started report_succeeded no_input (λ u. no_input) at end_at s refl k)
  carry_out-Finished scan s id node_id payload g =
      Gives-ok (Finished scan) _ (g, λ e. absurd (cc e))
