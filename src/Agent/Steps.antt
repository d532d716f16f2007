-- ===== src/Agent/Steps.antt =====
-- The cases of `applyNodeCommand` in apps/node-agent/src/runtime-runner.js: what each command does to
-- the state of the node, and the action that is left for its runtimes. A plan that is made is an
-- object.
pub mod Laws
use full_revna_like_projekt.Base.{
  String, Bool, true, false, Option, none, some, [], ◌∷◌, or_else, TextMap, lookup,
}
use full_revna_like_projekt.Base.Json.{
  Json, null, bool, num, str, obj, Fields, end, field, get, put, nullish, text_or_null,
}
use full_revna_like_projekt.Base.Reply.{Reply, ok, throws, and_then}
use full_revna_like_projekt.Agent.Checks.{member, or_null, spread_value}
use full_revna_like_projekt.Agent.CommandType.{
  Command, validate_state, apply_state, apply_firewall, apply_outbound, remove_outbound, pause,
  resume, confine, restart, drop_connections, reset_traffic, report, scan, command_text,
}
use full_revna_like_projekt.Agent.Provisioning.{
  Event, validate_started, validate_succeeded, apply_started, apply_succeeded, remove_started,
  remove_succeeded, report_started, report_succeeded, pause_requested, resume_requested,
  quarantine_requested, mode_text, ProvisioningState, EventInput, no_input, either,
  transition_provisioning_state, state_input,
}
use full_revna_like_projekt.Agent.Plans.{
  Planner, RuntimeAction, planned, bare, given, apply_action, remove_action,
}
use Prim.Native.String

-- The input of `applyNodeCommand`
pub record AgentInput : Type 0 where
  pub capabilities : Option Json
  pub dry_run : Option Bool
  pub started_at : Option String
  pub finished_at : Option String

-- `APPLY_PENDING_STATUS`
abbrev pub apply_pending_status : TextMap
apply_pending_status =
    ("xray.apply", "xray-apply-pending")
    ∷ ("hysteria2.apply", "hysteria2-apply-pending")
    ∷ ("sing-box-shadowsocks.apply", "shadowsocks-apply-pending")
    ∷ ("shadowsocks-plugin.apply", "shadowsocks-plugin-apply-pending")
    ∷ ("naive.apply", "naive-apply-pending")
    ∷ ("openvpn.apply", "openvpn-apply-pending")
    ∷ ("openvpn-shadowsocks.apply", "openvpn-shadowsocks-apply-pending")
    ∷ ("ikev2.apply", "ikev2-apply-pending")
    ∷ ("tuic.apply", "tuic-apply-pending")
    ∷ ("wireguard.apply", "wireguard-apply-pending")
    ∷ ("node-policy.apply", "node-policy-apply-pending")
    ∷ ("node-agent.restart", "node-restart-pending")
    ∷ ("node-connections.drop", "connection-drop-pending")
    ∷ ("node-traffic.reset", "node-traffic-reset-pending")
    ∷ ("ikev2.stop", "ikev2-stop-pending")
    ∷ ("naive.stop", "naive-stop-pending")
    ∷ ("xray.stop", "xray-stop-pending")
    ∷ []

-- A step of the state, through `transitionProvisioningState`
abbrev pub moved : Event → EventInput → String → ProvisioningState → Reply ProvisioningState
moved event input at s =
    transition_provisioning_state at (state_input s) event (record input { at = some at })

unfoldable pub transition_apply_state :
    ProvisioningState → Fields → String → String → Reply ProvisioningState
unfolding transition_provisioning_state
transition_apply_state s payload started_at finished_at =
    and_then
      (moved apply_started
        (record no_input {
          desired_revision = either (get "desiredRevision" payload) s.desired_revision;
        })
        started_at s)
      (λ t.
        moved apply_succeeded
          (record no_input {
            applied_revision = either (get "desiredRevision" payload) t.desired_revision;
          })
          finished_at t)

unfoldable pub transition_validate_state :
    ProvisioningState → Fields → String → String → Reply ProvisioningState
unfolding transition_provisioning_state
transition_validate_state s payload started_at finished_at =
    and_then (moved validate_started no_input started_at s) (λ t.
      moved validate_succeeded
        (record no_input {
          desired_revision = either (get "desiredRevision" payload) s.desired_revision;
        })
        finished_at t)

unfoldable pub transition_report_state :
    ProvisioningState → String → String → Reply ProvisioningState
unfolding transition_provisioning_state
transition_report_state s started_at finished_at =
    and_then (moved report_started no_input started_at s)
      (moved report_succeeded no_input finished_at)

unfoldable pub transition_remove_state :
    ProvisioningState → String → String → Reply ProvisioningState
unfolding transition_provisioning_state
transition_remove_state s started_at finished_at =
    and_then (moved remove_started no_input started_at s)
      (moved remove_succeeded no_input finished_at)

-- What a command does: the state after it, the action that is left, and the outputs.
pub record Done : Type 0 where
  pub next : ProvisioningState
  pub action : Option RuntimeAction
  pub outputs : Fields

abbrev pub pending : String → Option RuntimeAction → String
pending other none = other
pending other (some a) = or_else (lookup a.kind apply_pending_status) other

abbrev pub dry_run_of : AgentInput → Json
dry_run_of input = bool (or_else input.dry_run true)

-- The outputs of a restart and of a reset of the traffic
abbrev pub restart_outputs : AgentInput → Command → String → ProvisioningState → Fields → Fields
restart_outputs input command status s payload = field "command" (str (command_text command)) (
    field "dryRun" (dry_run_of input) (
      field "implementationStatus" (str status) (
        field "mode" (str (mode_text s.mode))
          (field "reason" (or_null (get "reason" payload)) end))))

abbrev pub runtime_outputs : AgentInput → Command → String → Fields
runtime_outputs input command status =
    field "command" (str (command_text command))
      (field "dryRun" (dry_run_of input) (field "implementationStatus" (str status) end))

-- `if (!runtimeAction) throw …`, then the rest
abbrev pub with_action : Command → Option RuntimeAction → (RuntimeAction → Reply Done) → Reply Done
with_action command none rest =
    throws
      (String.◌++◌ (command_text command) " has no live runtime backend on this node-agent build")
with_action command (some a) rest = rest a

-- The inputs of the events, and the outputs, of the single commands
abbrev pub pause_input : Fields → EventInput
pause_input payload = record no_input { mode = get "status" payload }

abbrev pub pause_outputs : Fields → ProvisioningState → Fields
pause_outputs payload t =
    field "mode" (str (mode_text t.mode)) (field "reason" (or_null (get "reason" payload)) end)

abbrev pub resume_input : Fields → EventInput
resume_input payload = record no_input { clear_quarantine = get "clearQuarantine" payload }

abbrev pub resume_outputs : Fields → ProvisioningState → Fields
resume_outputs payload t =
    field "mode" (str (mode_text t.mode))
      (field "clearQuarantine" (or_else (nullish (get "clearQuarantine" payload)) (bool false)) end)

abbrev pub confine_input : Option Json → Fields → EventInput
confine_input id payload = record no_input {
  command_id = text_or_null id;
  reason = text_or_null (get "reason" payload);
}

abbrev pub confine_outputs : Fields → ProvisioningState → Fields
confine_outputs payload t =
    given (("mode", some (str (mode_text t.mode))) ∷ ("reason", get "reason" payload) ∷ [])

abbrev pub validate_outputs : ProvisioningState → Fields
validate_outputs t =
    field "desiredRevision" (or_null t.desired_revision)
      (field "implementationStatus" (str "validated") end)

abbrev pub report_outputs : AgentInput → ProvisioningState → Fields
report_outputs input t =
    field "capabilities" (obj (spread_value input.capabilities))
      (field "implementationStatus" (str "reported") end)

abbrev pub scan_outputs : Fields
scan_outputs = field "conflictsFound" (num 0) (field "implementationStatus" (str "scanned") end)

abbrev pub drop_done : AgentInput → ProvisioningState → Json → Done
drop_done input s plan = record {
  next = s;
  action = some (planned "node-connections.drop" plan);
  outputs = given (
      ("command", some (str (command_text drop_connections)))
      ∷ ("dryRun", some (dry_run_of input))
      ∷ ("implementationStatus", some (str "connection-drop-pending"))
      ∷ ("ip", member "ip" (some plan))
      ∷ ("userId", member "userId" (some plan))
      ∷ ("subscriptionId", member "subscriptionId" (some plan))
      ∷ ("reason", member "reason" (some plan))
      ∷ []);
}

-- A step of the state that leaves no action
abbrev pub quietly : (ProvisioningState → Fields) → ProvisioningState → Reply Done
quietly outputs t = ok (record { next = t; action = none; outputs = outputs t })

abbrev pub remove_done : AgentInput → RuntimeAction → ProvisioningState → Done
remove_done input a t = record {
  next = t;
  action = some a;
  outputs = runtime_outputs input remove_outbound (pending "live-listener-stop-pending" (some a));
}

module _ (plans : Planner) (input : AgentInput) (started_at finished_at : String) where
  abbrev pub apply_with : Command → ProvisioningState → Fields → RuntimeAction → Reply Done
  apply_with command s payload a =
      and_then (transition_apply_state s payload started_at finished_at) (λ t. ok (record {
        next = t;
        action = some a;
        outputs =
            field "appliedRevision" (or_null t.applied_revision)
              (runtime_outputs input command (pending "live-listener-pending" (some a)));
      }))

  -- The cases "desired-state.apply", "firewall.plan.apply" and "outbound.apply"
  unfoldable pub apply_something : Command → ProvisioningState → Option Json → Fields → Reply Done
  unfolding apply_action transition_apply_state
  apply_something command s id payload =
      and_then (apply_action plans id payload command)
        (λ action. with_action command action (apply_with command s payload))

  -- The `switch` of `applyNodeCommand`, for the identifier, the node and the payload of an envelope
  unfoldable pub carry_out :
      Command → ProvisioningState → Option Json → Option Json → Fields → Reply Done
  unfolding apply_something transition_validate_state transition_report_state
      transition_remove_state remove_action spread_value
  carry_out pause s id node_id payload =
      and_then (moved pause_requested (pause_input payload) finished_at s)
        (quietly (pause_outputs payload))
  carry_out resume s id node_id payload =
      and_then (moved resume_requested (resume_input payload) finished_at s)
        (quietly (resume_outputs payload))
  carry_out confine s id node_id payload =
      and_then (moved quarantine_requested (confine_input id payload) finished_at s)
        (quietly (confine_outputs payload))
  carry_out restart s id node_id payload = ok (record {
    next = s;
    action = some (bare "node-agent.restart");
    outputs = restart_outputs input restart "node-restart-pending" s payload;
  })
  carry_out drop_connections s id node_id payload =
      and_then (plans "node-connections.drop" (put "node_id" (or_else node_id null) payload))
        (λ plan. ok (drop_done input s plan))
  carry_out reset_traffic s id node_id payload = ok (record {
    next = s;
    action = some (bare "node-traffic.reset");
    outputs = restart_outputs input reset_traffic "node-traffic-reset-pending" s payload;
  })
  carry_out validate_state s id node_id payload =
      and_then (transition_validate_state s payload started_at finished_at)
        (quietly validate_outputs)
  carry_out apply_state s id node_id payload = apply_something apply_state s id payload
  carry_out apply_firewall s id node_id payload = apply_something apply_firewall s id payload
  carry_out apply_outbound s id node_id payload = apply_something apply_outbound s id payload
  carry_out remove_outbound s id node_id payload =
      and_then (transition_remove_state s started_at finished_at)
        (λ t. ok (remove_done input (remove_action plans id payload) t))
  carry_out report s id node_id payload =
      and_then (transition_report_state s started_at finished_at) (quietly (report_outputs input))
  carry_out scan s id node_id payload =
      ok (record { next = s; action = none; outputs = scan_outputs })
