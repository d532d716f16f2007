-- ===== src/Examples/Agents.antt =====
-- The theorems on the agent of a node and on the registry of protocols, at concrete states.
use full_revna_like_projekt.Base.{
  ℕ, String, ◌≡◌, refl, ◌↔◌, Bool, true, false, not, none, some, List, [], ◌∷◌, ◌==◌, All, map,
  filter,
}
use full_revna_like_projekt.Base.Text.{trim, to_lower_case, strip}
use full_revna_like_projekt.Base.Json.{
  Json, null, num, str, arr, obj, nil, cons, Fields, end, field, get,
}
use full_revna_like_projekt.Base.Reply.{ok, and_then}
use full_revna_like_projekt.Agent.Checks.{filled_text, require_string, assert_known}
use full_revna_like_projekt.Agent.Provisioning.{
  active, quarantined, idle, applying, apply_started, resume_requested, ProvisioningState, no_input,
  create_provisioning_state, transition_provisioning_state, state_input,
}
use full_revna_like_projekt.Agent.Provisioning.Diagram.{Edge, LeadsTo}
use full_revna_like_projekt.Agent.Provisioning.Invariant.{
  Coherent, fresh_input, create_fresh-Coherent,
}
use full_revna_like_projekt.Agent.Provisioning.Traces.{
  Request, run, confine_request, Confined, Recovered, recovery, create_run-Coherent,
  transition_iff_Edge, quarantine-holds, recovery-returns,
}
use full_revna_like_projekt.Agent.Secrets.{key_violations, assert_no_inline_secrets}
use full_revna_like_projekt.Agent.Secrets.Laws.{Leak, assert_no_inline_secrets_iff}
use full_revna_like_projekt.Agent.Commands.{envelope_errors, create_command_envelope}
use full_revna_like_projekt.Agent.Commands.Laws.{IsEnvelope, envelope_errors_iff}
use full_revna_like_projekt.Agent.Commands.Create.{create_command_envelope-again}
use full_revna_like_projekt.Registry.Ports.{
  id_of, undefined_id, ReservationInput, Reservation, detect_exclusive_bind_port_conflicts,
}
use full_revna_like_projekt.Registry.Ports.Laws.{Apart}
use full_revna_like_projekt.Registry.Adapters.{
  AdapterInput, Adapter, function, absent, create_protocol_registry,
}
use full_revna_like_projekt.Registry.Adapters.Laws.{IsRegistry, create_protocol_registry_iff}
use full_revna_like_projekt.Agent.Conflicts.{detect_port_conflicts, port_conflicts}
use full_revna_like_projekt.Agent.Conflicts.Laws.{
  Bindable, summary, null_summary, is_in_use, bare_item, port_conflicts_iff,
  detect_port_conflicts-agree,
}
use full_revna_like_projekt.Agent.Firewall.{plan_errors}
use full_revna_like_projekt.Agent.Firewall.Plans.{IsFirewallPlan, plan_errors_iff}
use full_revna_like_projekt.Agent.Steps.Laws.{Settled}
use full_revna_like_projekt.Agent.Runner.{Clock}
use full_revna_like_projekt.Agent.Rounds.{Agent, Setting, Fetched, run_rounds}
use full_revna_like_projekt.Agent.Rounds.Laws.{Handled, handle_command-Handled, run_rounds-Settled}

-- A node that has just been created
abbrev fresh : ProvisioningState
fresh = record {
  node_id = "node-1";
  mode = active;
  phase = idle;
  revision = 0;
  desired_revision = none;
  applied_revision = none;
  paused_at = none;
  updated_at = "t0";
  quarantine = none;
  last_error = none;
}

abbrev FreshCreated : Type 0
FreshCreated = create_provisioning_state "t0" (fresh_input "node-1" none) ≡ ok fresh

fresh_is_created : FreshCreated
unfolding create_provisioning_state trim
fresh_is_created = refl

fresh-Coherent : Coherent fresh
fresh-Coherent = create_fresh-Coherent "t0" "node-1" none fresh fresh_is_created

abbrev requests : List Request
requests = confine_request "t1" ∷ []

create_run-Coherent_example : Coherent (run fresh requests)
create_run-Coherent_example = create_run-Coherent "t0" "node-1" none fresh requests fresh_is_created

transition_iff_Edge_example :
    LeadsTo
      (transition_provisioning_state "t1" (state_input fresh) apply_started no_input)
      active
      applying
    ↔ Edge no_input active idle apply_started active applying
transition_iff_Edge_example =
    transition_iff_Edge "t1" fresh apply_started no_input active applying fresh-Coherent

-- The node in quarantine, and requests that do not lift it
abbrev confined : ProvisioningState
confined = record fresh {
  mode = quarantined;
  revision = 1;
  updated_at = "t1";
  quarantine = some (record { reason = "manual"; command_id = none; at = "t1" });
}

confined-Coherent : Coherent confined
confined-Coherent = record {
  named = fresh-Coherent.named;
  desired_known = refl;
  applied_known = refl;
  quarantine_recorded = refl;
  pause_recorded = (λ e. absurd (cc e), λ e. absurd (cc e));
  works_active = λ e. absurd (cc e);
  failure_recorded = λ e. absurd (cc e);
}

abbrev attempts : List Request
attempts =
    record { event = apply_started; input = no_input; now = "t2" }
    ∷ record { event = resume_requested; input = no_input; now = "t3" }
    ∷ []

quarantine-holds_example : Confined (run confined attempts) none
quarantine-holds_example =
    quarantine-holds confined attempts confined-Coherent refl
      (λ e. absurd (cc e), (λ e h. absurd (cc h), tt))

recovery-returns_example : Recovered (num 7) confined (run confined (recovery (num 7) "t4"))
recovery-returns_example = recovery-returns confined (num 7) "t4" confined-Coherent refl

-- A payload with a credential of a runtime
abbrev credentials : Json
credentials =
    obj
      (field "payload" (obj (field "xrayConfig" (obj (field "private_key" (str "k") end)) end)) end)

assert_no_inline_secrets_iff_example :
    (assert_no_inline_secrets true credentials ≡ ok tt) ↔ (¬ Leak true "$" credentials)
assert_no_inline_secrets_iff_example = assert_no_inline_secrets_iff true credentials

-- A command to pause a node, as an envelope
abbrev is_date : String → Bool
is_date s = not (s == "")

abbrev pause_envelope : Fields
pause_envelope = field "modelVersion" (str "lumen.node-agent.command-envelope.v1") (
    field "id" (str "cmd_1") (
      field "nodeId" (str "node-1") (
        field "command" (str "node.pause") (
          field "idempotencyKey" (str "cmd_1:node-1") (
            field "sequence" (num 0) (
              field "issuedAt" (str "t1") (
                field "expiresAt" null (
                  field "payload" (obj end) (
                    field "source"
                      (obj (field "actor" (str "control-plane") (field "reason" null end)))
                      end)))))))))

envelope_errors_iff_example :
    (envelope_errors is_date pause_envelope ≡ []) ↔ IsEnvelope is_date pause_envelope
envelope_errors_iff_example = envelope_errors_iff is_date pause_envelope

pause_created : create_command_envelope is_date "t1" pause_envelope ≡ ok pause_envelope
unfolding create_command_envelope assert_no_inline_secrets key_violations to_lower_case strip get
    require_string filled_text trim assert_known
pause_created = refl

create_command_envelope-again_example :
    create_command_envelope is_date "t9" pause_envelope ≡ ok pause_envelope
create_command_envelope-again_example =
    create_command_envelope-again is_date "t1" "t9" pause_envelope pause_envelope pause_created

-- Two listeners on one port
abbrev listener : String → ReservationInput
listener owner = record {
  owner_id = id_of owner;
  address = none;
  port = some (num 443);
  protocol = some "TCP";
  purpose = none;
  exclusive = none;
}

abbrev reserved : Reservation
reserved = record {
  owner_id = id_of "a";
  address = "0.0.0.0";
  port = 443;
  protocol = "tcp";
  purpose = "outbound-listener";
  exclusive = true;
}

port_conflicts_iff_example :
    (port_conflicts none (reserved ∷ []) ≡ [])
    ↔ (Apart (reserved ∷ []) × All (Bindable none) (reserved ∷ []))
port_conflicts_iff_example = port_conflicts_iff none (reserved ∷ [])

abbrev both_listeners : List ReservationInput
both_listeners = listener "a" ∷ record (listener "b") { owner_id = undefined_id } ∷ []

detect_port_conflicts-agree_example :
    and_then
      (detect_port_conflicts both_listeners none)
      (λ cs. ok (map null_summary (filter is_in_use cs)))
    ≡ and_then
        (detect_exclusive_bind_port_conflicts (map bare_item both_listeners))
        (λ cs. ok (map summary cs))
detect_port_conflicts-agree_example = detect_port_conflicts-agree both_listeners none

-- The adapter of a protocol
abbrev vless : AdapterInput String
vless = record {
  protocol = some (str "vless");
  display_name = some (str "VLESS");
  status = some (str "stable");
  capabilities = none;
  required_credential_refs = none;
  validate_config = function "validateVless";
  plan_outbound = absent;
}

abbrev vless_adapter : Adapter String
vless_adapter = record {
  protocol = "vless";
  display_name = "VLESS";
  status = "stable";
  capabilities = [];
  required_credential_refs = [];
  validate_config = some "validateVless";
  plan_outbound = none;
}

create_protocol_registry_iff_example :
    (create_protocol_registry (vless ∷ []) ≡ ok (vless_adapter ∷ []))
    ↔ IsRegistry (vless ∷ []) (vless_adapter ∷ [])
create_protocol_registry_iff_example =
    create_protocol_registry_iff (vless ∷ []) (vless_adapter ∷ [])

-- An agent whose runtimes do nothing
abbrev setting : Setting ℕ
setting = record {
  is_date = is_date;
  plans = λ kind fields. ok (obj fields);
  effects = record {
    perform = λ w a policy. (w, ok end);
    apply_policy = λ w dry plan. (w, ok end);
  };
  capabilities = none;
  dry_run = false;
  live_diagnostic = false;
}

abbrev agent : Agent ℕ
agent = record { world = 0; state = fresh }

abbrev clock : Clock
clock = record { started = "t2"; issued = "t2"; reported = "t3" }

abbrev fetched : Fetched
fetched = (pause_envelope, clock)

agent-Settled : Settled fresh
agent-Settled = (fresh-Coherent, refl)

handle_command-Handled_example : Handled setting fetched agent
handle_command-Handled_example = handle_command-Handled setting fetched agent agent-Settled

run_rounds-Settled_example :
    (b : Agent ℕ) × (run_rounds setting (none ∷ some fetched ∷ []) agent ≡ ok b) × Settled b.state
run_rounds-Settled_example =
    run_rounds-Settled setting (none ∷ some fetched ∷ []) agent agent-Settled

-- A plan with one rule
abbrev firewall_plan : Fields
firewall_plan = field "modelVersion" (str "lumen.node-agent.firewall-plan.v1") (
    field "id" (str "fw_1") (
      field "nodeId" (str "node-1") (
        field "backend" (str "nftables") (
          field "defaultInboundPolicy" (str "deny") (
            field "defaultOutboundPolicy" (str "allow") (
              field "rules"
                (arr (
                  cons
                    (obj (
                      field "id" (str "allow-a") (
                        field "action" (str "allow") (
                          field "direction" (str "ingress") (
                            field "protocol" (str "tcp") (
                              field "ports" (arr (cons (num 443) nil))
                                (field "cidrs" (arr (cons (str "0.0.0.0/0") nil)) end)))))))
                    nil))
                end))))))

plan_errors_iff_example : (plan_errors firewall_plan ≡ []) ↔ IsFirewallPlan firewall_plan
plan_errors_iff_example = plan_errors_iff firewall_plan
