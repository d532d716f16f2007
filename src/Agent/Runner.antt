-- ===== src/Agent/Runner.antt =====
-- `applyNodeCommand` of apps/node-agent/src/runtime-runner.js: a command that is no envelope fails, one
-- that the mode of the node does not allow is skipped, and the others are carried out.
pub mod Laws
use full_revna_like_projekt.Base.{String, Bool, Option, none, some, [], ◌∷◌, or_else}
use full_revna_like_projekt.Base.Json.{
  Json, num, str, arr, obj, nil, Fields, end, field, get, put, nullish, to_string,
}
use full_revna_like_projekt.Base.Reply.{Reply, ok, throws, and_then}
use full_revna_like_projekt.Agent.Checks.{or_null, spread_value}
use full_revna_like_projekt.Agent.CommandType.{Command, command_type}
use full_revna_like_projekt.Agent.Commands.{
  command_result_version, create_command_envelope, create_command_result, ResultInput,
}
use full_revna_like_projekt.Agent.Provisioning.{
  Mode, mode_text, ProvisioningState, StateInput, create_provisioning_state, state_input,
}
use full_revna_like_projekt.Agent.Provisioning.Allowance.{command_allowance_for_state}
use full_revna_like_projekt.Agent.Plans.{Planner, RuntimeAction, first_of, given}
use Prim.Native.String
use full_revna_like_projekt.Agent.Steps.{AgentInput, Done, carry_out}

-- What `new Date().toISOString()` gives where the times of the input are left out, where an envelope
-- has no time of issue, and where a failure is reported.
pub record Clock : Type 0 where
  pub started : String
  pub issued : String
  pub reported : String

-- What `applyNodeCommand` gives.
pub record Applied : Type 0 where
  pub status : String
  pub state : Option ProvisioningState
  pub result_json : Fields
  pub error_code : Option String
  pub error_message : Option String
  pub runtime_action : Option RuntimeAction

-- `${v}` of a value that may be missing
abbrev pub id_text : Option Json → String
id_text none = "undefined"
id_text (some v) = to_string v

-- `commandResponseToEnvelope(command)`
unfoldable pub command_response_to_envelope : (String → Bool) → String → Fields → Reply Fields
unfolding create_command_envelope
command_response_to_envelope is_date now command =
    let node_id = first_of (get "node_id" command) (get "nodeId" command) in
    let type = first_of (get "command_type" command) (get "command" command) in
    create_command_envelope is_date now (
      given (
        ("id", get "id" command)
        ∷ ("nodeId", node_id)
        ∷ ("command", type)
        ∷ (
          "idempotencyKey",
          some (
              or_else (nullish (get "idempotency_key" command)) (
                str
                  (String.◌++◌ (id_text (get "id" command)) (String.◌++◌ ":" (id_text node_id))))),
        )
        ∷ ("sequence", some (or_else (nullish (get "sequence" command)) (num 0)))
        ∷ (
          "issuedAt",
          some (
              or_else (nullish (first_of (get "created_at" command) (get "issuedAt" command)))
                (str now)),
        )
        ∷ (
          "expiresAt",
          some (or_null (first_of (get "expires_at" command) (get "expiresAt" command))),
        )
        ∷ (
          "payload",
          some (
              or_else (nullish (first_of (get "payload_json" command) (get "payload" command)))
                (obj end)),
        )
        ∷ (
          "source",
          some (
              or_else (nullish (get "source" command))
                (obj (given (("actor", some (str "control-plane")) ∷ ("reason", type) ∷ [])))),
        )
        ∷ []))

-- `failedCommandResult(command, error, code)`
unfoldable pub failed_command_result : String → Fields → String → String → Applied
failed_command_result now command message code = record {
  status = "failed";
  state = none;
  result_json = field "modelVersion" (str command_result_version) (
      field "commandId" (or_null (get "id" command)) (
        field "nodeId" (or_null (first_of (get "node_id" command) (get "nodeId" command))) (
          field "command" (or_null (first_of (get "command_type" command) (get "command" command)))
            (field "status" (str "failed") (
              field "finishedAt" (str now) (
                field "outputs" (obj end) (
                  field "conflicts" (arr nil) (
                    field "error"
                      (obj (field "code" (str code) (field "message" (str message) end)))
                      end))))))));
  error_code = some code;
  error_message = some message;
  runtime_action = none;
}

-- `startedAt` and `finishedAt`
abbrev pub started_of : AgentInput → Clock → String
started_of input clock = or_else input.started_at clock.started

abbrev pub finished_of : AgentInput → Clock → String
finished_of input clock = or_else input.finished_at (started_of input clock)

-- `envelope.payload` of an envelope that has been created
abbrev pub payload_of : Fields → Fields
payload_of e = spread_value (get "payload" e)

-- The `switch`, with its default
abbrev pub carry_out_known :
    Option Command
    → Planner
    → AgentInput
    → String
    → String
    → Fields
    → ProvisioningState
    → Reply Done
carry_out_known none plans input started_at finished_at e s =
    throws (String.◌++◌ "Unsupported command: " (id_text (get "command" e)))
carry_out_known (some c) plans input started_at finished_at e s =
    carry_out plans input started_at finished_at c s (get "id" e) (get "nodeId" e) (payload_of e)

-- The result of a command that has been carried out
abbrev pub result_of_done : AgentInput → Clock → Done → ResultInput
result_of_done input clock d = record {
  status = some (str "succeeded");
  started_at = some (str (started_of input clock));
  finished_at = some (str (finished_of input clock));
  outputs = some (obj (put "stateRevision" (num d.next.revision) d.outputs));
  conflicts = none;
  error = none;
}

-- What is given back: the failure where something has thrown.
abbrev pub reported : String → Fields → Reply (Done × Fields) → Applied
reported now command (throws m) = failed_command_result now command m "command_apply_failed"
reported now command (ok (d, result)) = record {
  status = "succeeded";
  state = some d.next;
  result_json = result;
  error_code = none;
  error_message = none;
  runtime_action = d.action;
}

-- The part of `applyNodeCommand` that catches errors
unfoldable pub attempt :
    (String → Bool) → Planner → AgentInput → Clock → Fields → Fields → ProvisioningState → Applied
unfolding carry_out command_type create_command_result failed_command_result
attempt is_date plans input clock command e s = reported clock.reported command (
    and_then
      (carry_out_known (command_type (get "command" e)) plans input (started_of input clock)
        (finished_of input clock) e s)
      (λ d.
        and_then
          (create_command_result is_date clock.reported (obj e) (result_of_done input clock d))
          (λ result. ok (d, result))))

-- The result of a command that is not allowed
abbrev pub result_of_refusal : AgentInput → Clock → Mode → String → ResultInput
result_of_refusal input clock mode reason = record {
  status = some (str "skipped");
  started_at = some (str (started_of input clock));
  finished_at = some (str (finished_of input clock));
  outputs = some (obj (field "reason" (str reason) (field "mode" (str (mode_text mode)) end)));
  conflicts = none;
  error = none;
}

abbrev pub skip : ProvisioningState → String → Fields → Applied
skip s reason result = record {
  status = "skipped";
  state = some s;
  result_json = result;
  error_code = some "command_not_allowed";
  error_message = some reason;
  runtime_action = none;
}

-- A command that is not allowed is skipped, and the state stays.
unfoldable pub attempt_allowed :
    (String → Bool)
    → Planner
    → AgentInput
    → Clock
    → Fields
    → Fields
    → ProvisioningState
    → Option String
    → Reply Applied
unfolding attempt create_command_result
attempt_allowed is_date plans input clock command e s none =
    ok (attempt is_date plans input clock command e s)
attempt_allowed is_date plans input clock command e s (some reason) =
    and_then
      (create_command_result is_date clock.reported (obj e)
        (result_of_refusal input clock s.mode reason))
      (λ result. ok (skip s reason result))

-- What follows where the envelope of the command has been made, or has thrown
abbrev pub with_envelope :
    (String → Bool)
    → Planner
    → AgentInput
    → Clock
    → Fields
    → StateInput
    → Reply Fields
    → Reply Applied
with_envelope is_date plans input clock command current (throws m) =
    ok (failed_command_result clock.reported command m "invalid_command_envelope")
with_envelope is_date plans input clock command current (ok e) =
    and_then (create_provisioning_state clock.started current) (λ s.
      and_then (command_allowance_for_state clock.started (obj e) (state_input s))
        (attempt_allowed is_date plans input clock command e s))

-- `applyNodeCommand(command, currentState, input)`
unfoldable pub apply_node_command :
    (String → Bool) → Planner → AgentInput → Clock → Fields → StateInput → Reply Applied
unfolding command_response_to_envelope failed_command_result create_provisioning_state
    command_allowance_for_state attempt_allowed
apply_node_command is_date plans input clock command current =
    with_envelope is_date plans input clock command current
      (command_response_to_envelope is_date clock.issued command)
