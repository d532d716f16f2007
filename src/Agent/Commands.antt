-- ===== src/Agent/Commands.antt =====
-- The envelopes of commands, their acknowledgements and results
-- (apps/node-agent/src/command-envelope.js). `is_date` tells for which texts `Date.parse` gives a
-- number; `now` is what `new Date().toISOString()` gives. A field that is `undefined` is one that
-- is missing, or `null` where the checks treat both the same.
pub mod Laws
pub mod Create
pub mod Replies
use full_revna_like_projekt.Base.{
  ℕ, String, Bool, true, false, not, ◌&&◌, ◌||◌, Option, none, some, List, [], ◌∷◌, ◌++◌, ◌==◌,
  if◌then◌else◌, or_else,
}
use full_revna_like_projekt.Base.Text.{join}
use full_revna_like_projekt.Base.Json.{
  Json, null, bool, num, str, arr, obj, Items, nil, Fields, end, field, get, nullish, texts,
}
use full_revna_like_projekt.Base.Reply.{Reply, ok, throws, and_then, unless}
use full_revna_like_projekt.Agent.Checks.{
  require_string, assert_known, is_known, member, or_null, spread_value,
}
use full_revna_like_projekt.Agent.CommandType.{
  desired_state_validate, desired_state_apply, firewall_plan_apply, outbound_apply, outbound_remove,
  node_pause, node_resume, node_quarantine, node_restart, node_connections_drop, node_traffic_reset,
  capabilities_report, conflict_scan,
}
use full_revna_like_projekt.Agent.Secrets.{assert_no_inline_secrets}
use Prim.Native.String

abbrev pub command_envelope_version : String
command_envelope_version = "lumen.node-agent.command-envelope.v1"

abbrev pub command_ack_version : String
command_ack_version = "lumen.node-agent.command-ack.v1"

abbrev pub command_result_version : String
command_result_version = "lumen.node-agent.command-result.v1"

-- `KNOWN_COMMAND_TYPES`
abbrev pub known_command_types : List String
known_command_types =
    desired_state_validate ∷ desired_state_apply ∷ firewall_plan_apply ∷ outbound_apply
    ∷ outbound_remove ∷ node_pause ∷ node_resume ∷ node_quarantine ∷ node_restart
    ∷ node_connections_drop ∷ node_traffic_reset ∷ capabilities_report ∷ conflict_scan ∷ []

abbrev pub command_ack_statuses : List String
command_ack_statuses = "accepted" ∷ "rejected" ∷ "deferred" ∷ []

abbrev pub command_result_statuses : List String
command_result_statuses = "succeeded" ∷ "failed" ∷ "cancelled" ∷ "skipped" ∷ []

-- `v === text`
abbrev pub is_text : Option Json → String → Bool
is_text (some (str s)) text = s == text
is_text _ text = false

abbrev pub failing : Bool → String → List String
failing true message = message ∷ []
failing false message = []

-- A text that is no date
abbrev pub is_undated : (String → Bool) → Option Json → Bool
is_undated is_date (some (str s)) = not (is_date s)
is_undated is_date _ = false

-- What `assertIsoDate` adds to `errors`
unfoldable pub assert_iso_date : (String → Bool) → Option Json → String → List String
assert_iso_date is_date v path =
    require_string v path
    ++ failing (is_undated is_date v) (String.◌++◌ path " must be an ISO-compatible timestamp")

-- `v !== undefined && typeof v !== "boolean"`
abbrev pub is_no_flag : Option Json → Bool
is_no_flag none = false
is_no_flag (some (bool b)) = false
is_no_flag (some _) = true

-- What `assertLifecyclePayload` adds to `errors`
unfoldable pub assert_lifecycle_payload : Option Json → Fields → List String
assert_lifecycle_payload command payload =
    (if is_text command node_quarantine
      then require_string (get "reason" payload) "payload.reason"
      else [])
    ++ failing (is_text command node_resume && is_no_flag (get "clearQuarantine" payload))
        "payload.clearQuarantine must be a boolean when provided"

-- `!Number.isInteger(v) || v < 0`
abbrev pub is_no_sequence : Option Json → Bool
is_no_sequence (some (num n)) = false
is_no_sequence _ = true

abbrev pub payload_errors : Option Json → Option Json → List String
payload_errors command (some (obj payload)) = assert_lifecycle_payload command payload
payload_errors command _ = "payload must be an object" ∷ []

-- The date of expiry is checked where it is there.
abbrev pub expiry_errors : (String → Bool) → Option Json → List String
expiry_errors is_date none = []
expiry_errors is_date (some v) = assert_iso_date is_date (some v) "expiresAt"

-- `inlineSecretOptions(command)`
abbrev pub allows_credentials : Option Json → Bool
allows_credentials command = is_text command outbound_apply

abbrev pub caught : Reply {0} Unit → List String
caught (ok u) = []
caught (throws message) = message ∷ []

-- `validateCommandEnvelope(envelope).errors`; `ok` tells that there are none.
unfoldable pub envelope_errors : (String → Bool) → Fields → List String
unfolding assert_iso_date assert_lifecycle_payload
envelope_errors is_date e =
    failing (not (is_text (get "modelVersion" e) command_envelope_version))
      (String.◌++◌ "modelVersion must be " command_envelope_version)
    ++ (require_string (get "id" e) "id"
        ++ (require_string (get "nodeId" e) "nodeId"
            ++ (require_string (get "idempotencyKey" e) "idempotencyKey"
                ++ (assert_known (get "command" e) known_command_types "command"
                    ++ (assert_iso_date is_date (get "issuedAt" e) "issuedAt"
                        ++ (expiry_errors is_date (nullish (get "expiresAt" e))
                            ++ (failing (is_no_sequence (get "sequence" e))
                                  "sequence must be a non-negative integer"
                                ++ (payload_errors (get "command" e) (get "payload" e)
                                    ++ caught (
                                        assert_no_inline_secrets
                                          (allows_credentials (get "command" e)) (obj e))))))))))

unfoldable pub validate_command_envelope : (String → Bool) → Json → List String
unfolding envelope_errors
validate_command_envelope is_date (obj e) = envelope_errors is_date e
validate_command_envelope is_date _ = "command envelope must be an object" ∷ []

-- The object that `createCommandEnvelope` makes from its input
unfoldable pub envelope_of : String → Fields → Fields
unfolding spread_value
envelope_of now input = field "modelVersion" (str command_envelope_version) (
    field "id" (or_else (get "id" input) null) (
      field "nodeId" (or_else (get "nodeId" input) null) (
        field "command" (or_else (get "command" input) null) (
          field "idempotencyKey" (or_else (get "idempotencyKey" input) null) (
            field "sequence" (or_else (nullish (get "sequence" input)) (num 0)) (
              field "issuedAt" (or_else (nullish (get "issuedAt" input)) (str now)) (
                field "expiresAt" (or_null (get "expiresAt" input)) (
                  field "payload" (obj (spread_value (get "payload" input))) (
                    field "source"
                      (obj (
                        field "actor"
                          (or_else (nullish (member "actor" (get "source" input)))
                            (str "control-plane"))
                          (field "reason" (or_null (member "reason" (get "source" input))) end)))
                      end)))))))))

-- `if (errors.length > 0) throw new Error(prefix + errors.join("; "))`, then the rest.
abbrev pub without_errors : {A : Type 0} → List String → String → Reply A → Reply A
without_errors [] prefix rest = rest
without_errors (e ∷ es) prefix rest = throws (String.◌++◌ prefix (join "; " (e ∷ es)))

unfoldable pub create_command_envelope : (String → Bool) → String → Fields → Reply Fields
unfolding envelope_errors envelope_of
create_command_envelope is_date now input =
    and_then (assert_no_inline_secrets (allows_credentials (get "command" input)) (obj input)) (λ u.
      without_errors (envelope_errors is_date (envelope_of now input)) "Invalid command envelope: "
        (ok (envelope_of now input)))

-- The input of `createCommandAck`
pub record AckInput : Type 0 where
  pub status : Option Json
  pub reason : Option Json
  pub received_at : Option Json
  pub current_mode : Option Json
  pub retry_after : Option Json

abbrev pub ack_status : AckInput → Json
ack_status input = or_else (nullish input.status) (str "accepted")

unfoldable pub ack_errors : AckInput → List String
ack_errors input =
    assert_known (some (ack_status input)) command_ack_statuses "status"
    ++ (if is_text (some (ack_status input)) "accepted"
        then []
        else require_string input.reason "reason")

-- `envelope.key` of an envelope that has been checked
abbrev pub of_envelope : String → Json → Json
of_envelope key e = or_else (member key (some e)) null

unfoldable pub create_command_ack : (String → Bool) → String → Json → AckInput → Reply Fields
unfolding validate_command_envelope ack_errors
create_command_ack is_date now e input =
    without_errors (validate_command_envelope is_date e) "Invalid command envelope for ACK: " (
      without_errors (ack_errors input) "Invalid command ACK: " (
        ok (
          field "modelVersion" (str command_ack_version) (
            field "commandId" (of_envelope "id" e) (
              field "nodeId" (of_envelope "nodeId" e) (
                field "command" (of_envelope "command" e) (
                  field "status" (ack_status input) (
                    field "accepted" (bool (is_text (some (ack_status input)) "accepted")) (
                      field "receivedAt" (or_else (nullish input.received_at) (str now)) (
                        field "reason" (or_null input.reason) (
                          field "currentMode" (or_null input.current_mode)
                            (field "retryAfter" (or_null input.retry_after) end))))))))))))

-- The input of `createCommandResult`; `conflicts` is an array where it is there.
pub record ResultInput : Type 0 where
  pub status : Option Json
  pub started_at : Option Json
  pub finished_at : Option Json
  pub outputs : Option Json
  pub conflicts : Option Items
  pub error : Option Json

-- `input.outputs ?? {}`
abbrev pub result_outputs : ResultInput → Json
result_outputs input = or_else (nullish input.outputs) (obj end)

unfoldable pub result_errors : ResultInput → List String
result_errors input =
    assert_known input.status command_result_statuses "status"
    ++ caught (assert_no_inline_secrets false (result_outputs input))

unfoldable pub create_command_result : (String → Bool) → String → Json → ResultInput → Reply Fields
unfolding validate_command_envelope result_errors
create_command_result is_date now e input =
    without_errors (validate_command_envelope is_date e) "Invalid command envelope for result: " (
      without_errors (result_errors input) "Invalid command result: " (
        ok (
          field "modelVersion" (str command_result_version) (
            field "commandId" (of_envelope "id" e) (
              field "nodeId" (of_envelope "nodeId" e) (
                field "command" (of_envelope "command" e) (
                  field "status" (or_else input.status null) (
                    field "startedAt" (or_null input.started_at) (
                      field "finishedAt" (or_else (nullish input.finished_at) (str now)) (
                        field "outputs" (obj (spread_value input.outputs)) (
                          field "conflicts" (arr (or_else input.conflicts nil))
                            (field "error" (or_null input.error) end))))))))))))
