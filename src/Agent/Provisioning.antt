-- ===== src/Agent/Provisioning.antt =====
-- The provisioning state of a node (apps/node-agent/src/provisioning-state.js). `now` is what
-- `new Date().toISOString()` gives in a call.
pub mod Allowance
pub mod Diagram
pub mod Invariant
pub mod Traces
use full_revna_like_projekt.Base.{
  ℕ, suc, String, Bool, true, false, not, ◌&&◌, ◌||◌, Option, none, some, List, [], ◌∷◌, ◌==◌,
  if◌then◌else◌, or_else, is_some,
}
use full_revna_like_projekt.Base.Reply.{Reply, ok, throws, and_then, unless}
use full_revna_like_projekt.Agent.Checks.{filled_text}
use full_revna_like_projekt.Base.Json.{Json, null, bool, str, nullish}
use Prim.Native.String.{◌++◌}

-- `NODE_PROVISIONING_MODES`
pub data Mode : Type 0 where
  active paused quarantined : Mode

-- `PROVISIONING_PHASES`
pub data Phase : Type 0 where
  idle validating applying removing reporting failed : Phase

-- `PROVISIONING_EVENTS`, and any other text.
pub data Event : Type 0 where
  validate_started validate_succeeded apply_started apply_succeeded apply_failed : Event
  remove_started remove_succeeded report_started report_succeeded : Event
  pause_requested resume_requested quarantine_requested : Event
  unsupported : String → Event

abbrev pub mode_text : Mode → String
mode_text active = "active"
mode_text paused = "paused"
mode_text quarantined = "quarantined"

abbrev pub phase_text : Phase → String
phase_text idle = "idle"
phase_text validating = "validating"
phase_text applying = "applying"
phase_text removing = "removing"
phase_text reporting = "reporting"
phase_text failed = "failed"

abbrev pub event_text : Event → String
event_text validate_started = "validate.started"
event_text validate_succeeded = "validate.succeeded"
event_text apply_started = "apply.started"
event_text apply_succeeded = "apply.succeeded"
event_text apply_failed = "apply.failed"
event_text remove_started = "remove.started"
event_text remove_succeeded = "remove.succeeded"
event_text report_started = "report.started"
event_text report_succeeded = "report.succeeded"
event_text pause_requested = "pause.requested"
event_text resume_requested = "resume.requested"
event_text quarantine_requested = "quarantine.requested"
event_text (unsupported event) = event

pub record Quarantine : Type 0 where
  pub reason : String
  pub command_id : Option String
  pub at : String

pub record LastError : Type 0 where
  pub code : String
  pub message : String
  pub at : String

pub record ProvisioningState : Type 0 where
  pub node_id : String
  pub mode : Mode
  pub phase : Phase
  pub revision : ℕ
  pub desired_revision : Option Json
  pub applied_revision : Option Json
  pub paused_at : Option String
  pub updated_at : String
  pub quarantine : Option Quarantine
  pub last_error : Option LastError

-- The input of `createProvisioningState`: its checked fields hold any value.
pub record StateInput : Type 0 where
  pub node_id : Option Json
  pub mode : Option Json
  pub phase : Option Json
  pub revision : Option ℕ
  pub desired_revision : Option Json
  pub applied_revision : Option Json
  pub paused_at : Option String
  pub updated_at : Option String
  pub quarantine : Option Quarantine
  pub last_error : Option LastError

-- The input of an event
pub record EventInput : Type 0 where
  pub at : Option String
  pub desired_revision : Option Json
  pub applied_revision : Option Json
  pub code : Option String
  pub message : Option String
  pub mode : Option Json
  pub clear_quarantine : Option Json
  pub reason : Option String
  pub command_id : Option String

-- `{}`
abbrev pub no_input : EventInput
no_input = record {
  at = none;
  desired_revision = none;
  applied_revision = none;
  code = none;
  message = none;
  mode = none;
  clear_quarantine = none;
  reason = none;
  command_id = none;
}

-- `isKnownMode`, with the mode
unfoldable pub known_mode : Json → Option Mode
known_mode (str s) =
    if s == mode_text active
    then some active
    else if s == mode_text paused
    then some paused
    else if s == mode_text quarantined
    then some quarantined
    else none
known_mode _ = none

-- `isKnownPhase`, with the phase
unfoldable pub known_phase : Json → Option Phase
known_phase (str s) =
    if s == phase_text idle
    then some idle
    else if s == phase_text validating
    then some validating
    else if s == phase_text applying
    then some applying
    else if s == phase_text removing
    then some removing
    else if s == phase_text reporting
    then some reporting
    else if s == phase_text failed
    then some failed
    else none
known_phase _ = none

abbrev pub found_or_throw : {A B : Type 0} → Option A → String → (A → Reply B) → Reply B
found_or_throw none message rest = throws message
found_or_throw (some a) message rest = rest a

unfoldable pub create_provisioning_state : String → StateInput → Reply ProvisioningState
unfolding known_mode known_phase filled_text
create_provisioning_state now input =
    found_or_throw (filled_text input.node_id) "nodeId is required for provisioning state"
      (λ node_id.
        found_or_throw (known_mode (or_else (nullish input.mode) (str "active")))
          "mode must be one of active, paused, quarantined"
          (λ mode.
            found_or_throw (known_phase (or_else (nullish input.phase) (str "idle")))
              "phase must be one of idle, validating, applying, removing, reporting, failed"
              (λ phase. ok (record {
                node_id = node_id;
                mode = mode;
                phase = phase;
                revision = or_else input.revision 0;
                desired_revision = nullish input.desired_revision;
                applied_revision = nullish input.applied_revision;
                paused_at = input.paused_at;
                updated_at = or_else input.updated_at now;
                quarantine = input.quarantine;
                last_error = input.last_error;
              }))))

-- A state as the input that its fields are.
abbrev pub state_input : ProvisioningState → StateInput
state_input s = record {
  node_id = some (str s.node_id);
  mode = some (str (mode_text s.mode));
  phase = some (str (phase_text s.phase));
  revision = some s.revision;
  desired_revision = s.desired_revision;
  applied_revision = s.applied_revision;
  paused_at = s.paused_at;
  updated_at = some s.updated_at;
  quarantine = s.quarantine;
  last_error = s.last_error;
}

abbrev pub is_active : Mode → Bool
is_active active = true
is_active _ = false

abbrev pub is_quarantined : Mode → Bool
is_quarantined quarantined = true
is_quarantined _ = false

-- `state.phase === phase`
abbrev pub in_phase : Phase → Phase → Bool
in_phase idle idle = true
in_phase validating validating = true
in_phase applying applying = true
in_phase removing removing = true
in_phase reporting reporting = true
in_phase failed failed = true
in_phase _ _ = false

abbrev pub require_idle : {A : Type 0} → ProvisioningState → Event → Reply A → Reply A
require_idle s event rest =
    unless (in_phase idle s.phase)
      ("Cannot apply " ++ event_text event ++ " while provisioning phase is " ++ phase_text s.phase)
      rest

abbrev pub require_active : {A : Type 0} → ProvisioningState → Event → Reply A → Reply A
require_active s event rest =
    unless (is_active s.mode)
      ("Cannot apply " ++ event_text event ++ " while node mode is " ++ mode_text s.mode) rest

-- `input.mode === undefined || input.mode === "paused"`
unfoldable pub pause_mode : Option Json → Bool
pause_mode none = true
pause_mode (some (str s)) = s == "paused"
pause_mode (some _) = false

-- `input.clearQuarantine === true`
unfoldable pub clears : Option Json → Bool
clears (some (bool b)) = b
clears _ = false

-- `a ?? b`
abbrev pub either : Option Json → Option Json → Option Json
either v w = elim (nullish v) [ none ↦ w | some x ↦ some x ]

-- The `switch` of `transitionProvisioningState`
unfoldable pub dispatch : Event → EventInput → String → ProvisioningState → Reply ProvisioningState
unfolding pause_mode clears
dispatch validate_started input at s =
    require_idle s validate_started (ok (record s { phase = validating; updated_at = at }))
dispatch validate_succeeded input at s =
    unless (in_phase validating s.phase) "Validation can only succeed from validating phase" (
      ok (record s {
        phase = idle;
        desired_revision = either input.desired_revision s.desired_revision;
        revision = suc s.revision;
        updated_at = at;
      }))
dispatch apply_started input at s = require_active s apply_started (
    require_idle s apply_started (
      ok (record s {
        phase = applying;
        desired_revision = either input.desired_revision s.desired_revision;
        updated_at = at;
      })))
dispatch apply_succeeded input at s =
    unless (in_phase applying s.phase) "Apply can only succeed from applying phase" (
      ok (record s {
        phase = idle;
        applied_revision = either input.applied_revision s.desired_revision;
        revision = suc s.revision;
        last_error = none;
        updated_at = at;
      }))
dispatch apply_failed input at s =
    unless (in_phase applying s.phase) "Apply can only fail from applying phase" (
      ok (record s {
        phase = failed;
        last_error = some (record {
          code = or_else input.code "apply_failed";
          message = or_else input.message "Provisioning apply failed";
          at = at;
        });
        updated_at = at;
      }))
dispatch remove_started input at s =
    require_active s remove_started
      (require_idle s remove_started (ok (record s { phase = removing; updated_at = at })))
dispatch remove_succeeded input at s =
    unless (in_phase removing s.phase) "Remove can only succeed from removing phase" (
      ok (record s {
        phase = idle;
        applied_revision = none;
        revision = suc s.revision;
        last_error = none;
        updated_at = at;
      }))
dispatch report_started input at s =
    require_idle s report_started (ok (record s { phase = reporting; updated_at = at }))
dispatch report_succeeded input at s =
    unless (in_phase reporting s.phase) "Report can only succeed from reporting phase"
      (ok (record s { phase = idle; updated_at = at }))
dispatch pause_requested input at s =
    unless (not (is_quarantined s.mode)) "Cannot pause a quarantined node" (
      require_idle s pause_requested (
        unless (pause_mode input.mode) "Pause mode must be paused" (
          ok (record s {
            mode = paused;
            paused_at = some at;
            revision = suc s.revision;
            updated_at = at;
          }))))
dispatch resume_requested input at s =
    unless (not (is_quarantined s.mode && not (clears input.clear_quarantine)))
      "Resuming a quarantined node requires clearQuarantine=true"
      (require_idle s resume_requested (
        ok (record s {
          mode = active;
          paused_at = none;
          quarantine = none;
          revision = suc s.revision;
          updated_at = at;
        })))
dispatch quarantine_requested input at s = ok (record s {
  mode = quarantined;
  phase = idle;
  paused_at = none;
  quarantine =
      some
        (record { reason = or_else input.reason "manual"; command_id = input.command_id; at = at });
  revision = suc s.revision;
  updated_at = at;
})
dispatch (unsupported event) input at s = throws ("Unsupported provisioning event: " ++ event)

unfoldable pub transition_provisioning_state :
    String → StateInput → Event → EventInput → Reply ProvisioningState
unfolding create_provisioning_state dispatch
transition_provisioning_state now current event input =
    and_then (create_provisioning_state now current) (dispatch event input (or_else input.at now))
