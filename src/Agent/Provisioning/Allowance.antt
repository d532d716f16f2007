-- ===== src/Agent/Provisioning/Allowance.antt =====
-- Which commands the mode of a node allows (apps/node-agent/src/provisioning-state.js).
use full_revna_like_projekt.Base.{
  String, ◌≡◌, refl, ap, Bool, true, false, ◌||◌, Option, none, some, arith,
}
use full_revna_like_projekt.Base.Json.{Json, str, obj, get}
use full_revna_like_projekt.Base.Reply.{Reply, ok, and_then}
use full_revna_like_projekt.Agent.CommandType.{
  Command, resume, confine, command_type, is_mutating, is_diagnostic,
}
use full_revna_like_projekt.Agent.Provisioning.{
  Mode, active, paused, quarantined, ProvisioningState, StateInput, create_provisioning_state,
  state_input,
}
use full_revna_like_projekt.Agent.Provisioning.Invariant.{Coherent, create-state_input}

-- `typeof command === "string" ? command : command?.command`
unfoldable pub type_of : Json → Option Command
unfolding command_type
type_of (str s) = command_type (some (str s))
type_of (obj fs) = command_type (get "command" fs)
type_of _ = none

abbrev pub holds : (Command → Bool) → Option Command → Bool
holds p none = false
holds p (some c) = p c

abbrev pub is_resume : Command → Bool
is_resume resume = true
is_resume _ = false

abbrev pub is_confine : Command → Bool
is_confine confine = true
is_confine _ = false

-- `{ allowed, reason }`: the reason where the command is not allowed.
abbrev pub unless_allowed : Bool → String → Option String
unless_allowed true reason = none
unless_allowed false reason = some reason

abbrev pub refusal : Mode → Option Command → Option String
refusal active c = none
refusal paused c =
    unless_allowed (holds is_resume c || holds is_confine c || holds is_diagnostic c)
      "node is paused; mutating commands are deferred until resume"
refusal quarantined c =
    unless_allowed (holds is_resume c || holds is_diagnostic c)
      "node is quarantined; mutating commands are blocked"

-- `commandAllowanceForState`: none where the command is allowed, and otherwise the reason.
unfoldable pub command_allowance_for_state : String → Json → StateInput → Reply (Option String)
unfolding create_provisioning_state type_of
command_allowance_for_state now command state =
    and_then (create_provisioning_state now state)
      (λ current. ok (refusal current.mode (type_of command)))

unfoldable pub is_mutating_command : Json → Bool
unfolding type_of
is_mutating_command command = holds is_mutating (type_of command)

-- On a coherent state, the mode decides.
pub allowance-refusal :
    (now : String) (s : ProvisioningState) (command : Json)
    → Coherent s
    → command_allowance_for_state now command (state_input s)
      ≡ ok (refusal s.mode (type_of command))
unfolding command_allowance_for_state
allowance-refusal now s command c = rw (create-state_input now s c) refl

pub refusal_mutating :
    (m : Mode) (c : Option Command) → refusal m c ≡ none → holds is_mutating c ≡ true → m ≡ active
refusal_mutating m none h e = absurd (cc e)
refusal_mutating m (some c) h e = ground arith

refusal_free :
    (m : Mode) (c : Option Command)
    → holds is_resume c || holds is_diagnostic c ≡ true
    → refusal m c ≡ none
refusal_free m none h = absurd (cc h)
refusal_free m (some c) h = ground arith

-- A command that the state of a coherent node allows is no mutating one unless the node is active;
-- and a resume or a diagnostic command is allowed in every mode.
pub allowance_sound :
    (now : String) (s : ProvisioningState) (command : Json)
    → Coherent s
    → (command_allowance_for_state now command (state_input s) ≡ ok none
        → is_mutating_command command ≡ true
        → s.mode ≡ active)
      × (holds is_resume (type_of command) || holds is_diagnostic (type_of command) ≡ true
          → command_allowance_for_state now command (state_input s) ≡ ok none)
unfolding is_mutating_command
allowance_sound now s command c = rw (allowance-refusal now s command c) (
  λ h e. refusal_mutating s.mode (type_of command) (cc h) e,
  λ h. ap ok (refusal_free s.mode (type_of command) h),
)
