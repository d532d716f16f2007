-- ===== src/Agent/Provisioning/Invariant.antt =====
-- What holds of the provisioning state of a node between two events
-- (apps/node-agent/src/provisioning-state.js).
use full_revna_like_projekt.Base.{
  String, ◌≡◌, refl, ◌↔◌, Bool, true, false, Option, none, some, arith, ◌==◌, or_else, is_some,
}
use full_revna_like_projekt.Base.Reply.{ok}
use full_revna_like_projekt.Base.Text.{trim}
use full_revna_like_projekt.Base.Json.{Json, null, bool, num, str, arr, obj, nullish}
use full_revna_like_projekt.Agent.Checks.{filled_text}
use full_revna_like_projekt.Agent.Provisioning.{
  Mode, active, paused, quarantined, Phase, idle, validating, applying, removing, reporting, failed,
  Event, ProvisioningState, EventInput, StateInput, dispatch, is_quarantined, either, known_mode,
  known_phase, create_provisioning_state, transition_provisioning_state, state_input, mode_text,
  phase_text,
}

-- The phases of work on the desired state, and the one after such work has failed.
abbrev pub is_work : Phase → Bool
is_work applying = true
is_work removing = true
is_work failed = true
is_work _ = false

pub record Coherent (s : ProvisioningState) : Type 0 where
  pub named : (trim s.node_id == "") ≡ false
  pub desired_known : nullish s.desired_revision ≡ s.desired_revision
  pub applied_known : nullish s.applied_revision ≡ s.applied_revision
  pub quarantine_recorded : is_some s.quarantine ≡ is_quarantined s.mode
  pub pause_recorded : (is_some s.paused_at ≡ true) ↔ (s.mode ≡ paused)
  pub works_active : is_work s.phase ≡ true → s.mode ≡ active
  pub failure_recorded : s.phase ≡ failed → is_some s.last_error ≡ true

either-known : (v w : Option Json) → nullish w ≡ w → nullish (either v w) ≡ either v w
either-known none w h = h
either-known (some null) w h = h
either-known (some (bool b)) w h = refl
either-known (some (num n)) w h = refl
either-known (some (str t)) w h = refl
either-known (some (arr vs)) w h = refl
either-known (some (obj fs)) w h = refl

pub dispatch-Coherent :
    (e : Event) (input : EventInput) (at : String) (s t : ProvisioningState)
    → Coherent s
    → dispatch e input at s ≡ ok t
    → Coherent t
unfolding dispatch
dispatch-Coherent e input at s t c h = ground (
  arith,
  either-known input.desired_revision s.desired_revision c.desired_known,
  either-known input.applied_revision s.desired_revision c.desired_known,
)

known_mode_text : (m : Mode) → known_mode (str (mode_text m)) ≡ some m
unfolding known_mode
known_mode_text active = refl
known_mode_text paused = refl
known_mode_text quarantined = refl

known_phase_text : (p : Phase) → known_phase (str (phase_text p)) ≡ some p
unfolding known_phase
known_phase_text idle = refl
known_phase_text validating = refl
known_phase_text applying = refl
known_phase_text removing = refl
known_phase_text reporting = refl
known_phase_text failed = refl

filled : (s : String) → (trim s == "") ≡ false → filled_text (some (str s)) ≡ some s
unfolding filled_text
filled s h = rw h refl

-- A coherent state is what its own fields create.
pub create-state_input :
    (now : String) (s : ProvisioningState)
    → Coherent s
    → create_provisioning_state now (state_input s) ≡ ok s
unfolding create_provisioning_state
create-state_input now s c =
    rw
      (
        filled s.node_id c.named,
        known_mode_text s.mode,
        known_phase_text s.phase,
        c.desired_known,
        c.applied_known,
      )
      refl

pub transition-dispatch :
    (now : String) (s : ProvisioningState) (e : Event) (input : EventInput)
    → Coherent s
    → transition_provisioning_state now (state_input s) e input
      ≡ dispatch e input (or_else input.at now) s
unfolding transition_provisioning_state
transition-dispatch now s e input c = rw (create-state_input now s c) refl

-- `{ nodeId, updatedAt }`, with which the agent creates its first state.
abbrev pub fresh_input : String → Option String → StateInput
fresh_input node_id updated_at = record {
  node_id = some (str node_id);
  mode = none;
  phase = none;
  revision = none;
  desired_revision = none;
  applied_revision = none;
  paused_at = none;
  updated_at = updated_at;
  quarantine = none;
  last_error = none;
}

pub create_fresh-Coherent :
    (now node_id : String) (updated_at : Option String) (s : ProvisioningState)
    → create_provisioning_state now (fresh_input node_id updated_at) ≡ ok s
    → Coherent s
unfolding create_provisioning_state known_mode known_phase filled_text
create_fresh-Coherent now node_id updated_at s h = ground arith
