-- ===== src/Agent/Provisioning/Diagram.antt =====
-- The transition diagram of a node: its mode and its phase, with the data of the state left out,
-- for the `switch` of apps/node-agent/src/provisioning-state.js.
use full_revna_like_projekt.Base.{
  String, ◌≡◌, refl, inl, ◌⊎◌, ◌↔◌, true, false, Option, none, some, arith, eq_iff,
}
use full_revna_like_projekt.Base.Json.{Json, null, bool, num, str, arr, obj}
use full_revna_like_projekt.Base.Reply.{Reply, ok}
use full_revna_like_projekt.Agent.Provisioning.{
  Mode, active, paused, quarantined, Phase, idle, validating, applying, removing, reporting, failed,
  Event, validate_started, validate_succeeded, apply_started, apply_succeeded, apply_failed,
  remove_started, remove_succeeded, report_started, report_succeeded, pause_requested,
  resume_requested, quarantine_requested, ProvisioningState, EventInput, pause_mode, clears,
  dispatch,
}

-- The mode that a request to pause may name
abbrev pub Pausable : Option Json → Type 0
Pausable mode = (mode ≡ none) ⊎ (mode ≡ some (str "paused"))

pause_mode_iff : (mode : Option Json) → (pause_mode mode ≡ true) ↔ Pausable mode
unfolding pause_mode
pause_mode_iff none = (λ e. inl refl, λ h. refl)
pause_mode_iff (some null) = ground arith
pause_mode_iff (some (bool b)) = ground arith
pause_mode_iff (some (num n)) = ground arith
pause_mode_iff (some (str s)) = ground (arith, eq_iff s "paused")
pause_mode_iff (some (arr vs)) = ground arith
pause_mode_iff (some (obj fs)) = ground arith

pub clears_iff : (v : Option Json) → (clears v ≡ true) ↔ (v ≡ some (bool true))
unfolding clears
clears_iff none = ground arith
clears_iff (some null) = ground arith
clears_iff (some (bool true)) = (λ e. refl, λ h. refl)
clears_iff (some (bool false)) = ground arith
clears_iff (some (num n)) = ground arith
clears_iff (some (str s)) = ground arith
clears_iff (some (arr vs)) = ground arith
clears_iff (some (obj fs)) = ground arith

-- An edge of the diagram: the mode and the phase before, the event with its input, and those after.
pub data Edge (input : EventInput) : Mode → Phase → Event → Mode → Phase → Type 0 where
  check : {m : Mode} → Edge input m idle validate_started m validating
  checked : {m : Mode} → Edge input m validating validate_succeeded m idle
  start : Edge input active idle apply_started active applying
  applied : {m : Mode} → Edge input m applying apply_succeeded m idle
  break : {m : Mode} → Edge input m applying apply_failed m failed
  remove : Edge input active idle remove_started active removing
  removed : {m : Mode} → Edge input m removing remove_succeeded m idle
  report : {m : Mode} → Edge input m idle report_started m reporting
  reported : {m : Mode} → Edge input m reporting report_succeeded m idle
  pause : Pausable input.mode → Edge input active idle pause_requested paused idle
  pause_again : Pausable input.mode → Edge input paused idle pause_requested paused idle
  resume : Edge input active idle resume_requested active idle
  unpause : Edge input paused idle resume_requested active idle
  clear :
      input.clear_quarantine ≡ some (bool true)
      → Edge input quarantined idle resume_requested active idle
  confine : {m : Mode} {p : Phase} → Edge input m p quarantine_requested quarantined idle

ruleset edges = (
  check, checked, start, applied, break, remove, removed, report, reported, pause, pause_again,
  resume, unpause, clear, confine,
)

pub dispatch-Edge :
    (e : Event) (input : EventInput) (at : String) (s t : ProvisioningState)
    → dispatch e input at s ≡ ok t
    → Edge input s.mode s.phase e t.mode t.phase
unfolding dispatch
dispatch-Edge e input at s t h =
    grind (arith, edges, pause_mode_iff input.mode, clears_iff input.clear_quarantine)

-- The event is accepted and leads to the mode and the phase.
abbrev pub LeadsTo : Reply ProvisioningState → Mode → Phase → Type 0
LeadsTo r m p = (t : ProvisioningState) × (r ≡ ok t) × (t.mode ≡ m) × (t.phase ≡ p)

pub Edge-dispatch :
    {input : EventInput} {m m' : Mode} {p p' : Phase} {e : Event} (at : String)
    (s : ProvisioningState)
    → s.mode ≡ m
    → s.phase ≡ p
    → Edge input m p e m' p'
    → LeadsTo (dispatch e input at s) m' p'
unfolding dispatch
Edge-dispatch at s em ep check = rw (ep) (_, refl, em, refl)
Edge-dispatch at s em ep checked = rw (ep) (_, refl, em, refl)
Edge-dispatch at s em ep start = rw (em, ep) (_, refl, refl, refl)
Edge-dispatch at s em ep applied = rw (ep) (_, refl, em, refl)
Edge-dispatch at s em ep break = rw (ep) (_, refl, em, refl)
Edge-dispatch at s em ep remove = rw (em, ep) (_, refl, refl, refl)
Edge-dispatch at s em ep removed = rw (ep) (_, refl, em, refl)
Edge-dispatch at s em ep report = rw (ep) (_, refl, em, refl)
Edge-dispatch at s em ep reported = rw (ep) (_, refl, em, refl)
Edge-dispatch at s em ep (pause o) = rw (em, ep, (pause_mode_iff _).1 o) (_, refl, refl, refl)
Edge-dispatch at s em ep (pause_again o) = rw (em, ep, (pause_mode_iff _).1 o) (_, refl, refl, refl)
Edge-dispatch at s em ep resume = rw (em, ep) (_, refl, refl, refl)
Edge-dispatch at s em ep unpause = rw (em, ep) (_, refl, refl, refl)
Edge-dispatch at s em ep (clear o) = rw (em, ep, (clears_iff _).1 o) (_, refl, refl, refl)
Edge-dispatch at s em ep confine = (_, refl, refl, refl)
