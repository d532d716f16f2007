-- ===== src/Agent/Rounds.antt =====
-- The commands of `runNodeAgentOnce` and `runNodeAgentLoop` in
-- apps/node-agent/src/runtime-runner.js: a command that is fetched is applied, its action is done, and
-- the state is kept where there is one. The restoring of processes, the heartbeat, the telemetry and
-- the report on the command do not change the state, and are left out.
pub mod Laws
use full_revna_like_projekt.Base.{String, Bool, Option, none, some, List, [], ◌∷◌, or_else}
use full_revna_like_projekt.Base.Json.{Json, Fields}
use full_revna_like_projekt.Base.Reply.{Reply, ok, and_then}
use full_revna_like_projekt.Agent.Provisioning.{
  Mode, active, paused, quarantined, ProvisioningState, StateInput, create_provisioning_state,
  state_input,
}
use full_revna_like_projekt.Agent.Plans.{Planner}
use full_revna_like_projekt.Agent.Steps.{AgentInput}
use full_revna_like_projekt.Agent.Runner.{Clock, Applied, apply_node_command}
use full_revna_like_projekt.Agent.Effects.{Effects, EffectInput, apply_runtime_effects}

-- `nodeStatusFromProvisioningState(state)`
abbrev pub node_status_from_provisioning_state : ProvisioningState → String
node_status_from_provisioning_state s = status s.mode
  where
    status : Mode → String
    status paused = "paused"
    status quarantined = "quarantined"
    status active = "active"

-- The state that the agent keeps in its file, and the world of the runtimes.
pub record Agent (W : Type 0) : Type 0 where
  pub world : W
  pub state : ProvisioningState

-- What does not change from one round to the next: `Date.parse`, the functions of the runtimes, the
-- configuration `capabilities` and `dryRun`, and whether live diagnostics are enabled.
pub record Setting (W : Type 0) : Type 0 where
  pub is_date : String → Bool
  pub plans : Planner
  pub effects : Effects W
  pub capabilities : Option Json
  pub dry_run : Bool
  pub live_diagnostic : Bool

-- A command with the times at which it is applied
abbrev pub Fetched : Type 0
Fetched = Fields × Clock

abbrev agent_input : {W : Type 0} → Setting W → AgentInput
agent_input setting = record {
  capabilities = setting.capabilities;
  dry_run = some setting.dry_run;
  started_at = none;
  finished_at = none;
}

abbrev effect_input : {W : Type 0} → Setting W → EffectInput
effect_input setting = record {
  dry_run = setting.dry_run;
  live_diagnostic = setting.live_diagnostic;
}

-- `if (commandResult.state) { latestState = commandResult.state; … }`
abbrev pub keep_state : {W : Type 0} → Agent W → W × Applied → Agent W × Applied
keep_state a (w, r) = (record { world = w; state = or_else r.state a.state }, r)

-- The part of a round that has a command
unfoldable pub handle_command :
    {W : Type 0} → Setting W → Fetched → Agent W → Reply (Agent W × Applied)
unfolding apply_node_command apply_runtime_effects
handle_command setting (command, clock) a =
    and_then
      (apply_node_command setting.is_date setting.plans (agent_input setting) clock command
        (state_input a.state))
      (λ r. ok (
        keep_state a (
          apply_runtime_effects setting.effects setting.plans (effect_input setting) clock.reported
            command r a.world)))

-- The rounds of the loop, each with the command that it has fetched, if any
unfoldable pub run_rounds :
    {W : Type 0} → Setting W → List (Option Fetched) → Agent W → Reply (Agent W)
unfolding handle_command
run_rounds setting [] a = ok a
run_rounds setting (none ∷ rounds) a = run_rounds setting rounds a
run_rounds setting (some f ∷ rounds) a =
    and_then (handle_command setting f a) (λ done. run_rounds setting rounds done.0)
