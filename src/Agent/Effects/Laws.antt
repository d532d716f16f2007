-- ===== src/Agent/Effects/Laws.antt =====
-- Doing an action keeps what is known of the result of a command
-- (apps/node-agent/src/runtime-runner.js).
use full_revna_like_projekt.Base.{String, Option, none, some}
use full_revna_like_projekt.Base.Json.{Fields}
use full_revna_like_projekt.Agent.Plans.{
  Planner, RuntimeAction, node_policy_apply_plan_from_payload,
}
use full_revna_like_projekt.Agent.Provisioning.{ProvisioningState}
use full_revna_like_projekt.Agent.Runner.{Applied}
use full_revna_like_projekt.Agent.Runner.Laws.{CommandOutcome, failed-CommandOutcome}
use full_revna_like_projekt.Agent.Effects.{
  Effects, EffectInput, Effect, nothing, adds, fails, with_result_outputs, concluded, effect_of,
  acting, apply_runtime_effects, policy_id, command_payload,
}

concluded-CommandOutcome :
    {W : Type 0} (s : ProvisioningState) (now : String) (command : Fields) (r : Applied)
    (done : W × Effect)
    → CommandOutcome s r
    → CommandOutcome s (concluded now command r done).1
unfolding with_result_outputs
concluded-CommandOutcome s now command r (w, nothing) o = o
concluded-CommandOutcome s now command r (w, adds outputs) o = record {
  stays_settled = o.stays_settled;
  acts_active = o.acts_active;
  failed_keeps = o.failed_keeps;
  answered = o.answered;
}
concluded-CommandOutcome s now command r (w, fails code m) o =
    failed-CommandOutcome s now command m code

acting-CommandOutcome :
    {W : Type 0} (effects : Effects W) (plans : Planner) (input : EffectInput) (now : String)
    (command : Fields) (r : Applied) (w : W) (s : ProvisioningState) (a : Option RuntimeAction)
    → CommandOutcome s r
    → CommandOutcome s (acting effects plans input now command r w a).1
unfolding acting
acting-CommandOutcome effects plans input now command r w s none o = o
acting-CommandOutcome effects plans input now command r w s (some a) o =
    concluded-CommandOutcome s now command r
      (effect_of effects input a
        (node_policy_apply_plan_from_payload plans (policy_id command) (command_payload command)) w)
      o

pub apply_runtime_effects-CommandOutcome :
    {W : Type 0} (effects : Effects W) (plans : Planner) (input : EffectInput) (now : String)
    (command : Fields) (r : Applied) (w : W) (s : ProvisioningState)
    → CommandOutcome s r
    → CommandOutcome s (apply_runtime_effects effects plans input now command r w).1
unfolding apply_runtime_effects
apply_runtime_effects-CommandOutcome effects plans input now command r w s o =
    acting-CommandOutcome effects plans input now command r w s _ o
