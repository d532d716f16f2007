-- ===== src/Agent/Rounds/Laws.antt =====
-- The agent goes on whatever it is sent (apps/node-agent/src/runtime-runner.js).
use full_revna_like_projekt.Base.{
  ◌≡◌, refl, inl, inr, ◌⊎◌, true, Option, none, some, List, [], ◌∷◌, or_else, is_some,
}
use full_revna_like_projekt.Base.Reply.{ok}
use full_revna_like_projekt.Agent.Provisioning.{active, ProvisioningState}
use full_revna_like_projekt.Agent.Steps.Laws.{Settled}
use full_revna_like_projekt.Agent.Runner.{Applied}
use full_revna_like_projekt.Agent.Runner.Laws.{apply_node_command-Returns}
use full_revna_like_projekt.Agent.Effects.{apply_runtime_effects}
use full_revna_like_projekt.Agent.Effects.Laws.{apply_runtime_effects-CommandOutcome}
use full_revna_like_projekt.Agent.Rounds.{
  Agent, Setting, Fetched, agent_input, effect_input, keep_state, handle_command, run_rounds,
}

kept-Settled :
    (s : ProvisioningState) (o : Option ProvisioningState)
    → Settled s
    → ((t : ProvisioningState) → o ≡ some t → Settled t)
    → Settled (or_else o s)
kept-Settled s none g h = g
kept-Settled s (some t) g h = h t refl

kept_same :
    (s : ProvisioningState) (o : Option ProvisioningState)
    → (o ≡ none) ⊎ (o ≡ some s)
    → or_else o s ≡ s
kept_same s o (inl e) = rw e refl
kept_same s o (inr e) = rw e refl

-- What handling a command gives for the state before.
abbrev pub Handled : {W : Type 0} → Setting W → Fetched → Agent W → Type 0
Handled {W = W} setting f a =
    (b : Agent W) × (r : Applied) × (handle_command setting f a ≡ ok (b, r))
    × Settled b.state
    × (is_some r.error_code ≡ true → b.state ≡ a.state)
    × (is_some r.runtime_action ≡ true → a.state.mode ≡ active)

-- A node whose state is coherent and idle handles every command, whatever the functions of its
-- runtimes do: it keeps such a state, the same one if the command is answered with an error, and a
-- command that is answered with an action was sent to an active node.
pub handle_command-Handled :
    {W : Type 0} (setting : Setting W) (f : Fetched) (a : Agent W)
    → Settled a.state
    → Handled setting f a
unfolding handle_command
handle_command-Handled setting (command, clock) a g =
    let (r, e, o) =
      apply_node_command-Returns setting.is_date setting.plans (agent_input setting) clock command
        a.state g in
    let done =
      apply_runtime_effects setting.effects setting.plans (effect_input setting) clock.reported
        command r a.world in
    let after =
      apply_runtime_effects-CommandOutcome setting.effects setting.plans (effect_input setting)
        clock.reported command r a.world a.state o in
    (
      (keep_state a done).0,
      (keep_state a done).1,
      rw e refl,
      kept-Settled a.state done.1.state g after.stays_settled,
      λ h. kept_same a.state done.1.state (after.failed_keeps h),
      λ h. (after.acts_active h).0,
    )

-- The loop never ends by an error of a command: from a coherent and idle state, any rounds, with or
-- without commands, run to their end and leave a coherent and idle state.
pub run_rounds-Settled :
    {W : Type 0} (setting : Setting W) (rounds : List (Option Fetched)) (a : Agent W)
    → Settled a.state
    → (b : Agent W) × (run_rounds setting rounds a ≡ ok b) × Settled b.state
unfolding run_rounds
run_rounds-Settled setting [] a g = (a, refl, g)
run_rounds-Settled setting (none ∷ rounds) a g = run_rounds-Settled setting rounds a g
run_rounds-Settled setting (some f ∷ rounds) a g =
    let (b, r, e, k, same, sent) = handle_command-Handled setting f a g in
    rw e (run_rounds-Settled setting rounds b k)
