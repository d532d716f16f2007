-- ===== src/Agent/Runner/Laws.antt =====
-- What a command leaves behind (apps/node-agent/src/runtime-runner.js).
use full_revna_like_projekt.Base.{
  String, ◌≡◌, refl, subst, inl, inr, ◌⊎◌, Bool, true, Option, none, some, [], is_some,
}
use full_revna_like_projekt.Base.Json.{obj, Fields, get}
use full_revna_like_projekt.Base.Reply.{
  Reply, ok, throws, and_then, Gives, Gives-and_then, Gives-ok, Gives-throws, Reply-cases,
}
use full_revna_like_projekt.Agent.Checks.{assert_known}
use full_revna_like_projekt.Agent.CommandType.{Command, command_type, is_mutating}
use full_revna_like_projekt.Base.Text.{to_lower_case, strip}
use full_revna_like_projekt.Agent.Secrets.{assert_no_inline_secrets, key_violations}
use full_revna_like_projekt.Agent.Commands.{
  create_command_result, validate_command_envelope, result_errors,
}
use full_revna_like_projekt.Agent.Commands.Laws.{IsEnvelope, envelope_errors_iff}
use full_revna_like_projekt.Agent.Commands.Create.{create_command_envelope-IsEnvelope}
use full_revna_like_projekt.Agent.Provisioning.{Mode, active, ProvisioningState, state_input}
use full_revna_like_projekt.Agent.Provisioning.Invariant.{create-state_input}
use full_revna_like_projekt.Agent.Provisioning.Allowance.{
  holds, type_of, refusal, refusal_mutating, allowance-refusal,
}
use full_revna_like_projekt.Agent.Plans.{Planner}
use full_revna_like_projekt.Agent.Steps.{AgentInput, Done}
use full_revna_like_projekt.Agent.Steps.Laws.{Settled, carry_out-Finished}
use full_revna_like_projekt.Agent.Runner.{
  Clock, Applied, command_response_to_envelope, failed_command_result, payload_of, carry_out_known,
  result_of_done, reported, attempt, result_of_refusal, skip, attempt_allowed, apply_node_command,
}

-- What `applyNodeCommand` gives for a settled state.
pub record CommandOutcome (s : ProvisioningState) (r : Applied) : Type 0 where
  pub stays_settled : (t : ProvisioningState) → r.state ≡ some t → Settled t
  pub acts_active : is_some r.runtime_action ≡ true → (s.mode ≡ active) × (r.status ≡ "succeeded")
  pub failed_keeps : is_some r.error_code ≡ true → (r.state ≡ none) ⊎ (r.state ≡ some s)
  pub answered : is_some r.error_code ≡ is_some r.error_message

pub failed-CommandOutcome :
    (s : ProvisioningState) (now : String) (command : Fields) (message code : String)
    → CommandOutcome s (failed_command_result now command message code)
unfolding failed_command_result
failed-CommandOutcome s now command message code = record {
  stays_settled = λ t e. absurd (cc e);
  acts_active = λ e. absurd (cc e);
  failed_keeps = λ e. inl refl;
  answered = refl;
}

-- A command that is carried out leaves its state settled, and an action only if it is mutating.
abbrev Known : Option Command → Done → Type 0
Known c d = Settled d.next × (is_some d.action ≡ true → holds is_mutating c ≡ true)

Known-Finished :
    (c : Option Command) (plans : Planner) (input : AgentInput) (at end_at : String) (e : Fields)
    (s : ProvisioningState)
    → Settled s
    → Gives (Known c) (carry_out_known c plans input at end_at e s)
Known-Finished none plans input at end_at e s g = Gives-throws (Known none) _
Known-Finished (some c) plans input at end_at e s g =
    carry_out-Finished plans input at end_at c s (get "id" e) (get "nodeId" e) (payload_of e) g

reported-CommandOutcome :
    (c : Option Command) (s : ProvisioningState) (now : String) (command : Fields)
    (r : Reply (Done × Fields))
    → Gives (λ p. Known c p.0) r
    → (holds is_mutating c ≡ true → s.mode ≡ active)
    → CommandOutcome s (reported now command r)
unfolding failed_command_result
reported-CommandOutcome c s now command (throws m) g a = failed-CommandOutcome s now command m _
reported-CommandOutcome c s now command (ok (d, result)) g a =
    let (k, m) = g (d, result) refl in
    record {
      stays_settled = λ t e. subst Settled (inner e) k;
      acts_active = λ e. (a (m e), refl);
      failed_keeps = λ e. absurd (cc e);
      answered = refl;
    }
  where
    inner : {x y : ProvisioningState} → some x ≡ some y → x ≡ y
    inner h = cc h

attempt-CommandOutcome :
    (is_date : String → Bool) (plans : Planner) (input : AgentInput) (clock : Clock)
    (command e : Fields) (s : ProvisioningState)
    → Settled s
    → (holds is_mutating (command_type (get "command" e)) ≡ true → s.mode ≡ active)
    → CommandOutcome s (attempt is_date plans input clock command e s)
unfolding attempt
attempt-CommandOutcome is_date plans input clock command e s g a =
    reported-CommandOutcome c s clock.reported command _
      (Gives-and_then (Known c) (λ p. Known c p.0) _
        (λ d. and_then (made d) (λ result. ok (d, result))) (Known-Finished c plans input _ _ e s g)
        (λ d k.
          Gives-and_then (λ result. Unit) (λ p. Known c p.0) (made d) (λ result. ok (d, result))
            (λ result h. tt) (λ result u. Gives-ok (λ p. Known c p.0) (d, result) k)))
      a
  where
    c : Option Command
    c = command_type (get "command" e)

    made : Done → Reply Fields
    made d = create_command_result is_date clock.reported (obj e) (result_of_done input clock d)

-- The outputs of a command that is skipped have no secrets.
skipped_clean :
    (input : AgentInput) (clock : Clock) (mode : Mode) (reason : String)
    → result_errors (result_of_refusal input clock mode reason) ≡ []
unfolding result_errors assert_no_inline_secrets assert_known key_violations to_lower_case strip
skipped_clean input clock mode reason = refl

skipped_result :
    (is_date : String → Bool) (input : AgentInput) (clock : Clock) (e : Fields) (mode : Mode)
    (reason : String)
    → IsEnvelope is_date e
    → (result : Fields) × (create_command_result is_date clock.reported
          (obj e)
          (result_of_refusal input clock mode reason)
        ≡ ok result)
unfolding create_command_result validate_command_envelope
skipped_result is_date input clock e mode reason v =
    rw ((envelope_errors_iff is_date e).1 v, skipped_clean input clock mode reason) (_, refl)

-- The call returns, with this outcome.
abbrev pub Returns : ProvisioningState → Reply Applied → Type 0
Returns s call = (r : Applied) × (call ≡ ok r) × CommandOutcome s r

refused-CommandOutcome :
    (s : ProvisioningState) (reason : String) (result : Fields)
    → Settled s
    → CommandOutcome s (skip s reason result)
refused-CommandOutcome s reason result g = record {
  stays_settled = λ t e. subst Settled (inner e) g;
  acts_active = λ e. absurd (cc e);
  failed_keeps = λ e. inr refl;
  answered = refl;
}
  where
    inner : {x y : ProvisioningState} → some x ≡ some y → x ≡ y
    inner h = cc h

allowed-Returns :
    (is_date : String → Bool) (plans : Planner) (input : AgentInput) (clock : Clock)
    (command e : Fields) (s : ProvisioningState) (o : Option String)
    → Settled s
    → IsEnvelope is_date e
    → refusal s.mode (command_type (get "command" e)) ≡ o
    → Returns s (attempt_allowed is_date plans input clock command e s o)
unfolding attempt_allowed
allowed-Returns is_date plans input clock command e s none g v h = (
  _,
  refl,
  attempt-CommandOutcome is_date plans input clock command e s g
      (refusal_mutating s.mode (command_type (get "command" e)) h),
)
allowed-Returns is_date plans input clock command e s (some reason) g v h =
    let (result, made) = skipped_result is_date input clock e s.mode reason v in
    rw made (skip s reason result, refl, refused-CommandOutcome s reason result g)

-- Between two commands a node is in a coherent state and idle. In such a state, whatever is sent as
-- a command, `applyNodeCommand` returns; the state that it gives is coherent and idle again; it
-- leaves an action for the runtimes only if the node is active and the command has succeeded; and
-- with an error it gives no state or the same state.
pub apply_node_command-Returns :
    (is_date : String → Bool) (plans : Planner) (input : AgentInput) (clock : Clock)
    (command : Fields) (s : ProvisioningState)
    → Settled s
    → Returns s (apply_node_command is_date plans input clock command (state_input s))
unfolding apply_node_command type_of
apply_node_command-Returns is_date plans input clock command s g =
    elim (Reply-cases (command_response_to_envelope is_date clock.issued command)) [
      | inr (m, e) ↦ rw e (_, refl, failed-CommandOutcome s clock.reported command m _)
      | inl (e, h) ↦
          let (same, valid) = create_command_envelope-IsEnvelope is_date clock.issued _ e h in
          rw
            (
              h,
              create-state_input clock.started s g.0,
              allowance-refusal clock.started s (obj e) g.0,
            )
            (allowed-Returns is_date plans input clock command e s _ g valid refl)
    ]
