-- ===== src/Agent/Commands/Replies.antt =====
-- Acknowledgements and results of commands (apps/node-agent/src/command-envelope.js).
use full_revna_like_projekt.Base.{
  String, ◌≡◌, refl, subst, inl, inr, ◌↔◌, Bool, true, false, Option, some, [], if◌then◌else◌,
  Bool-cases,
}
use full_revna_like_projekt.Base.Json.{Json, bool, str, obj, Fields, get}
use full_revna_like_projekt.Base.Reply.{ok}
use full_revna_like_projekt.Agent.Checks.{require_string, or_null}
use full_revna_like_projekt.Agent.Checks.Laws.{Filled, OneOf, require_string_iff, assert_known_iff}
use full_revna_like_projekt.Agent.Secrets.{assert_no_inline_secrets}
use full_revna_like_projekt.Agent.Secrets.Laws.{Leak, assert_no_inline_secrets_iff}
use full_revna_like_projekt.Agent.Commands.{
  is_text, validate_command_envelope, envelope_errors, command_ack_statuses,
  command_result_statuses, AckInput, ack_status, ack_errors, create_command_ack, ResultInput,
  result_outputs, result_errors, create_command_result,
}
use full_revna_like_projekt.Agent.Commands.Laws.{
  IsEnvelope, envelope_errors_iff, is_text_iff, caught_iff, both,
}
use full_revna_like_projekt.Agent.Commands.Create.{without_errors-ok}

-- What an acknowledgement tells of the envelope that it answers.
pub record Answers (e ack : Fields) : Type 0 where
  pub of_command : get "commandId" ack ≡ get "id" e
  pub of_node : get "nodeId" ack ≡ get "nodeId" e
  pub status_known : OneOf command_ack_statuses (get "status" ack)
  pub accepted_iff :
      (get "accepted" ack ≡ some (bool true)) ↔ (get "status" ack ≡ some (str "accepted"))
  pub explained : ¬ (get "status" ack ≡ some (str "accepted")) → Filled (get "reason" ack)

some_bool : (a b : Bool) → ◌≡◌ {A = Option Json} (some (bool a)) (some (bool b)) ↔ (a ≡ b)
some_bool a b = (λ h. cc h, λ h. cc h)

accepted_bool_iff :
    (v : Option Json)
    → ◌≡◌ {A = Option Json} (some (bool (is_text v "accepted"))) (some (bool true))
      ↔ (v ≡ some (str "accepted"))
accepted_bool_iff v =
    let (f, f') = some_bool (is_text v "accepted") true in
    let (g, g') = is_text_iff v "accepted" in (λ h. g (f h), λ h. f' (g' h))

reason_given :
    (v reason : Option Json)
    → (if is_text v "accepted" then [] else require_string reason "reason") ≡ []
    → ¬ (v ≡ some (str "accepted"))
    → Filled (some (or_null reason))
reason_given v reason h other = elim (Bool-cases (is_text v "accepted")) [
  | inl e ↦ absurd (other ((is_text_iff v "accepted").0 e))
  | inr e ↦
      let (s, r, k) =
        (require_string_iff reason "reason").0
          (subst (λ b. (if b then [] else require_string reason "reason") ≡ []) e h) in
      (s, rw r refl, k)
]

-- An acknowledgement that is created answers a valid envelope, by its identifier and its node; it
-- tells `accepted` exactly where its status is "accepted", and gives a reason that is not blank
-- otherwise.
pub create_command_ack-Answers :
    (is_date : String → Bool) (now : String) (e : Fields) (input : AckInput) (ack : Fields)
    → create_command_ack is_date now (obj e) input ≡ ok ack
    → IsEnvelope is_date e × Answers e ack
unfolding create_command_ack validate_command_envelope ack_errors get
create_command_ack-Answers is_date now e input ack h =
    let (valid, rest) = without_errors-ok (envelope_errors is_date e) _ _ ack h in
    let (fine, done) = without_errors-ok (ack_errors input) _ _ ack rest in
    let envelope = (envelope_errors_iff is_date e).0 valid in
    let (known, reasoned) =
      (both _ _ (assert_known_iff (some (ack_status input)) command_ack_statuses "status")
          (λ x. x, λ x. x)).0
        fine in
    (
      envelope,
      subst (Answers e) (inner done) (record {
        of_command = let (s, i, k) = envelope.identified in rw i refl;
        of_node = let (s, i, k) = envelope.addressed in rw i refl;
        status_known = known;
        accepted_iff = accepted_bool_iff (some (ack_status input));
        explained = λ other. reason_given (some (ack_status input)) input.reason reasoned other;
      }),
    )
  where
    inner : {a b : Fields} → ok a ≡ ok b → a ≡ b
    inner p = cc p

-- What a result tells of the envelope that it is of.
pub record Reports (e result : Fields) (outputs : Json) : Type 0 where
  pub of_command : get "commandId" result ≡ get "id" e
  pub of_node : get "nodeId" result ≡ get "nodeId" e
  pub status_known : OneOf command_result_statuses (get "status" result)
  pub secret_free : ¬ Leak false "$" outputs

-- A result that is created is of a valid envelope, by its identifier and its node, has one of the
-- four statuses, and its outputs have no field that looks like a secret at any depth.
pub create_command_result-Reports :
    (is_date : String → Bool) (now : String) (e : Fields) (input : ResultInput) (result : Fields)
    → create_command_result is_date now (obj e) input ≡ ok result
    → IsEnvelope is_date e × Reports e result (result_outputs input)
unfolding create_command_result validate_command_envelope result_errors get
create_command_result-Reports is_date now e input result h =
    let (valid, rest) = without_errors-ok (envelope_errors is_date e) _ _ result h in
    let (fine, done) = without_errors-ok (result_errors input) _ _ result rest in
    let envelope = (envelope_errors_iff is_date e).0 valid in
    let (known, clean) =
      (both _ _ (assert_known_iff input.status command_result_statuses "status")
          (caught_iff (assert_no_inline_secrets false (result_outputs input)))).0
        fine in
    (
      envelope,
      subst (λ r. Reports e r (result_outputs input)) (inner done)
          (record {
            of_command = let (s, i, k) = envelope.identified in rw i refl;
            of_node = let (s, i, k) = envelope.addressed in rw i refl;
            status_known = let (s, i, m) = known in (s, rw i refl, m);
            secret_free = (assert_no_inline_secrets_iff false (result_outputs input)).0 clean;
          }),
    )
  where
    inner : {a b : Fields} → ok a ≡ ok b → a ≡ b
    inner p = cc p
