-- ===== src/Agent/Commands/Create.antt =====
-- What is created from the input of a command (apps/node-agent/src/command-envelope.js).
use full_revna_like_projekt.Base.{
  String, ◌≡◌, refl, subst, Bool, Option, none, some, List, [], ◌∷◌, or_else,
}
use full_revna_like_projekt.Base.Json.{Json, null, bool, num, str, arr, obj, Fields, get, nullish}
use full_revna_like_projekt.Base.Reply.{Reply, ok, and_then-ok}
use full_revna_like_projekt.Agent.Checks.{member, or_null, spread_value}
use full_revna_like_projekt.Agent.Secrets.{assert_no_inline_secrets}
use full_revna_like_projekt.Agent.Secrets.Laws.{assert_no_inline_secrets_iff}
use full_revna_like_projekt.Agent.Commands.{
  allows_credentials, envelope_errors, envelope_of, without_errors, create_command_envelope,
}
use full_revna_like_projekt.Agent.Commands.Laws.{IsEnvelope, envelope_errors_iff}

pub without_errors-ok :
    {A : Type 0} (errors : List String) (prefix : String) (rest : Reply A) (b : A)
    → without_errors errors prefix rest ≡ ok b
    → (errors ≡ []) × (rest ≡ ok b)
without_errors-ok [] prefix rest b h = (refl, h)
without_errors-ok (e ∷ es) prefix rest b h = absurd (cc h)

-- What is created is the envelope of its input, and passes the checks.
pub create_command_envelope-IsEnvelope :
    (is_date : String → Bool) (now : String) (input e : Fields)
    → create_command_envelope is_date now input ≡ ok e
    → (envelope_of now input ≡ e) × IsEnvelope is_date e
unfolding create_command_envelope
create_command_envelope-IsEnvelope is_date now input e h =
    let (u, r, rest) = and_then-ok (checked input) (λ u. without_errors errors invalid made) e h in
    let (none_wrong, done) = without_errors-ok errors invalid made e rest in
    let same : envelope_of now input ≡ e = cc done in
    (same, subst (IsEnvelope is_date) same ((envelope_errors_iff is_date _).0 none_wrong))
  where
    checked : Fields → Reply {0} Unit
    checked i = assert_no_inline_secrets (allows_credentials (get "command" i)) (obj i)

    errors : List String
    errors = envelope_errors is_date (envelope_of now input)

    invalid : String
    invalid = "Invalid command envelope: "

    made : Reply Fields
    made = ok (envelope_of now input)

or_else_filled :
    (v : Option Json) (d : Json)
    → nullish (some d) ≡ some d
    → nullish (some (or_else (nullish v) d)) ≡ some (or_else (nullish v) d)
or_else_filled none d h = h
or_else_filled (some null) d h = h
or_else_filled (some (bool b)) d h = refl
or_else_filled (some (num n)) d h = refl
or_else_filled (some (str s)) d h = refl
or_else_filled (some (arr vs)) d h = refl
or_else_filled (some (obj fs)) d h = refl

or_null_again : (v : Option Json) → or_null (some (or_null v)) ≡ or_null v
or_null_again none = refl
or_null_again (some null) = refl
or_null_again (some (bool b)) = refl
or_null_again (some (num n)) = refl
or_null_again (some (str s)) = refl
or_null_again (some (arr vs)) = refl
or_null_again (some (obj fs)) = refl

-- An envelope is what its own fields make, at any later time.
envelope_of_again :
    (now later : String) (input : Fields)
    → envelope_of later (envelope_of now input) ≡ envelope_of now input
unfolding envelope_of get spread_value
envelope_of_again now later input =
    rw
      (
        or_else_filled (get "sequence" input) (num 0) refl,
        or_else_filled (get "issuedAt" input) (str now) refl,
        or_null_again (get "expiresAt" input),
        or_else_filled (member "actor" (get "source" input)) (str "control-plane") refl,
        or_null_again (member "reason" (get "source" input)),
      )
      refl

-- An envelope that has been created is created again from its own fields at any later time, as the
-- agent does with a command that it is sent: nothing is refused and nothing changes.
pub create_command_envelope-again :
    (is_date : String → Bool) (now later : String) (input e : Fields)
    → create_command_envelope is_date now input ≡ ok e
    → create_command_envelope is_date later e ≡ ok e
unfolding create_command_envelope
create_command_envelope-again is_date now later input e h =
    let (same, valid) = create_command_envelope-IsEnvelope is_date now input e h in
    let clean =
      (assert_no_inline_secrets_iff (allows_credentials (get "command" e)) (obj e)).1
        valid.secret_free in
    let again : envelope_of later e ≡ e =
      subst (λ x. envelope_of later x ≡ x) same (envelope_of_again now later input) in
    rw (clean, again, (envelope_errors_iff is_date e).1 valid) refl
