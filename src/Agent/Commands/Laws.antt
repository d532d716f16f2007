-- ===== src/Agent/Commands/Laws.antt =====
-- What the checks of an envelope let through, and what is made of it
-- (apps/node-agent/src/command-envelope.js).
use full_revna_like_projekt.Base.{
  ℕ, String, ◌≡◌, refl, sym, subst, inl, inr, ◌⊎◌, ◌↔◌, Bool, true, false, not, ◌&&◌, Option, none,
  some, List, [], ◌++◌, arith, ◌==◌, eq_iff, if◌then◌else◌, append-empty, Bool-cases,
}
use full_revna_like_projekt.Base.Text.{trim}
use full_revna_like_projekt.Base.Json.{Json, null, bool, num, str, arr, obj, Fields, get, nullish}
use full_revna_like_projekt.Base.Reply.{Reply, ok, throws}
use full_revna_like_projekt.Agent.Checks.{require_string}
use full_revna_like_projekt.Agent.CommandType.{node_resume, node_quarantine}
use full_revna_like_projekt.Agent.Checks.Laws.{Filled, OneOf, require_string_iff, assert_known_iff}
use full_revna_like_projekt.Agent.Secrets.{assert_no_inline_secrets}
use full_revna_like_projekt.Agent.Secrets.Laws.{Leak, assert_no_inline_secrets_iff}
use full_revna_like_projekt.Agent.Commands.{
  command_envelope_version, known_command_types, is_text, failing, is_undated, assert_iso_date,
  is_no_flag, assert_lifecycle_payload, is_no_sequence, payload_errors, expiry_errors,
  allows_credentials, caught, envelope_errors,
}

-- A date
abbrev pub Dated : (String → Bool) → Option Json → Type 0
Dated is_date v = (s : String) × (v ≡ some (str s)) × ((trim s == "") ≡ false) × (is_date s ≡ true)

-- What the payload of a command needs.
pub record IsPayload (command : Option Json) (payload : Fields) : Type 0 where
  pub reasoned : is_text command node_quarantine ≡ true → Filled (get "reason" payload)
  pub flagged :
      is_text command node_resume ≡ true
      → (get "clearQuarantine" payload ≡ none)
        ⊎ ((b : Bool) × (get "clearQuarantine" payload ≡ some (bool b)))

-- What an envelope is, without the order in which it is checked.
pub record IsEnvelope (is_date : String → Bool) (e : Fields) : Type 0 where
  pub versioned : get "modelVersion" e ≡ some (str command_envelope_version)
  pub identified : Filled (get "id" e)
  pub addressed : Filled (get "nodeId" e)
  pub keyed : Filled (get "idempotencyKey" e)
  pub known : OneOf known_command_types (get "command" e)
  pub issued : Dated is_date (get "issuedAt" e)
  pub expires : (nullish (get "expiresAt" e) ≡ none) ⊎ Dated is_date (nullish (get "expiresAt" e))
  pub sequenced : (n : ℕ) × (get "sequence" e ≡ some (num n))
  pub carries : (p : Fields) × (get "payload" e ≡ some (obj p)) × IsPayload (get "command" e) p
  pub secret_free : ¬ Leak (allows_credentials (get "command" e)) "$" (obj e)

pub failing_iff : (b : Bool) (message : String) → (failing b message ≡ []) ↔ (b ≡ false)
failing_iff true message = (λ h. absurd (cc h), λ h. absurd (cc h))
failing_iff false message = (λ h. refl, λ h. refl)

pub is_text_iff : (v : Option Json) (t : String) → (is_text v t ≡ true) ↔ (v ≡ some (str t))
is_text_iff none t = ground arith
is_text_iff (some null) t = ground arith
is_text_iff (some (bool b)) t = ground arith
is_text_iff (some (num n)) t = ground arith
is_text_iff (some (str s)) t = ground (arith, eq_iff s t)
is_text_iff (some (arr vs)) t = ground arith
is_text_iff (some (obj fs)) t = ground arith

assert_iso_date_iff :
    (is_date : String → Bool) (v : Option Json) (path : String)
    → (assert_iso_date is_date v path ≡ []) ↔ Dated is_date v
unfolding assert_iso_date
assert_iso_date_iff is_date v path = (
  λ h.
      let (f, g) = (append-empty (require_string v path) _).0 h in
      let (s, e, k) = (require_string_iff v path).0 f in
      (s, e, k, dated s e ((failing_iff (is_undated is_date v) _).0 g)),
  λ (s, e, k, d). (append-empty (require_string v path) _).1 (
    (require_string_iff v path).1 (s, e, k),
    (failing_iff (is_undated is_date v) _).1 (rw (e, d) refl),
  ),
)
  where
    dated : (s : String) → v ≡ some (str s) → is_undated is_date v ≡ false → is_date s ≡ true
    dated s e u = elim (Bool-cases (is_date s)) [
      | inl d ↦ d
      | inr d ↦ absurd (cc (sym (subst (λ w. is_undated is_date w ≡ false) e u), ap_not d))
    ]
      where
        ap_not : is_date s ≡ false → not (is_date s) ≡ true
        ap_not n = rw n refl

expiry_errors_iff :
    (is_date : String → Bool) (v : Option Json)
    → (expiry_errors is_date v ≡ []) ↔ ((v ≡ none) ⊎ Dated is_date v)
expiry_errors_iff is_date none = (λ h. inl refl, λ h. refl)
expiry_errors_iff is_date (some v) =
    let dated = assert_iso_date_iff is_date (some v) "expiresAt" in
    (λ h. inr (dated.0 h), λ h. elim h [ inl e ↦ absurd (cc e) | inr d ↦ dated.1 d ])

is_no_flag_iff :
    (v : Option Json) → (is_no_flag v ≡ false) ↔ ((v ≡ none) ⊎ ((b : Bool) × (v ≡ some (bool b))))
is_no_flag_iff none = (λ h. inl refl, λ h. refl)
is_no_flag_iff (some (bool b)) = (λ h. inr (b, refl), λ h. refl)
is_no_flag_iff (some null) = ground arith
is_no_flag_iff (some (num n)) = ground arith
is_no_flag_iff (some (str s)) = ground arith
is_no_flag_iff (some (arr vs)) = ground arith
is_no_flag_iff (some (obj fs)) = ground arith

is_no_sequence_iff : (v : Option Json) → (is_no_sequence v ≡ false) ↔ ((n : ℕ) × (v ≡ some (num n)))
is_no_sequence_iff none = ground arith
is_no_sequence_iff (some (num n)) = (λ h. (n, refl), λ h. refl)
is_no_sequence_iff (some null) = ground arith
is_no_sequence_iff (some (bool b)) = ground arith
is_no_sequence_iff (some (str s)) = ground arith
is_no_sequence_iff (some (arr vs)) = ground arith
is_no_sequence_iff (some (obj fs)) = ground arith

-- Two checks, one after the other
pub both :
    {P Q : Type 0} (xs ys : List String) → (xs ≡ []) ↔ P → (ys ≡ []) ↔ Q → (xs ++ ys ≡ []) ↔ (P × Q)
both xs ys (f, f') (g, g') = (
  λ h. let (p, q) = (append-empty xs ys).0 h in (f p, g q),
  λ (p, q). (append-empty xs ys).1 (f' p, g' q),
)

reasoned_iff :
    (quarantines : Bool) (v : Option Json)
    → ((if quarantines then require_string v "payload.reason" else []) ≡ [])
      ↔ (quarantines ≡ true → Filled v)
reasoned_iff true v =
    let filled = require_string_iff v "payload.reason" in
    (λ h e. filled.0 h, λ h. filled.1 (h refl))
reasoned_iff false v = (λ h e. absurd (cc e), λ h. refl)

flagged_iff :
    (resumes : Bool) (v : Option Json) (message : String)
    → (failing (resumes && is_no_flag v) message ≡ [])
      ↔ (resumes ≡ true → (v ≡ none) ⊎ ((b : Bool) × (v ≡ some (bool b))))
flagged_iff true v message =
    let flag = is_no_flag_iff v in
    let fails = failing_iff (is_no_flag v) message in
    (λ h e. flag.0 (fails.0 h), λ h. fails.1 (flag.1 (h refl)))
flagged_iff false v message = (λ h e. absurd (cc e), λ h. refl)

payload_errors_iff :
    (command v : Option Json)
    → (payload_errors command v ≡ []) ↔ ((p : Fields) × (v ≡ some (obj p)) × IsPayload command p)
unfolding assert_lifecycle_payload
payload_errors_iff command none = ground arith
payload_errors_iff command (some null) = ground arith
payload_errors_iff command (some (bool b)) = ground arith
payload_errors_iff command (some (num n)) = ground arith
payload_errors_iff command (some (str s)) = ground arith
payload_errors_iff command (some (arr vs)) = ground arith
payload_errors_iff command (some (obj p)) =
    let parts =
      both _ _ (reasoned_iff (is_text command node_quarantine) (get "reason" p))
        (flagged_iff (is_text command node_resume) (get "clearQuarantine" p) _) in
    (
      λ h. let (r, f) = parts.0 h in (p, refl, record { reasoned = r; flagged = f }),
      λ (q, e, c). parts.1 (
        λ t. subst (λ x. Filled (get "reason" x)) (own q e) (c.reasoned t),
        λ t.
            subst
              (λ x.
                (get "clearQuarantine" x ≡ none)
                ⊎ ((b : Bool) × (get "clearQuarantine" x ≡ some (bool b))))
              (own q e) (c.flagged t),
      ),
    )
  where
    own : (q : Fields) → some (obj p) ≡ some (obj q) → q ≡ p
    own q e = cc e

pub caught_iff : (r : Reply {0} Unit) → (caught r ≡ []) ↔ (r ≡ ok tt)
caught_iff (ok tt) = (λ h. refl, λ h. refl)
caught_iff (throws m) = (λ h. absurd (cc h), λ h. absurd (cc h))

pub compose : {P Q R : Type 0} → P ↔ Q → Q ↔ R → P ↔ R
compose (f, f') (g, g') = (λ p. g (f p), λ r. f' (g' r))

pub not_text_iff :
    (v : Option Json) (text message : String)
    → (failing (not (is_text v text)) message ≡ []) ↔ (v ≡ some (str text))
not_text_iff v text message = elim (Bool-cases (is_text v text)) [
  | inl e ↦ rw e (λ h. (is_text_iff v text).0 e, λ h. refl)
  | inr e ↦ rw e (λ h. absurd (cc h), λ h. absurd (cc (e, (is_text_iff v text).1 h)))
]

-- The checks of an envelope add no error exactly where it has the version, texts that are not blank
-- as identifiers, a known command, dates, a sequence number, a payload as its command needs it, and
-- no field that looks like a secret where none is allowed.
pub envelope_errors_iff :
    (is_date : String → Bool) (e : Fields) → (envelope_errors is_date e ≡ []) ↔ IsEnvelope is_date e
unfolding envelope_errors
envelope_errors_iff is_date e =
    compose
      (both _ _ (not_text_iff (get "modelVersion" e) command_envelope_version _) (
        both _ _ (require_string_iff (get "id" e) "id") (
          both _ _ (require_string_iff (get "nodeId" e) "nodeId") (
            both _ _ (require_string_iff (get "idempotencyKey" e) "idempotencyKey") (
              both _ _ (assert_known_iff (get "command" e) known_command_types "command") (
                both _ _ (assert_iso_date_iff is_date (get "issuedAt" e) "issuedAt") (
                  both _ _ (expiry_errors_iff is_date (nullish (get "expiresAt" e))) (
                    both _ _
                      (compose (failing_iff (is_no_sequence (get "sequence" e)) _)
                        (is_no_sequence_iff (get "sequence" e)))
                      (both _ _ (payload_errors_iff (get "command" e) (get "payload" e)) (
                        compose
                          (caught_iff (
                            assert_no_inline_secrets (allows_credentials (get "command" e))
                              (obj e)))
                          (assert_no_inline_secrets_iff (allows_credentials (get "command" e))
                            (obj e))))))))))))
      (
        λ (v, (i, (a, (k, (c, (t, (x, (s, (p, f))))))))). record {
          versioned = v;
          identified = i;
          addressed = a;
          keyed = k;
          known = c;
          issued = t;
          expires = x;
          sequenced = s;
          carries = p;
          secret_free = f;
        },
        λ r. (
          r.versioned,
          (
            r.identified,
            (
              r.addressed,
              (
                r.keyed,
                (r.known, (r.issued, (r.expires, (r.sequenced, (r.carries, r.secret_free))))),
              ),
            ),
          ),
        ),
      )
