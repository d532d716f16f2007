-- ===== src/Agent/Firewall/Plans.antt =====
-- What passes the check of a whole plan, and what is created (apps/node-agent/src/firewall-plan.js).
use full_revna_like_projekt.Base.{
  ℕ, suc, String, ◌≡◌, refl, subst, inl, inr, ◌↔◌, true, false, Option, some, List, [], ◌∷◌, ◌++◌,
  arith, ◌==◌, eq_iff, or_else, any, map, All, Among, All-Among, All-of_Among, append-empty,
  Bool-cases,
}
use Prim.Native.String
use full_revna_like_projekt.Base.Distinct.{Distinct}
use full_revna_like_projekt.Base.Json.{
  Json, null, bool, num, str, arr, obj, Items, items, Fields, get, text_or_null,
}
use full_revna_like_projekt.Base.Reply.{ok, and_then-ok}
use full_revna_like_projekt.Base.Text.{trim, trim_start, trim_end}
use full_revna_like_projekt.Agent.Checks.{member}
use full_revna_like_projekt.Agent.Checks.Laws.{Filled, OneOf, require_string_iff, assert_known_iff}
use full_revna_like_projekt.Agent.Secrets.{assert_no_inline_secrets}
use full_revna_like_projekt.Agent.Secrets.Laws.{Leak, assert_no_inline_secrets_iff}
use full_revna_like_projekt.Agent.Commands.{failing}
use full_revna_like_projekt.Agent.Commands.Laws.{
  both, compose, failing_iff, caught_iff, not_text_iff,
}
use full_revna_like_projekt.Agent.Commands.Create.{without_errors-ok}
use full_revna_like_projekt.Registry.Ports.{map_reply}
use full_revna_like_projekt.Agent.Firewall.{
  firewall_plan_version, firewall_backends, firewall_default_policies, validate_firewall_rule,
  same_value, is_repeated, remember, rules_errors, plan_errors, PlanInput, plan_of,
  create_firewall_rule, create_firewall_plan, create_firewall_plan_from_outbounds,
  rule_input_of_outbound, outbounds_input, path_at,
}
use full_revna_like_projekt.Agent.Firewall.Laws.{IsRule, array_errors_iff, rule_errors_iff}

-- A value that is a rule
abbrev pub RuleValue : Json → Type 0
RuleValue v = (r : Fields) × (v ≡ obj r) × IsRule r

validate_firewall_rule_iff :
    (v : Json) (path : String) → (validate_firewall_rule v path ≡ []) ↔ RuleValue v
unfolding validate_firewall_rule
validate_firewall_rule_iff null path = ground arith
validate_firewall_rule_iff (bool b) path = ground arith
validate_firewall_rule_iff (num n) path = ground arith
validate_firewall_rule_iff (str s) path = ground arith
validate_firewall_rule_iff (arr vs) path = ground arith
validate_firewall_rule_iff (obj r) path = (
  λ e. (r, refl, (rule_errors_iff r path).0 e),
  λ (q, e, h). (rule_errors_iff r path).1 (subst IsRule (own q e) h),
)
  where
    own : (q : Fields) → obj r ≡ obj q → q ≡ r
    own q e = cc e

-- The identifier of a rule
abbrev pub id_of : Json → String
id_of v = or_else (text_or_null (member "id" (some v))) ""

-- None of the texts is among those seen, nor twice.
abbrev Unseen : List String → List String → Type 0
Unseen seen [] = Unit
Unseen seen (x ∷ xs) = (¬ Among x seen) × Unseen (x ∷ seen) xs

seen_iff :
    (s : String) (seen : List String)
    → (any (same_value (str s)) (map str seen) ≡ true) ↔ Among s seen
unfolding same_value
seen_iff s [] = (λ e. absurd (cc e), λ h. absurd h)
seen_iff s (t ∷ seen) = let ih = seen_iff s seen in ground (arith, eq_iff s t, ih)

repeated_iff :
    (seen : List String) (s : String)
    → (trim s == "") ≡ false
    → (is_repeated (map str seen) (some (str s)) ≡ false) ↔ ¬ Among s seen
unfolding trim trim_start trim_end
repeated_iff seen s h = elim (Bool-cases (s == "")) [
  | inl e ↦ absurd (blank s ((eq_iff s "").0 e) h)
  | inr e ↦ elim (Bool-cases (any (same_value (str s)) (map str seen))) [
    | inl a ↦ rw (e, a) (λ x. absurd (cc x), λ n. absurd (n ((seen_iff s seen).0 a)))
    | inr a ↦ rw (e, a) (λ x m. absurd (cc (a, (seen_iff s seen).1 m)), λ n. refl)
  ]
]
  where
    blank : (t : String) → t ≡ "" → ¬ ((trim t == "") ≡ false)
    blank t e k = absurd (cc (subst (λ x. (trim x == "") ≡ false) e k))

-- The identifier of a rule is a text that is not blank.
rule_id :
    (v : Json)
    → RuleValue v
    → (member "id" (some v) ≡ some (str (id_of v))) × ((trim (id_of v) == "") ≡ false)
rule_id v (r, e, h) = let (s, i, k) = h.identified in rw (e, i) (refl, k)

-- The errors that follow the check of the rule itself
abbrev rest_errors : Option Json → List Json → List Json → ℕ → List String
rest_errors id vs seen i =
    failing (is_repeated seen id) (String.◌++◌ (path_at "rules" i) ".id must be unique")
    ++ rules_errors vs (remember id seen) (suc i)

-- One rule, given what holds of those after it
rules_step :
    (v : Json) (vs : List Json) (seen : List String) (i : ℕ)
    → ((rules_errors vs (map str (id_of v ∷ seen)) (suc i) ≡ [])
        ↔ (All RuleValue vs × Unseen (id_of v ∷ seen) (map id_of vs)))
    → (rules_errors (v ∷ vs) (map str seen) i ≡ [])
      ↔ (All RuleValue (v ∷ vs) × Unseen seen (map id_of (v ∷ vs)))
unfolding rules_errors
rules_step v vs seen i later = (
  λ h.
      let (a, bc) = (append-empty (validate_firewall_rule v (path_at "rules" i)) _).0 h in
      let (b, c) = (rest (own.0 a)).0 bc in
      let (more, unseen) = later.0 c in ((own.0 a, more), (b, unseen)),
  λ ((rule, more), (b, unseen)).
      (append-empty (validate_firewall_rule v (path_at "rules" i)) _).1
        (own.1 rule, (rest rule).1 (b, later.1 (more, unseen))),
)
  where
    own : (validate_firewall_rule v (path_at "rules" i) ≡ []) ↔ RuleValue v
    own = validate_firewall_rule_iff v (path_at "rules" i)

    rest :
        RuleValue v
        → (rest_errors (member "id" (some v)) vs (map str seen) i ≡ [])
          ↔ ((¬ Among (id_of v) seen) × (rules_errors vs (map str (id_of v ∷ seen)) (suc i) ≡ []))
    rest rule =
        let (named, filled) = rule_id v rule in
        rw named (
          both _ _
            (compose (failing_iff (is_repeated (map str seen) (some (str (id_of v)))) _)
              (repeated_iff seen (id_of v) filled))
            (λ x. x, λ x. x))

rules_errors_iff :
    (vs : List Json) (seen : List String) (i : ℕ)
    → (rules_errors vs (map str seen) i ≡ []) ↔ (All RuleValue vs × Unseen seen (map id_of vs))
unfolding rules_errors
rules_errors_iff [] seen i = (λ e. (tt, tt), λ h. refl)
rules_errors_iff (v ∷ vs) seen i =
    rules_step v vs seen i (rules_errors_iff vs (id_of v ∷ seen) (suc i))

Unseen-iff : (seen xs : List String) → Unseen seen xs ↔ (Distinct xs × All (λ x. ¬ Among x seen) xs)
Unseen-iff seen [] = (λ h. (tt, tt), λ h. tt)
Unseen-iff seen (x ∷ xs) =
    let ih = Unseen-iff (x ∷ seen) xs in
    (
      λ (n, h).
          let (d, a) = ih.0 h in
          (
            (λ m. All-Among (λ y. ¬ Among y (x ∷ seen)) xs x a m (inl refl), d),
            (
              n,
              All-of_Among (λ y. ¬ Among y seen) xs
                  (λ y m k. All-Among (λ z. ¬ Among z (x ∷ seen)) xs y a m (inr k)),
            ),
          ),
      λ ((n, d), (m, a)). (
        m,
        ih.1 (
          d,
          All-of_Among (λ y. ¬ Among y (x ∷ seen)) xs
              (λ y k l. elim l [
                | inl e ↦ n (subst (λ z. Among z xs) e k)
                | inr o ↦ All-Among (λ z. ¬ Among z seen) xs y a k o
              ]),
        ),
      ),
    )

-- Rules with identifiers of their own
abbrev pub UniqueRules : List Json → Type 0
UniqueRules vs = All RuleValue vs × Distinct (map id_of vs)

-- A plan of the firewall, without the order in which it is checked
pub record IsFirewallPlan (plan : Fields) : Type 0 where
  pub versioned : get "modelVersion" plan ≡ some (str firewall_plan_version)
  pub identified : Filled (get "id" plan)
  pub addressed : Filled (get "nodeId" plan)
  pub backed : OneOf firewall_backends (get "backend" plan)
  pub inbound : OneOf firewall_default_policies (get "defaultInboundPolicy" plan)
  pub outbound : OneOf firewall_default_policies (get "defaultOutboundPolicy" plan)
  pub ruled : (vs : Items) × (get "rules" plan ≡ some (arr vs)) × UniqueRules (items vs)
  pub secret_free : ¬ Leak false "$" (obj plan)

UniqueRules-iff : (vs : List Json) → (rules_errors vs [] 0 ≡ []) ↔ UniqueRules vs
UniqueRules-iff vs =
    let (f, f') = rules_errors_iff vs [] 0 in
    let (g, g') = Unseen-iff [] (map id_of vs) in
    (
      λ h. let (a, u) = f h in (a, (g u).0),
      λ (a, d). f' (a, g' (d, All-of_Among (λ y. ¬ Among y []) (map id_of vs) (λ y m k. k))),
    )

-- The checks of a plan add no error exactly where it has the version, texts that are not blank as
-- identifiers, a known backend and known policies, and rules that have different identifiers, a known
-- action, direction and protocol, only ports from 1 to 65535, at least one of them unless the
-- protocol is "icmp", and address ranges that are not blank; and no field looks like a secret.
pub plan_errors_iff : (plan : Fields) → (plan_errors plan ≡ []) ↔ IsFirewallPlan plan
unfolding plan_errors
plan_errors_iff plan =
    compose
      (both _ _ (not_text_iff (get "modelVersion" plan) firewall_plan_version _) (
        both _ _ (require_string_iff (get "id" plan) _) (
          both _ _ (require_string_iff (get "nodeId" plan) _) (
            both _ _ (assert_known_iff (get "backend" plan) firewall_backends _) (
              both _ _
                (assert_known_iff (get "defaultInboundPolicy" plan) firewall_default_policies _)
                (both _ _
                  (assert_known_iff (get "defaultOutboundPolicy" plan) firewall_default_policies _)
                  (both _ _ (array_errors_iff UniqueRules (get "rules" plan) _ _ UniqueRules-iff) (
                    compose (caught_iff (assert_no_inline_secrets false (obj plan)))
                      (assert_no_inline_secrets_iff false (obj plan))))))))))
      (
        λ (v, (i, (a, (b, (p, (q, (r, f))))))). record {
          versioned = v;
          identified = i;
          addressed = a;
          backed = b;
          inbound = p;
          outbound = q;
          ruled = r;
          secret_free = f;
        },
        λ r. (
          r.versioned,
          (
            r.identified,
            (r.addressed, (r.backed, (r.inbound, (r.outbound, (r.ruled, r.secret_free))))),
          ),
        ),
      )

-- A plan that is created passes the checks.
pub create_firewall_plan-IsFirewallPlan :
    (input : PlanInput) (plan : Fields) → create_firewall_plan input ≡ ok plan → IsFirewallPlan plan
unfolding create_firewall_plan
create_firewall_plan-IsFirewallPlan input plan h =
    let (u, clean, more) = and_then-ok (assert_no_inline_secrets false input.whole) _ plan h in
    let (rules, made, rest) =
      and_then-ok (map_reply create_firewall_rule input.rules) _ plan more in
    let (valid, done) = without_errors-ok (plan_errors (plan_of input rules)) _ _ plan rest in
    subst IsFirewallPlan (inner done) ((plan_errors_iff (plan_of input rules)).0 valid)
  where
    inner : {a b : Fields} → ok a ≡ ok b → a ≡ b
    inner e = cc e

pub create_from_outbounds-IsFirewallPlan :
    (outbounds : List Fields) (cidrs : Option (List Json)) (input : PlanInput) (plan : Fields)
    → create_firewall_plan_from_outbounds outbounds cidrs input ≡ ok plan
    → IsFirewallPlan plan
unfolding create_firewall_plan_from_outbounds
create_from_outbounds-IsFirewallPlan outbounds cidrs input plan h =
    let (rules, made, rest) =
      and_then-ok (map_reply (λ o. create_firewall_rule (rule_input_of_outbound cidrs o)) outbounds)
        _ plan h in
    create_firewall_plan-IsFirewallPlan (outbounds_input input rules) plan rest
