-- ===== src/Agent/Outbound/Laws.antt =====
-- What passes the check of an outbound plan, and what is created
-- (apps/node-agent/src/outbound-model.js).
use full_revna_like_projekt.Base.{String, ◌≡◌, subst, ◌↔◌, false, Option, some, [], or_else}
use full_revna_like_projekt.Base.Json.{Json, null, str, obj, Fields, get}
use full_revna_like_projekt.Base.Reply.{ok, and_then-ok}
use full_revna_like_projekt.Agent.Checks.Laws.{Filled, require_string_iff}
use full_revna_like_projekt.Agent.Secrets.{assert_no_inline_secrets}
use full_revna_like_projekt.Agent.Secrets.Laws.{Leak, assert_no_inline_secrets_iff}
use full_revna_like_projekt.Agent.Commands.Laws.{
  both, compose, failing_iff, caught_iff, not_text_iff,
}
use full_revna_like_projekt.Agent.Commands.Create.{without_errors-ok}
use full_revna_like_projekt.Agent.Firewall.Laws.{IsPort, is_port_iff}
use full_revna_like_projekt.Agent.Outbound.{
  outbound_model_version, endpoint_of, outbound_port_errors, outbound_errors, outbound_of,
  create_outbound_plan,
}

outbound_port_errors_iff :
    (port : Option Json) (path : String)
    → (outbound_port_errors port path ≡ []) ↔ IsPort (or_else port null)
unfolding outbound_port_errors
outbound_port_errors_iff port path = compose (failing_iff _ _) (is_port_iff (or_else port null))

-- The plan of an outbound, without the order in which it is checked
pub record IsOutboundPlan (plan : Fields) : Type 0 where
  pub versioned : get "modelVersion" plan ≡ some (str outbound_model_version)
  pub identified : Filled (get "id" plan)
  pub addressed : Filled (get "nodeId" plan)
  pub spoken : Filled (get "protocol" plan)
  pub adapted : Filled (get "adapter" plan)
  pub hosted : Filled (endpoint_of "host" plan)
  pub on_port : IsPort (or_else (endpoint_of "port" plan) null)
  pub credited : Filled (get "credentialsRef" plan)
  pub secret_free : ¬ Leak false "$" (obj plan)

pub outbound_errors_iff : (plan : Fields) → (outbound_errors plan ≡ []) ↔ IsOutboundPlan plan
unfolding outbound_errors
outbound_errors_iff plan =
    compose
      (both _ _ (not_text_iff (get "modelVersion" plan) outbound_model_version _) (
        both _ _ (require_string_iff (get "id" plan) _) (
          both _ _ (require_string_iff (get "nodeId" plan) _) (
            both _ _ (require_string_iff (get "protocol" plan) _) (
              both _ _ (require_string_iff (get "adapter" plan) _) (
                both _ _ (require_string_iff (endpoint_of "host" plan) _) (
                  both _ _ (outbound_port_errors_iff (endpoint_of "port" plan) "endpoint.port") (
                    both _ _ (require_string_iff (get "credentialsRef" plan) "credentialsRef") (
                      compose (caught_iff (assert_no_inline_secrets false (obj plan)))
                        (assert_no_inline_secrets_iff false (obj plan)))))))))))
      (
        λ (v, (i, (a, (s, (d, (h, (p, (c, f)))))))). record {
          versioned = v;
          identified = i;
          addressed = a;
          spoken = s;
          adapted = d;
          hosted = h;
          on_port = p;
          credited = c;
          secret_free = f;
        },
        λ r. (
          r.versioned,
          (
            r.identified,
            (
              r.addressed,
              (r.spoken, (r.adapted, (r.hosted, (r.on_port, (r.credited, r.secret_free))))),
            ),
          ),
        ),
      )

-- The plan that is created passes the checks, and neither it nor its input has a field that looks
-- like a secret.
pub create_outbound_plan-IsOutboundPlan :
    (input plan : Fields)
    → create_outbound_plan input ≡ ok plan
    → IsOutboundPlan plan × (¬ Leak false "$" (obj input))
unfolding create_outbound_plan
create_outbound_plan-IsOutboundPlan input plan h =
    let (u, clean, more) = and_then-ok (assert_no_inline_secrets false (obj input)) _ plan h in
    let (valid, done) = without_errors-ok (outbound_errors (outbound_of input)) _ _ plan more in
    (
      subst IsOutboundPlan (inner done) ((outbound_errors_iff (outbound_of input)).0 valid),
      (assert_no_inline_secrets_iff false (obj input)).0 clean,
    )
  where
    inner : {a b : Fields} → ok a ≡ ok b → a ≡ b
    inner e = cc e
