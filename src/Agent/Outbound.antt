-- ===== src/Agent/Outbound.antt =====
-- The plans of outbounds (apps/node-agent/src/outbound-model.js), and the jobs of provisioning and
-- their results (apps/node-agent/src/provisioning-contracts.js).
pub mod Laws
use full_revna_like_projekt.Base.{
  String, Bool, false, not, Option, none, some, List, [], ◌∷◌, ◌++◌, or_else,
}
use full_revna_like_projekt.Base.Json.{
  Json, null, num, str, arr, obj, Items, nil, Fields, end, field, get, nullish,
}
use full_revna_like_projekt.Base.Reply.{Reply, ok, throws, and_then}
use full_revna_like_projekt.Agent.Checks.{
  require_string, assert_known, member, or_null, spread_value,
}
use full_revna_like_projekt.Agent.Secrets.{assert_no_inline_secrets}
use full_revna_like_projekt.Agent.Commands.{is_text, failing, caught, without_errors}
use full_revna_like_projekt.Agent.Plans.{first_of, given}
use full_revna_like_projekt.Agent.Firewall.{is_port}
use Prim.Native.String

abbrev pub outbound_model_version : String
outbound_model_version = "lumen.node-agent.outbound.v1"

-- `plan.endpoint?.key`
abbrev pub endpoint_of : String → Fields → Option Json
endpoint_of key plan = member key (nullish (get "endpoint" plan))

-- What `assertPort` adds to `errors`
unfoldable pub outbound_port_errors : Option Json → String → List String
outbound_port_errors port path =
    failing (not (is_port (or_else port null)))
      (String.◌++◌ path " must be an integer port between 1 and 65535")

-- `validateOutboundPlan(plan).errors` of an object
unfoldable pub outbound_errors : Fields → List String
unfolding outbound_port_errors
outbound_errors plan =
    failing (not (is_text (get "modelVersion" plan) outbound_model_version))
      (String.◌++◌ "modelVersion must be " outbound_model_version)
    ++ (require_string (get "id" plan) "id"
        ++ (require_string (get "nodeId" plan) "nodeId"
            ++ (require_string (get "protocol" plan) "protocol"
                ++ (require_string (get "adapter" plan) "adapter"
                    ++ (require_string (endpoint_of "host" plan) "endpoint.host"
                        ++ (outbound_port_errors (endpoint_of "port" plan) "endpoint.port"
                            ++ (require_string (get "credentialsRef" plan) "credentialsRef"
                                ++ caught (assert_no_inline_secrets false (obj plan)))))))))

unfoldable pub validate_outbound_plan : Json → List String
unfolding outbound_errors
validate_outbound_plan (obj plan) = outbound_errors plan
validate_outbound_plan _ = "outbound plan must be an object" ∷ []

-- `freezeArray(v)` of an array, where it is there
abbrev pub freeze_array : Option Json → Json
freeze_array (some (arr vs)) = arr vs
freeze_array _ = arr nil

-- The object that `createOutboundPlan` makes; its lists are arrays where they are there.
unfoldable pub outbound_of : Fields → Fields
unfolding spread_value
outbound_of input =
    let endpoint = nullish (get "endpoint" input) in
    let bind = nullish (get "bind" input) in
    field "modelVersion" (str outbound_model_version) (
      field "id" (or_else (get "id" input) null) (
        field "nodeId" (or_else (get "nodeId" input) null) (
          field "protocol" (or_else (get "protocol" input) null) (
            field "adapter" (or_else (first_of (get "adapter" input) (get "protocol" input)) null) (
              field "displayName"
                (or_else (first_of (get "displayName" input) (get "id" input)) null)
                (field "endpoint"
                  (obj (
                    given (
                      ("host", member "host" endpoint)
                      ∷ ("port", member "port" endpoint)
                      ∷ (
                        "transport",
                        some (or_else (nullish (member "transport" endpoint)) (str "tcp")),
                      )
                      ∷ [])))
                  (field "bind"
                    (obj (
                      given (
                        (
                          "address",
                          some (or_else (nullish (member "address" bind)) (str "0.0.0.0")),
                        )
                        ∷ ("port", first_of (member "port" bind) (member "port" endpoint))
                        ∷ (
                          "protocol",
                          some (
                              or_else
                                (nullish
                                  (first_of (member "protocol" bind) (member "transport" endpoint)))
                                (str "tcp")),
                        )
                        ∷ [])))
                    (field "credentialsRef" (or_else (get "credentialsRef" input) null) (
                      field "requiredCapabilities" (freeze_array (get "requiredCapabilities" input))
                        (field "tags" (freeze_array (get "tags" input)) (
                          field "status" (or_else (nullish (get "status" input)) (str "queued")) (
                            field "metadata" (obj (spread_value (get "metadata" input)))
                              end))))))))))))

unfoldable pub create_outbound_plan : Fields → Reply Fields
unfolding outbound_errors outbound_of
create_outbound_plan input = and_then (assert_no_inline_secrets false (obj input)) (λ u.
    without_errors (outbound_errors (outbound_of input)) "Invalid outbound plan: "
      (ok (outbound_of input)))

abbrev pub provisioning_job_contract_version : String
provisioning_job_contract_version = "lumen.node-agent.provisioning-job.v1"

abbrev pub provisioning_job_kinds : List String
provisioning_job_kinds =
    "node.provision" ∷ "node.deprovision" ∷ "outbound.apply" ∷ "outbound.remove"
    ∷ "capabilities.report" ∷ "conflict.scan" ∷ []

abbrev pub provisioning_job_statuses : List String
provisioning_job_statuses =
    "queued" ∷ "accepted" ∷ "running" ∷ "succeeded" ∷ "failed" ∷ "cancelled" ∷ []

unfoldable pub job_errors : Fields → List String
job_errors input =
    require_string (get "id" input) "id"
    ++ (require_string (get "nodeId" input) "nodeId"
        ++ (require_string (get "idempotencyKey" input) "idempotencyKey"
            ++ assert_known (get "kind" input) provisioning_job_kinds "kind"))

-- `createProvisioningJob(input)`
unfoldable pub create_provisioning_job : String → Fields → Reply Fields
unfolding job_errors spread_value
create_provisioning_job now input = without_errors (job_errors input) "Invalid provisioning job: " (
    and_then (assert_no_inline_secrets false (or_else (nullish (get "payload" input)) (obj end)))
      (λ u. ok (
        field "contractVersion" (str provisioning_job_contract_version) (
          field "id" (or_else (get "id" input) null) (
            field "kind" (or_else (get "kind" input) null) (
              field "nodeId" (or_else (get "nodeId" input) null) (
                field "idempotencyKey" (or_else (get "idempotencyKey" input) null) (
                  field "requestedBy"
                    (or_else (nullish (get "requestedBy" input)) (str "control-plane"))
                    (field "createdAt" (or_else (nullish (get "createdAt" input)) (str now)) (
                      field "deadlineAt" (or_null (get "deadlineAt" input))
                        (field "payload" (obj (spread_value (get "payload" input))) end)))))))))))

unfoldable pub job_result_errors : Option Json → Fields → List String
job_result_errors job input =
    require_string (member "id" job) "job.id"
    ++ assert_known (get "status" input) provisioning_job_statuses "status"

-- `createProvisioningResult(job, input)`; a `nodeId` that the job has not is left out.
unfoldable pub create_provisioning_result : String → Option Json → Fields → Reply Fields
unfolding job_result_errors spread_value
create_provisioning_result now job input =
    without_errors (job_result_errors job input) "Invalid provisioning result: " (
      and_then (assert_no_inline_secrets false (or_else (nullish (get "outputs" input)) (obj end)))
        (λ u. ok (
          given (
            ("contractVersion", some (str provisioning_job_contract_version))
            ∷ ("jobId", member "id" job)
            ∷ ("nodeId", member "nodeId" job)
            ∷ ("status", get "status" input)
            ∷ ("finishedAt", some (or_else (nullish (get "finishedAt" input)) (str now)))
            ∷ ("outputs", some (obj (spread_value (get "outputs" input))))
            ∷ ("conflicts", some (freeze_array (get "conflicts" input)))
            ∷ ("error", some (or_null (get "error" input)))
            ∷ []))))
