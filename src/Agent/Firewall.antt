-- ===== src/Agent/Firewall.antt =====
-- The plans of a node's firewall (apps/node-agent/src/firewall-plan.js). The ports and the address
-- ranges of the input of a rule are arrays where they are there.
pub mod Laws
pub mod Plans
use full_revna_like_projekt.Base.{
  ℕ, zero, suc, String, Bool, true, false, not, ◌&&◌, ◌||◌, Option, none, some, List, [], ◌∷◌, ◌++◌,
  ◌==◌, ◌==ₙ◌, leb, if◌then◌else◌, or_else, any, map,
}
use full_revna_like_projekt.Base.Text.{to_lower_case}
use full_revna_like_projekt.Base.Decimal.{to_text}
use full_revna_like_projekt.Base.Json.{
  Json, null, bool, num, str, arr, obj, Items, nil, cons, items, of_list, Fields, end, field, get,
  nullish, truthy, array_or_empty, text_or_null, to_string,
}
use full_revna_like_projekt.Base.Reply.{Reply, ok, throws, and_then}
use full_revna_like_projekt.Agent.Checks.{
  require_string, assert_known, member, or_null, spread_value,
}
use full_revna_like_projekt.Agent.Secrets.{assert_no_inline_secrets}
use full_revna_like_projekt.Agent.Commands.{is_text, failing, caught, without_errors}
use full_revna_like_projekt.Agent.Plans.{first_of, given}
use full_revna_like_projekt.Registry.Ports.{map_reply}
use Prim.Native.String

abbrev pub firewall_plan_version : String
firewall_plan_version = "lumen.node-agent.firewall-plan.v1"

abbrev pub firewall_backends : List String
firewall_backends = "nftables" ∷ "iptables" ∷ "windows-firewall" ∷ "manual" ∷ []

abbrev pub firewall_rule_actions : List String
firewall_rule_actions = "allow" ∷ "deny" ∷ []

abbrev pub firewall_rule_directions : List String
firewall_rule_directions = "ingress" ∷ "egress" ∷ []

abbrev pub firewall_rule_protocols : List String
firewall_rule_protocols = "tcp" ∷ "udp" ∷ "icmp" ∷ []

abbrev pub firewall_default_policies : List String
firewall_default_policies = "allow" ∷ "deny" ∷ []

-- `Number.isInteger(v) && v >= 1 && v <= 65535`
abbrev pub is_port : Json → Bool
is_port (num n) = leb 1 n && leb n 65535
is_port _ = false

-- `${path}.key` and `${path}[index]`
abbrev pub under : String → String → String
under path key = String.◌++◌ path (String.◌++◌ "." key)

abbrev pub path_at : String → ℕ → String
path_at path i = String.◌++◌ path (String.◌++◌ "[" (String.◌++◌ (to_text i) "]"))

-- The errors of the ports from an index on
unfoldable pub port_errors : List Json → String → ℕ → List String
port_errors [] path i = []
port_errors (v ∷ vs) path i =
    failing (not (is_port v))
      (String.◌++◌ (path_at path i) " must be an integer port between 1 and 65535")
    ++ port_errors vs path (suc i)

unfoldable pub cidr_errors : List Json → String → ℕ → List String
cidr_errors [] path i = []
cidr_errors (v ∷ vs) path i =
    require_string (some v) (path_at path i) ++ cidr_errors vs path (suc i)

-- A check of an array, and the error where there is none
abbrev pub array_errors : Option Json → String → (List Json → List String) → List String
array_errors (some (arr vs)) path check = check (items vs)
array_errors _ path check = (String.◌++◌ path " must be an array") ∷ []

abbrev pub is_empty_array : Option Json → Bool
is_empty_array (some (arr nil)) = true
is_empty_array _ = false

-- What `validateFirewallRule` adds to `errors`
unfoldable pub rule_errors : Fields → String → List String
unfolding port_errors cidr_errors
rule_errors rule path =
    require_string (get "id" rule) (under path "id")
    ++ (assert_known (get "action" rule) firewall_rule_actions (under path "action")
        ++ (assert_known (get "direction" rule) firewall_rule_directions (under path "direction")
            ++ (assert_known (get "protocol" rule) firewall_rule_protocols (under path "protocol")
                ++ (array_errors (get "ports" rule) (under path "ports")
                      (λ vs. port_errors vs (under path "ports") 0)
                    ++ (array_errors (get "cidrs" rule) (under path "cidrs")
                          (λ vs. cidr_errors vs (under path "cidrs") 0)
                        ++ failing
                            (not (is_text (get "protocol" rule) "icmp")
                              && is_empty_array (get "ports" rule))
                            (String.◌++◌ path
                              ".ports must contain at least one port for tcp/udp rules"))))))

unfoldable pub validate_firewall_rule : Json → String → List String
unfolding rule_errors
validate_firewall_rule (obj rule) path = rule_errors rule path
validate_firewall_rule _ path = (String.◌++◌ path " must be an object") ∷ []

-- Are two values of a set the same? Arrays and objects are references of their own.
unfoldable pub same_value : Json → Json → Bool
same_value null null = true
same_value (bool true) (bool true) = true
same_value (bool false) (bool false) = true
same_value (num m) (num n) = m ==ₙ n
same_value (str s) (str t) = s == t
same_value _ _ = false

-- `rule?.id && seenIds.has(rule.id)`
abbrev pub is_repeated : List Json → Option Json → Bool
is_repeated seen none = false
is_repeated seen (some v) = truthy (some v) && any (same_value v) seen

abbrev pub remember : Option Json → List Json → List Json
remember none seen = seen
remember (some v) seen = v ∷ seen

-- The loop over the rules, with the identifiers that it has seen
unfoldable pub rules_errors : List Json → List Json → ℕ → List String
unfolding validate_firewall_rule same_value
rules_errors [] seen i = []
rules_errors (rule ∷ rules) seen i =
    validate_firewall_rule rule (path_at "rules" i)
    ++ (failing (is_repeated seen (member "id" (some rule)))
          (String.◌++◌ (path_at "rules" i) ".id must be unique")
        ++ rules_errors rules (remember (member "id" (some rule)) seen) (suc i))

-- `validateFirewallPlan(plan).errors` of an object
unfoldable pub plan_errors : Fields → List String
unfolding rules_errors
plan_errors plan =
    failing (not (is_text (get "modelVersion" plan) firewall_plan_version))
      (String.◌++◌ "modelVersion must be " firewall_plan_version)
    ++ (require_string (get "id" plan) "id"
        ++ (require_string (get "nodeId" plan) "nodeId"
            ++ (assert_known (get "backend" plan) firewall_backends "backend"
                ++ (assert_known (get "defaultInboundPolicy" plan) firewall_default_policies
                      "defaultInboundPolicy"
                    ++ (assert_known (get "defaultOutboundPolicy" plan) firewall_default_policies
                          "defaultOutboundPolicy"
                        ++ (array_errors (get "rules" plan) "rules"
                              (λ rules. rules_errors rules [] 0)
                            ++ caught (assert_no_inline_secrets false (obj plan))))))))

unfoldable pub validate_firewall_plan : Json → List String
unfolding plan_errors
validate_firewall_plan (obj plan) = plan_errors plan
validate_firewall_plan _ = "firewall plan must be an object" ∷ []

-- `[...new Set(ports)]`
unfoldable pub normalize_ports : List Json → List Json → List Json
unfolding same_value
normalize_ports seen [] = []
normalize_ports seen (v ∷ vs) =
    let rest = normalize_ports (v ∷ seen) vs in
    let skip = normalize_ports seen vs in if any (same_value v) seen then skip else v ∷ rest

-- The input of a rule
pub record RuleInput : Type 0 where
  pub id : Option Json
  pub owner_id : Option Json
  pub action : Option Json
  pub direction : Option Json
  pub protocol : Option String
  pub ports : Option (List Json)
  pub cidrs : Option (List Json)
  pub description : Option Json

abbrev pub rule_of : RuleInput → Fields
rule_of input = field "id" (or_else input.id null) (
    field "ownerId" (or_null input.owner_id) (
      field "action" (or_else (nullish input.action) (str "allow")) (
        field "direction" (or_else (nullish input.direction) (str "ingress")) (
          field "protocol" (str (to_lower_case (or_else input.protocol "tcp"))) (
            field "ports" (arr (of_list (normalize_ports [] (or_else input.ports [])))) (
              field "cidrs" (arr (of_list (or_else input.cidrs (str "0.0.0.0/0" ∷ []))))
                (field "description" (or_null input.description) end)))))))

unfoldable pub create_firewall_rule : RuleInput → Reply Fields
unfolding rule_errors normalize_ports
create_firewall_rule input =
    without_errors (rule_errors (rule_of input) "rule") "Invalid firewall rule: "
      (ok (rule_of input))

-- The input of a plan; `whole` is the input itself, which is searched for secrets.
pub record PlanInput : Type 0 where
  pub whole : Json
  pub id : Option Json
  pub node_id : Option Json
  pub backend : Option Json
  pub default_inbound_policy : Option Json
  pub default_outbound_policy : Option Json
  pub rules : List RuleInput
  pub metadata : Option Json

abbrev pub plan_of : PlanInput → List Fields → Fields
plan_of input rules = field "modelVersion" (str firewall_plan_version) (
    field "id" (or_else input.id null) (
      field "nodeId" (or_else input.node_id null) (
        field "backend" (or_else (nullish input.backend) (str "manual")) (
          field "defaultInboundPolicy" (or_else (nullish input.default_inbound_policy) (str "deny"))
            (field "defaultOutboundPolicy"
              (or_else (nullish input.default_outbound_policy) (str "allow"))
              (field "rules" (arr (of_list (map obj rules)))
                (field "metadata" (obj (spread_value input.metadata)) end)))))))

unfoldable pub create_firewall_plan : PlanInput → Reply Fields
unfolding create_firewall_rule map_reply plan_errors spread_value
create_firewall_plan input = and_then (assert_no_inline_secrets false input.whole) (λ u.
    and_then (map_reply create_firewall_rule input.rules) (λ rules.
      without_errors (plan_errors (plan_of input rules)) "Invalid firewall plan: "
        (ok (plan_of input rules))))

-- `${outbound.id}`
abbrev pub shown_id : Option Json → String
shown_id none = "undefined"
shown_id (some v) = to_string v

-- The rule for an outbound, whose protocol is a text where it is there
abbrev pub rule_input_of_outbound : Option (List Json) → Fields → RuleInput
rule_input_of_outbound cidrs outbound =
    let bind = nullish (get "bind" outbound) in
    let endpoint = nullish (get "endpoint" outbound) in
    record {
      id = some (str (String.◌++◌ "allow-" (shown_id (get "id" outbound))));
      owner_id = get "id" outbound;
      action = some (str "allow");
      direction = some (str "ingress");
      protocol = text_or_null (
          some (
            or_else (nullish (first_of (member "protocol" bind) (member "transport" endpoint)))
              (str "tcp")));
      ports = some (or_else (first_of (member "port" bind) (member "port" endpoint)) null ∷ []);
      cidrs = some (or_else cidrs (str "0.0.0.0/0" ∷ []));
      description =
          some (
            str (String.◌++◌ "Allow inbound traffic for outbound " (shown_id (get "id" outbound))));
    }

-- A rule that has been created, as the input of a rule again
abbrev pub rule_input_of_rule : Fields → RuleInput
rule_input_of_rule rule = record {
  id = get "id" rule;
  owner_id = get "ownerId" rule;
  action = get "action" rule;
  direction = get "direction" rule;
  protocol = text_or_null (get "protocol" rule);
  ports = some (array_or_empty (get "ports" rule));
  cidrs = some (array_or_empty (get "cidrs" rule));
  description = get "description" rule;
}

-- The object that is passed on to `createFirewallPlan`, with the rules
abbrev pub whole_of : PlanInput → List Fields → Json
whole_of input rules = obj (
    given (
      ("id", input.id)
      ∷ ("nodeId", input.node_id)
      ∷ ("backend", input.backend)
      ∷ ("defaultInboundPolicy", input.default_inbound_policy)
      ∷ ("defaultOutboundPolicy", input.default_outbound_policy)
      ∷ ("rules", some (arr (of_list (map obj rules))))
      ∷ ("metadata", input.metadata)
      ∷ []))

abbrev pub outbounds_input : PlanInput → List Fields → PlanInput
outbounds_input input rules = record input {
  whole = whole_of input rules;
  rules = map rule_input_of_rule rules;
}

-- `createFirewallPlanFromOutbounds(outbounds, input)`: `whole` and `rules` of the input are not read.
unfoldable pub create_firewall_plan_from_outbounds :
    List Fields → Option (List Json) → PlanInput → Reply Fields
unfolding create_firewall_rule create_firewall_plan map_reply
create_firewall_plan_from_outbounds outbounds cidrs input =
    and_then
      (map_reply (λ outbound. create_firewall_rule (rule_input_of_outbound cidrs outbound))
        outbounds)
      (λ rules. create_firewall_plan (outbounds_input input rules))
