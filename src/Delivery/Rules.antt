-- ===== src/Delivery/Rules.antt =====
-- Response rules (apps/web/src/shared/api/developmentClient.ts).
pub mod Laws
use full_revna_like_projekt.Base.{
  ℕ, String, Bool, true, false, ◌&&◌, Option, none, some, List, [], ◌==◌, if◌then◌else◌, or_else,
  length,
}
use full_revna_like_projekt.Base.Decimal.{to_text}
use full_revna_like_projekt.Base.Json.{end}
use full_revna_like_projekt.Table.{
  Table, size, find, find_id, assign, unshift, push, remove_id, reorder, find_all,
}
use full_revna_like_projekt.Client.{
  Client, Reply, ok, with_found, Moment, template_keyed, response_rule_keyed, subpage_config_keyed,
}
use Prim.Native.String.{◌++◌}
use full_revna_like_projekt.Types.Delivery.{
  ResponseRuleRecord, ResponseRuleCreateRequest, ResponseRuleUpdateRequest, ResponseRuleTestRequest,
  ResponseRuleTestResponse,
}

unfoldable pub rule_from_request : Moment → ℕ → ResponseRuleCreateRequest → ResponseRuleRecord
rule_from_request m count request = record {
  body = or_else request.body "";
  enabled = or_else request.enabled true;
  headers = or_else request.headers [];
  id = "rule_" ++ to_text m.first_ms;
  name = request.name;
  order = some (or_else request.order count);
  status_code = or_else request.status_code 200;
  trigger_status = request.trigger_status;
}

unfoldable pub create_response_rule :
    Moment → ResponseRuleCreateRequest → Client → Client × Reply ResponseRuleRecord
unfolding rule_from_request
create_response_rule m request c =
    let rule = rule_from_request m (size c.response_rules) request in
    (record c { response_rules = unshift rule c.response_rules }, ok rule)

unfoldable pub delete_response_rule : String → Client → Client
delete_response_rule i c = record c { response_rules = remove_id i c.response_rules }

-- `Object.assign(rule, request)`
unfoldable pub assign_rule : ResponseRuleUpdateRequest → ResponseRuleRecord → ResponseRuleRecord
assign_rule request a = record a {
  body = or_else request.body a.body;
  enabled = or_else request.enabled a.enabled;
  headers = or_else request.headers a.headers;
  name = or_else request.name a.name;
  order = or_else request.order a.order;
  status_code = or_else request.status_code a.status_code;
  trigger_status = or_else request.trigger_status a.trigger_status;
}

unfoldable pub update_response_rule :
    String → ResponseRuleUpdateRequest → Client → Client × Reply ResponseRuleRecord
unfolding assign_rule
update_response_rule i request c =
    with_found (find_id i c.response_rules) "Response rule not found" c λ r.
      let response_rules = assign r (assign_rule request) c.response_rules in
      (record c { response_rules = response_rules }, ok (response_rules.store r))

unfoldable pub reorder_response_rules : List String → Client → Client × Reply ℕ
reorder_response_rules ids c = (
  record c { response_rules = reorder (λ n a. record a { order = some n }) ids c.response_rules },
  ok (length (find_all ids c.response_rules)),
)

abbrev pub answers : String → ResponseRuleRecord → Bool
answers subscription_status rule = rule.enabled && (rule.trigger_status == subscription_status)

unfoldable pub test_response_rule : ResponseRuleTestRequest → Client → ResponseRuleTestResponse
test_response_rule request c = elim (find (answers request.subscription_status) c.response_rules) [
  | none ↦ record { body = ""; headers = []; matched = false; rule = none; status_code = 200 }
  | some r ↦
      let rule = c.response_rules.store r in
      record {
        body = rule.body;
        headers = rule.headers;
        matched = true;
        rule = some rule;
        status_code = rule.status_code;
      }
]
