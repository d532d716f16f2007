-- ===== src/Examples/Orders.antt =====
-- The theorems on plugins and response rules at clients with a few of them.
use full_revna_like_projekt.Base.{
  ℕ, String, ◌≡◌, ◌⊎◌, ◌↔◌, true, false, not, none, some, List, [], ◌∷◌, ◌++◌, map, arith, ◌==ₙ◌,
  filter, includes, All, Among, eq_iff,
}
use full_revna_like_projekt.Base.Distinct.{Distinct}
use full_revna_like_projekt.Table.{values, find_id, find_all, table_of}
use full_revna_like_projekt.Table.Map.{ids}
use full_revna_like_projekt.Table.Once.{Once}
use full_revna_like_projekt.Table.Numbering.{set_from}
use full_revna_like_projekt.Types.Delivery.{ResponseRuleRecord, ResponseRuleTestRequest}
use full_revna_like_projekt.Types.Plugins.{NodePluginCreateRequest}
use full_revna_like_projekt.Client.{Client, ok, response_rule_keyed, node_plugin_keyed}
use full_revna_like_projekt.Client.Initial.{initial}
use full_revna_like_projekt.Plugins.{rank, create_node_plugin, reorder_node_plugins}
use full_revna_like_projekt.Plugins.Laws.{
  SortedBy, asked_for, reordered, reorder_node_plugins_sorts,
}
use full_revna_like_projekt.Delivery.Rules.{answers, test_response_rule, reorder_response_rules}
use full_revna_like_projekt.Delivery.Rules.Laws.{
  test_response_rule_first, reorder_response_rules_orders,
}
use mathlib.Core.List.{Perm}

abbrev noon : String
noon = "2026-06-01T12:00:00Z"

abbrev plugin_request : NodePluginCreateRequest
plugin_request = record {
  node_id = none;
  kind = "blocklist";
  name = "blocklist";
  config_json = none;
  enabled = none;
  sort_order = none;
}

-- A client with two plugins, of the orders 10 and 0.
abbrev with_plugins : Client
with_plugins =
    (create_node_plugin (record { iso = noon; first_ms = 2; second_ms = 2 }) plugin_request
      (create_node_plugin (record { iso = noon; first_ms = 1; second_ms = 1 }) plugin_request
        initial).0).0

reorder_node_plugins_sorts_example :
    (let t = (reorder_node_plugins noon (("plugin_1", 20) ∷ []) with_plugins).0.node_plugins in
      Perm t.refs with_plugins.node_plugins.refs
      × ((j : String) (r : ℕ)
          → find_id j with_plugins.node_plugins ≡ some r
          → t.store r
            ≡ reordered noon
                (asked_for j (("plugin_1", 20) ∷ []))
                (with_plugins.node_plugins.store r))
      × SortedBy (rank t) t.refs
      × (filter (λ r. rank t r ==ₙ 10) t.refs
          ≡ filter (λ r. rank t r ==ₙ 10) with_plugins.node_plugins.refs)
      × ((reorder_node_plugins noon (("plugin_1", 20) ∷ []) with_plugins).1 ≡ ok (values t)))
reorder_node_plugins_sorts_example =
    reorder_node_plugins_sorts noon (("plugin_1", 20) ∷ []) with_plugins 10

abbrev rule : String → String → ResponseRuleRecord
rule rule_id trigger_status = record {
  body = "";
  enabled = true;
  headers = [];
  id = rule_id;
  name = rule_id;
  order = none;
  status_code = 403;
  trigger_status = trigger_status;
}

-- A client with two rules.
abbrev with_rules : Client
with_rules = record initial {
  response_rules = table_of (rule "" "") (rule "rule_1" "expired" ∷ rule "rule_2" "revoked" ∷ []);
}

abbrev about_revoked : ResponseRuleTestRequest
about_revoked = record { subscription_status = "revoked" }

test_response_rule_first_example :
    (let response = test_response_rule about_revoked with_rules in
      ((response.matched ≡ false)
        × (response.rule ≡ none)
        × (response.status_code ≡ 200)
        × All (λ found. answers "revoked" found ≡ false) (values with_rules.response_rules))
      ⊎ ((found : ResponseRuleRecord) × (before : List ResponseRuleRecord) × (after : List
            ResponseRuleRecord)
          × (values with_rules.response_rules ≡ before ++ found ∷ after)
          × All (λ other. answers "revoked" other ≡ false) before
          × (answers "revoked" found ≡ true)
          × (response ≡ record {
            body = found.body;
            headers = found.headers;
            matched = true;
            rule = some found;
            status_code = found.status_code;
          })))
test_response_rule_first_example = test_response_rule_first about_revoked with_rules

second_only : Distinct ("rule_2" ∷ [])
second_only = (λ m. m, tt)

rules-Distinct : Distinct (ids with_rules.response_rules)
rules-Distinct = ground (arith, eq_iff "rule_1" "rule_2")

rules-Once : Once with_rules.response_rules.refs
rules-Once = ground arith

reorder_response_rules_orders_example :
    (let t = (reorder_response_rules ("rule_2" ∷ []) with_rules).0.response_rules in
      (values t
        ≡ set_from
            (λ n a. record a { order = some n })
            0
            (map with_rules.response_rules.store
              (find_all ("rule_2" ∷ []) with_rules.response_rules))
          ++ filter (λ a. not (includes a.id ("rule_2" ∷ []))) (values with_rules.response_rules))
      × Once t.refs
      × ((r : ℕ) → Among r t.refs ↔ Among r with_rules.response_rules.refs))
reorder_response_rules_orders_example =
    reorder_response_rules_orders ("rule_2" ∷ []) with_rules second_only rules-Distinct rules-Once
