-- ===== src/Delivery/Pages.antt =====
-- Configurations of the subscription page (apps/web/src/shared/api/developmentClient.ts).
use full_revna_like_projekt.Base.{ℕ, String, some, List, or_else, length}
use full_revna_like_projekt.Base.Decimal.{to_text}
use full_revna_like_projekt.Base.Json.{end}
use full_revna_like_projekt.Table.{
  size, find_id, assign, unshift, push, remove_id, reorder, find_all,
}
use full_revna_like_projekt.Client.{
  Client, Reply, ok, with_found, Moment, template_keyed, response_rule_keyed, subpage_config_keyed,
}
use Prim.Native.String.{◌++◌}
use full_revna_like_projekt.Types.Delivery.{
  SubscriptionPageConfigRecord, SubscriptionPageConfigCreateRequest,
  SubscriptionPageConfigUpdateRequest, SubscriptionPageConfigCloneRequest,
}

unfoldable pub config_from_request :
    Moment → ℕ → SubscriptionPageConfigCreateRequest → SubscriptionPageConfigRecord
config_from_request m count request = record {
  config_json = or_else request.config_json end;
  id = "subpage_" ++ to_text m.first_ms;
  name = request.name;
  order = some (or_else request.order count);
  status = or_else request.status "active";
}

unfoldable pub create_subscription_page_config :
    Moment
    → SubscriptionPageConfigCreateRequest
    → Client
    → Client × Reply SubscriptionPageConfigRecord
unfolding config_from_request
create_subscription_page_config m request c =
    let config = config_from_request m (size c.subpage_configs) request in
    (record c { subpage_configs = unshift config c.subpage_configs }, ok config)

unfoldable pub delete_subscription_page_config : String → Client → Client
delete_subscription_page_config i c = record c { subpage_configs = remove_id i c.subpage_configs }

-- `Object.assign(config, request)`
unfoldable pub assign_config :
    SubscriptionPageConfigUpdateRequest
    → SubscriptionPageConfigRecord
    → SubscriptionPageConfigRecord
assign_config request a = record a {
  config_json = or_else request.config_json a.config_json;
  name = or_else request.name a.name;
  order = or_else request.order a.order;
  status = or_else request.status a.status;
}

unfoldable pub update_subscription_page_config :
    String
    → SubscriptionPageConfigUpdateRequest
    → Client
    → Client × Reply SubscriptionPageConfigRecord
unfolding assign_config
update_subscription_page_config i request c =
    with_found (find_id i c.subpage_configs) "Subscription page config not found" c λ r.
      let subpage_configs = assign r (assign_config request) c.subpage_configs in
      (record c { subpage_configs = subpage_configs }, ok (subpage_configs.store r))

unfoldable pub reorder_subscription_page_configs : List String → Client → Client × Reply ℕ
reorder_subscription_page_configs ids c = (
  record c { subpage_configs = reorder (λ n a. record a { order = some n }) ids c.subpage_configs },
  ok (length (find_all ids c.subpage_configs)),
)

-- A clone is pushed at the end.
unfoldable pub clone_subscription_page_config :
    Moment
    → String
    → SubscriptionPageConfigCloneRequest
    → Client
    → Client × Reply SubscriptionPageConfigRecord
clone_subscription_page_config m i request c =
    with_found (find_id i c.subpage_configs) "Subscription page config not found" c λ r.
      let source = c.subpage_configs.store r in
      let clone = record source {
        id = "subpage_" ++ to_text m.first_ms;
        name = or_else request.name (source.name ++ " copy");
        order = some (size c.subpage_configs);
        status = or_else request.status source.status;
      } in
      (record c { subpage_configs = push clone c.subpage_configs }, ok clone)
