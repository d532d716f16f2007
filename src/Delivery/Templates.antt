-- ===== src/Delivery/Templates.antt =====
-- Subscription templates (apps/web/src/shared/api/developmentClient.ts).
use full_revna_like_projekt.Base.{ℕ, String, some, List, or_else, length}
use full_revna_like_projekt.Base.Decimal.{to_text}
use full_revna_like_projekt.Base.Json.{end}
use full_revna_like_projekt.Table.{size, find_id, assign, unshift, remove_id, reorder, find_all}
use full_revna_like_projekt.Client.{
  Client, Reply, ok, with_found, Moment, template_keyed, response_rule_keyed, subpage_config_keyed,
}
use Prim.Native.String.{◌++◌}
use full_revna_like_projekt.Types.Delivery.{
  SubscriptionTemplateRecord, SubscriptionTemplateCreateRequest, SubscriptionTemplateUpdateRequest,
}

unfoldable pub template_from_request :
    Moment → ℕ → SubscriptionTemplateCreateRequest → SubscriptionTemplateRecord
template_from_request m count request = record {
  content_json = or_else request.content_json end;
  format = request.format;
  id = "tpl_" ++ to_text m.first_ms;
  name = request.name;
  order = some (or_else request.order count);
  status = or_else request.status "active";
}

unfoldable pub create_subscription_template :
    Moment → SubscriptionTemplateCreateRequest → Client → Client × Reply SubscriptionTemplateRecord
unfolding template_from_request
create_subscription_template m request c =
    let template = template_from_request m (size c.templates) request in
    (record c { templates = unshift template c.templates }, ok template)

unfoldable pub delete_subscription_template : String → Client → Client
delete_subscription_template i c = record c { templates = remove_id i c.templates }

-- `Object.assign(template, request)`
unfoldable pub assign_template :
    SubscriptionTemplateUpdateRequest → SubscriptionTemplateRecord → SubscriptionTemplateRecord
assign_template request a = record a {
  content_json = or_else request.content_json a.content_json;
  format = or_else request.format a.format;
  name = or_else request.name a.name;
  order = or_else request.order a.order;
  status = or_else request.status a.status;
}

unfoldable pub update_subscription_template :
    String → SubscriptionTemplateUpdateRequest → Client → Client × Reply SubscriptionTemplateRecord
unfolding assign_template
update_subscription_template i request c =
    with_found (find_id i c.templates) "Template not found" c λ r.
      let templates = assign r (assign_template request) c.templates in
      (record c { templates = templates }, ok (templates.store r))

unfoldable pub reorder_subscription_templates : List String → Client → Client × Reply ℕ
reorder_subscription_templates ids c = (
  record c { templates = reorder (λ n a. record a { order = some n }) ids c.templates },
  ok (length (find_all ids c.templates)),
)
