-- ===== src/Agent/Plans.antt =====
-- The choice of what a command does to the runtimes of a node: the functions `…PlanFromEnvelope` of
-- apps/node-agent/src/runtime-runner.js, and the cases of `applyNodeCommand` that use them. The
-- functions of the runtimes that make a plan (`createXrayApplyPlan` and the others) are a parameter,
-- which takes the type of the action and the argument, and gives a plan or throws.
use full_revna_like_projekt.Base.{
  String, Bool, true, false, not, ◌&&◌, Option, none, some, List, [], ◌∷◌, ◌==◌, if◌then◌else◌,
  or_else,
}
use full_revna_like_projekt.Base.Text.{begins_with}
use full_revna_like_projekt.Base.Json.{
  Json, str, obj, Fields, end, field, get, nullish, truthy, to_string,
}
use full_revna_like_projekt.Base.Reply.{Reply, ok, throws, and_then}
use full_revna_like_projekt.Agent.Checks.{member}
use full_revna_like_projekt.Agent.CommandType.{Command, apply_firewall, apply_outbound}

-- `createXrayApplyPlan` and the others, by the type of the action for which they plan.
abbrev pub Planner : Type 0
Planner = String → Fields → Reply Json

-- `runtimeAction`
pub record RuntimeAction : Type 0 where
  pub kind : String
  pub plan : Option Json
  pub listener_id : Option Json
  pub config_dir : Option Json
  pub runtime_dir : Option Json

abbrev pub planned : String → Json → RuntimeAction
planned kind plan = record {
  kind = kind;
  plan = some plan;
  listener_id = none;
  config_dir = none;
  runtime_dir = none;
}

abbrev pub bare : String → RuntimeAction
bare kind = record {
  kind = kind;
  plan = none;
  listener_id = none;
  config_dir = none;
  runtime_dir = none;
}

-- `a ?? b`
abbrev pub first_of : Option Json → Option Json → Option Json
first_of v w = elim (nullish v) [ none ↦ w | some x ↦ some x ]

-- An object whose fields that are `undefined` are left out.
abbrev pub given : List (String × Option Json) → Fields
given [] = end
given ((key, none) ∷ rest) = given rest
given ((key, some v) ∷ rest) = field key v (given rest)

-- `payload.profileId ?? payload.profile_id ?? payload.outboundId ?? envelope.id`
abbrev pub plan_id : Fields → Option Json → Option Json
plan_id payload fallback =
    first_of (get "profileId" payload)
      (first_of (get "profile_id" payload) (first_of (get "outboundId" payload) fallback))

-- `plan ? { type, plan } : null` of a plan that is made where the payload has its configuration.
abbrev pub planned_if : Bool → String → Reply Json → Reply (Option RuntimeAction)
planned_if true kind plan = and_then plan (λ p. ok (some (planned kind p)))
planned_if false kind plan = ok none

module _ (plans : Planner) (id : Option Json) (payload : Fields) where
  -- A field of the payload, under the name that the planner has for it
  abbrev taken : String → String → String × Option Json
  taken name key = (name, get key payload)

  abbrev plan_from : String → String → List (String × Option Json) → Reply (Option RuntimeAction)
  plan_from kind config fields =
      planned_if (truthy (get config payload)) kind
        (plans kind (given (("id", plan_id payload id) ∷ (config, get config payload) ∷ fields)))

  unfoldable pub xray_apply_plan_from_envelope : Reply (Option RuntimeAction)
  xray_apply_plan_from_envelope = plan_from "xray.apply" "xrayConfig" (
      taken "configPath" "xrayConfigPath"
      ∷ taken "xrayBinary" "xrayBinary"
      ∷ taken "reloadArgv" "xrayReloadArgv"
      ∷ [])

  unfoldable pub hysteria2_apply_plan_from_envelope : Reply (Option RuntimeAction)
  hysteria2_apply_plan_from_envelope =
      plan_from "hysteria2.apply" "hysteria2Config"
        (taken "configPath" "hysteria2ConfigPath" ∷ taken "reloadArgv" "hysteria2ReloadArgv" ∷ [])

  unfoldable pub sing_box_shadowsocks_apply_plan_from_envelope : Reply (Option RuntimeAction)
  sing_box_shadowsocks_apply_plan_from_envelope =
      plan_from "sing-box-shadowsocks.apply" "singBoxShadowsocksConfig"
        (taken "configPath" "singBoxShadowsocksConfigPath" ∷ [])

  unfoldable pub shadowsocks_plugin_apply_plan_from_envelope : Reply (Option RuntimeAction)
  shadowsocks_plugin_apply_plan_from_envelope =
      plan_from "shadowsocks-plugin.apply" "shadowsocksPluginConfig"
        (taken "configPath" "shadowsocksPluginConfigPath" ∷ [])

  unfoldable pub naive_apply_plan_from_envelope : Reply (Option RuntimeAction)
  naive_apply_plan_from_envelope =
      plan_from "naive.apply" "naiveConfig"
        (taken "configPath" "naiveConfigPath" ∷ taken "reloadArgv" "naiveReloadArgv" ∷ [])

  -- Without Shadowsocks
  unfoldable pub open_vpn_apply_plan_from_envelope : Reply (Option RuntimeAction)
  open_vpn_apply_plan_from_envelope =
      planned_if
        (truthy (get "openvpnConfig" payload)
          && not (truthy (get "openvpnShadowsocksConfig" payload)))
        "openvpn.apply"
        (plans "openvpn.apply" (
          given (
            ("id", plan_id payload id)
            ∷ taken "openvpnConfig" "openvpnConfig"
            ∷ taken "configPath" "openvpnConfigPath"
            ∷ [])))

  unfoldable pub open_vpn_shadowsocks_apply_plan_from_envelope : Reply (Option RuntimeAction)
  open_vpn_shadowsocks_apply_plan_from_envelope =
      plan_from "openvpn-shadowsocks.apply" "openvpnShadowsocksConfig"
        (taken "configPath" "openvpnShadowsocksConfigPath" ∷ [])

  unfoldable pub ikev2_apply_plan_from_envelope : Reply (Option RuntimeAction)
  ikev2_apply_plan_from_envelope =
      plan_from "ikev2.apply" "ikev2Config"
        (taken "configDir" "ikev2ConfigDir" ∷ taken "runtimeDir" "ikev2RuntimeDir" ∷ [])

  unfoldable pub tuic_apply_plan_from_envelope : Reply (Option RuntimeAction)
  tuic_apply_plan_from_envelope =
      plan_from "tuic.apply" "tuicConfig"
        (taken "configPath" "tuicConfigPath" ∷ taken "reloadArgv" "tuicReloadArgv" ∷ [])

  unfoldable pub wireguard_apply_plan_from_envelope : Reply (Option RuntimeAction)
  wireguard_apply_plan_from_envelope = plan_from "wireguard.apply" "wireguardConfig" (
      taken "configPath" "wireguardConfigPath"
      ∷ taken "reloadMode" "wireguardReloadMode"
      ∷ taken "reloadArgv" "wireguardReloadArgv"
      ∷ [])

  unfoldable pub node_policy_apply_plan_from_payload : Reply (Option RuntimeAction)
  node_policy_apply_plan_from_payload =
      plan_from "node-policy.apply" "nodePolicy"
        (taken "policyPath" "nodePolicyPath" ∷ taken "policyDir" "nodePolicyDir" ∷ [])

  -- `payload.adapter !== "tcp-diagnostic-listener"`, and otherwise the plan of a listener
  unfoldable pub live_listener_plan_from_envelope : Reply (Option RuntimeAction)
  live_listener_plan_from_envelope =
      let listener = some (or_else (nullish (get "liveListener" payload)) (obj end)) in
      let bind = nullish (get "bind" payload) in
      planned_if (is_adapter (get "adapter" payload)) "tcp-diagnostic.start" (
        plans "tcp-diagnostic.start" (
          given (
            ("id", first_of (member "id" listener) (first_of (get "outboundId" payload) id))
            ∷ ("address", first_of (member "address" listener) (member "address" bind))
            ∷ (
              "port",
              first_of (member "port" listener) (
                  first_of (member "port" bind) (member "port" (nullish (get "endpoint" payload)))),
            )
            ∷ ("banner", member "banner" listener)
            ∷ ("ttlMs", first_of (member "ttlMs" listener) (get "ttlMs" payload))
            ∷ [])))
    where
      is_adapter : Option Json → Bool
      is_adapter (some (str s)) = s == "tcp-diagnostic-listener"
      is_adapter _ = false

  -- `if (!runtimeAction) { … }`
  abbrev or_plan :
      Reply (Option RuntimeAction) → Reply (Option RuntimeAction) → Reply (Option RuntimeAction)
  or_plan (throws m) next = throws m
  or_plan (ok none) next = next
  or_plan (ok (some a)) next = ok (some a)

  -- The policy of the node is what a firewall command applies.
  abbrev if_firewall : Command → Option RuntimeAction → Option RuntimeAction
  if_firewall apply_firewall a = a
  if_firewall _ a = none

  abbrev if_outbound : Command → Reply (Option RuntimeAction) → Reply (Option RuntimeAction)
  if_outbound apply_outbound listener = listener
  if_outbound _ listener = ok none

  -- `runtimeAction` of the commands that apply something: the plans of the policy, of Xray and of the
  -- listener are made in each case, the others only where there is no action yet.
  unfoldable pub apply_action : Command → Reply (Option RuntimeAction)
  unfolding xray_apply_plan_from_envelope hysteria2_apply_plan_from_envelope
      sing_box_shadowsocks_apply_plan_from_envelope shadowsocks_plugin_apply_plan_from_envelope
      naive_apply_plan_from_envelope open_vpn_apply_plan_from_envelope
      open_vpn_shadowsocks_apply_plan_from_envelope ikev2_apply_plan_from_envelope
      tuic_apply_plan_from_envelope wireguard_apply_plan_from_envelope
      node_policy_apply_plan_from_payload live_listener_plan_from_envelope
  apply_action command = and_then node_policy_apply_plan_from_payload (λ policy.
      let before_listener = and_then xray_apply_plan_from_envelope (λ xray. or_plan (ok xray) (
        or_plan (ok (if_firewall command policy)) (
          or_plan hysteria2_apply_plan_from_envelope (
            or_plan sing_box_shadowsocks_apply_plan_from_envelope (
              or_plan shadowsocks_plugin_apply_plan_from_envelope (
                or_plan naive_apply_plan_from_envelope (
                  or_plan open_vpn_shadowsocks_apply_plan_from_envelope (
                    or_plan open_vpn_apply_plan_from_envelope (
                      or_plan ikev2_apply_plan_from_envelope (
                        or_plan tuic_apply_plan_from_envelope
                          wireguard_apply_plan_from_envelope)))))))))) in
      and_then before_listener (λ action.
        and_then (if_outbound command live_listener_plan_from_envelope)
          (λ listener. or_plan (ok action) (ok listener))))

  -- `runtimeAction` of a removal, by the adapter
  unfoldable pub remove_action : RuntimeAction
  unfolding to_string begins_with
  remove_action =
      let adapter = or_else (nullish (get "adapter" payload)) (str "") in
      if begins_with (to_string adapter) "ikev2"
      then record (bare "ikev2.stop") {
        config_dir = get "ikev2ConfigDir" payload;
        runtime_dir = get "ikev2RuntimeDir" payload;
      }
      else if is_text adapter "xray"
      then bare "xray.stop"
      else if is_text adapter "naiveproxy"
      then bare "naive.stop"
      else record (bare "tcp-diagnostic.stop") {
        listener_id = first_of (get "listenerId" payload) (first_of (get "outboundId" payload) id);
      }
    where
      is_text : Json → String → Bool
      is_text (str s) t = s == t
      is_text _ t = false
