-- ===== src/Agent/Effects.antt =====
-- `applyRuntimeEffects` of apps/node-agent/src/runtime-runner.js: the action of a command that has
-- succeeded is done on the runtimes of the node. The functions that do it are a parameter: each acts
-- on a world, and gives the outputs or throws.
pub mod Laws
use full_revna_like_projekt.Base.{
  String, Bool, true, false, not, ◌&&◌, ◌||◌, Option, none, some, List, [], ◌∷◌, ◌==◌,
  if◌then◌else◌, or_else, any, includes, TextMap, lookup,
}
use full_revna_like_projekt.Base.Json.{
  Json, null, bool, str, arr, obj, Fields, end, field, get, put, nullish, truthy, array_or_empty,
}
use full_revna_like_projekt.Base.Reply.{Reply, ok, throws, and_then}
use full_revna_like_projekt.Agent.Checks.{member, spread_value}
use full_revna_like_projekt.Agent.Plans.{
  Planner, RuntimeAction, first_of, given, node_policy_apply_plan_from_payload,
}
use full_revna_like_projekt.Agent.Runner.{Applied, failed_command_result}

-- The functions of the runtimes: `applyXrayConfig` and the others, by the type of the action, with
-- the action and the policy that they are given; and `applyNodePolicy`, with `dryRun` and a plan.
pub record Effects (W : Type 0) : Type 0 where
  pub perform : W → RuntimeAction → Option Json → W × Reply Fields
  pub apply_policy : W → Bool → Json → W × Reply Fields

-- The input of `applyRuntimeEffects`: `dryRun !== false`, and `enableLiveDiagnostic === true`.
pub record EffectInput : Type 0 where
  pub dry_run : Bool
  pub live_diagnostic : Bool

-- `APPLY_FAILURE_CODES`
abbrev pub apply_failure_codes : TextMap
apply_failure_codes =
    ("xray.apply", "xray_apply_failed")
    ∷ ("hysteria2.apply", "hysteria2_apply_failed")
    ∷ ("sing-box-shadowsocks.apply", "shadowsocks_apply_failed")
    ∷ ("shadowsocks-plugin.apply", "shadowsocks_plugin_apply_failed")
    ∷ ("naive.apply", "naive_apply_failed")
    ∷ ("openvpn.apply", "openvpn_apply_failed")
    ∷ ("openvpn-shadowsocks.apply", "openvpn_shadowsocks_apply_failed")
    ∷ ("ikev2.apply", "ikev2_apply_failed")
    ∷ ("tuic.apply", "tuic_apply_failed")
    ∷ ("wireguard.apply", "wireguard_apply_failed")
    ∷ ("node-policy.apply", "node_policy_apply_failed")
    ∷ ("node-agent.restart", "node_restart_failed")
    ∷ ("node-connections.drop", "connection_drop_failed")
    ∷ ("node-traffic.reset", "node_traffic_reset_failed")
    ∷ ("ikev2.stop", "ikev2_stop_failed")
    ∷ ("naive.stop", "naive_stop_failed")
    ∷ ("xray.stop", "xray_stop_failed")
    ∷ []

-- `APPLY_DRY_RUN_STATUS`
abbrev pub apply_dry_run_status : TextMap
apply_dry_run_status =
    ("xray.apply", "xray-dry-run")
    ∷ ("hysteria2.apply", "hysteria2-dry-run")
    ∷ ("sing-box-shadowsocks.apply", "shadowsocks-dry-run")
    ∷ ("shadowsocks-plugin.apply", "shadowsocks-plugin-dry-run")
    ∷ ("naive.apply", "naive-dry-run")
    ∷ ("openvpn.apply", "openvpn-dry-run")
    ∷ ("openvpn-shadowsocks.apply", "openvpn-shadowsocks-dry-run")
    ∷ ("ikev2.apply", "ikev2-dry-run")
    ∷ ("tuic.apply", "tuic-dry-run")
    ∷ ("wireguard.apply", "wireguard-dry-run")
    ∷ ("node-policy.apply", "node-policy-dry-run")
    ∷ ("node-agent.restart", "node-restart-dry-run")
    ∷ ("node-connections.drop", "connection-drop-dry-run")
    ∷ ("node-traffic.reset", "node-traffic-reset-dry-run")
    ∷ ("ikev2.stop", "ikev2-stop-dry-run")
    ∷ ("naive.stop", "naive-stop-dry-run")
    ∷ ("xray.stop", "xray-stop-dry-run")
    ∷ []

-- `{ ...a, ...b }`
unfoldable pub merged : Fields → Fields → Fields
merged a end = a
merged a (field k v fs) = merged (put k v a) fs

-- `withResultOutputs(commandResult, outputs)`
unfoldable pub with_result_outputs : Applied → Fields → Applied
unfolding merged
with_result_outputs r outputs = record r {
  result_json =
      put "outputs" (obj (merged (spread_value (get "outputs" r.result_json)) outputs))
        r.result_json;
}

-- A plugin that blocks torrents and is not switched off
abbrev pub is_false : Option Json → Bool
is_false (some (bool b)) = not b
is_false _ = false

abbrev pub text_among : List String → Option Json → Bool
text_among allowed (some (str s)) = includes s allowed
text_among allowed _ = false

unfoldable pub is_blocking_torrent_plugin : Json → Bool
is_blocking_torrent_plugin plugin =
    let config = get_object (member "config" (some plugin)) in
    let action =
      or_else (nullish (first_of (get "action" config) (get "mode" config))) (str "block") in
    truthy (some plugin)
    && not (is_false (member "enabled" (some plugin)))
    && text_among ("torrent-blocker" ∷ []) (member "kind" (some plugin))
    && text_among ("block" ∷ "drop" ∷ "blackhole" ∷ []) (some action)
  where
    get_object : Option Json → Fields
    get_object (some (obj fs)) = fs
    get_object _ = end

-- `nodePolicyHasBlockingTorrentPlugin(policy)`
unfoldable pub node_policy_has_blocking_torrent_plugin : Option Json → Bool
unfolding is_blocking_torrent_plugin
node_policy_has_blocking_torrent_plugin policy =
    any is_blocking_torrent_plugin (array_or_empty (member "plugins" policy))

-- The actions that apply a configuration, and those of them that are given the policy of the node.
abbrev pub config_kinds : List String
config_kinds =
    "xray.apply" ∷ "hysteria2.apply" ∷ "sing-box-shadowsocks.apply" ∷ "shadowsocks-plugin.apply"
    ∷ "naive.apply" ∷ "openvpn.apply" ∷ "openvpn-shadowsocks.apply" ∷ "ikev2.apply" ∷ "tuic.apply"
    ∷ "wireguard.apply" ∷ []

abbrev pub policy_kinds : List String
policy_kinds = "hysteria2.apply" ∷ "sing-box-shadowsocks.apply" ∷ "naive.apply" ∷ "tuic.apply" ∷ []

-- The actions whose function gives the outputs
abbrev pub plain_kinds : List String
plain_kinds =
    "node-agent.restart" ∷ "node-traffic.reset" ∷ "node-connections.drop" ∷ "ikev2.stop"
    ∷ "naive.stop" ∷ "xray.stop" ∷ []

-- What has been done: the outputs that are added, none where there is nothing to do, or the code and
-- the message of a failure.
pub data Effect : Type 0 where
  nothing : Effect
  adds : Fields → Effect
  fails : String → String → Effect

abbrev pub failure_code : String → String
failure_code kind = or_else (lookup kind apply_failure_codes) "live_listener_failed"

-- A call inside the `try`
abbrev pub caught_effect :
    {W : Type 0} → String → W × Reply Fields → (W → Fields → W × Effect) → W × Effect
caught_effect kind (w, throws m) next = (w, fails (failure_code kind) m)
caught_effect kind (w, ok outputs) next = next w outputs

module _ {W : Type 0} (effects : Effects W) (input : EffectInput) where
  -- `{ ...outputs, nodePolicy }` where there is a plan of the policy
  abbrev pub then_policy : String → Option Json → Bool → W → Fields → W × Effect
  then_policy kind none dry w outputs = (w, adds outputs)
  then_policy kind (some plan) dry w outputs =
      caught_effect kind (effects.apply_policy w dry plan)
        (λ v policy. (v, adds (put "nodePolicy" (obj policy) outputs)))

  -- A listener's outputs, with its state
  abbrev listening : String → W → Fields → W × Effect
  listening status w listener = (
    w,
    adds (field "implementationStatus" (str status) (field "liveListener" (obj listener) end)),
  )

  abbrev pub applied_policy : RuntimeAction → W → W × Reply Fields
  applied_policy a w = effects.apply_policy w false (or_else a.plan null)

  abbrev policy_for : String → Option Json → Option Json
  policy_for kind plan = if includes kind policy_kinds then member "nodePolicy" plan else none

  -- The actions, where this is no dry run
  unfoldable pub live_effect : RuntimeAction → Option Json → W → W × Effect
  unfolding node_policy_has_blocking_torrent_plugin
  live_effect a policy w =
      if a.kind == "node-policy.apply"
      then caught_effect a.kind (applied_policy a w) (λ v outputs. (v, adds outputs))
      else if includes a.kind plain_kinds
      then caught_effect a.kind (effects.perform w a none) (λ v outputs. (v, adds outputs))
      else if a.kind == "tcp-diagnostic.start"
      then (if input.live_diagnostic
          then caught_effect a.kind (effects.perform w a none) (listening "live-listener-active")
          else (w, fails "live_diagnostic_disabled" "live diagnostic listener is disabled"))
      else if a.kind == "tcp-diagnostic.stop"
      then caught_effect a.kind (effects.perform w a none) (listening "live-listener-stopped")
      else if (a.kind == "wireguard.apply")
          && node_policy_has_blocking_torrent_plugin (member "nodePolicy" policy)
      then (
        w,
        fails (failure_code a.kind)
            "WireGuard/AmneziaWG cannot enforce torrent-blocker policy without a transparent proxy/firewall enforcement layer",
      )
      else if includes a.kind config_kinds
      then caught_effect a.kind (effects.perform w a (policy_for a.kind policy))
          (then_policy a.kind policy false)
      else (w, nothing)

  abbrev plan_of : Option RuntimeAction → Option Json
  plan_of none = none
  plan_of (some a) = a.plan

  -- The body of the `try`, with the plan of the policy, or what making it has thrown
  unfoldable pub effect_of : RuntimeAction → Reply (Option RuntimeAction) → W → W × Effect
  unfolding live_effect
  effect_of a (throws m) w = (w, fails (failure_code a.kind) m)
  effect_of a (ok policy) w =
      let plan = plan_of policy in
      let dry_status = or_else (lookup a.kind apply_dry_run_status) "live-listener-dry-run" in
      if input.dry_run
      then then_policy a.kind plan true w (field "implementationStatus" (str dry_status) end)
      else live_effect a plan w

-- What a result becomes
abbrev pub concluded : {W : Type 0} → String → Fields → Applied → W × Effect → W × Applied
concluded now command r (w, nothing) = (w, r)
concluded now command r (w, adds outputs) = (w, with_result_outputs r outputs)
concluded now command r (w, fails code m) = (w, failed_command_result now command m code)

-- `command?.payload_json ?? command?.payload ?? {}`, and `command?.id ?? "node-policy"`
abbrev pub command_payload : Fields → Fields
command_payload command = spread_value (
    some
      (or_else (nullish (first_of (get "payload_json" command) (get "payload" command))) (obj end)))

abbrev pub policy_id : Fields → Option Json
policy_id command = some (or_else (nullish (get "id" command)) (str "node-policy"))

-- `applyRuntimeEffects(command, commandResult, input)`, where there is an action
unfoldable pub acting :
    {W : Type 0}
    → Effects W
    → Planner
    → EffectInput
    → String
    → Fields
    → Applied
    → W
    → Option RuntimeAction
    → W × Applied
unfolding effect_of with_result_outputs failed_command_result node_policy_apply_plan_from_payload
    spread_value
acting effects plans input now command r w none = (w, r)
acting effects plans input now command r w (some a) = concluded now command r (
    effect_of effects input a
      (node_policy_apply_plan_from_payload plans (policy_id command) (command_payload command)) w)

unfoldable pub apply_runtime_effects :
    {W : Type 0} → Effects W → Planner → EffectInput → String → Fields → Applied → W → W × Applied
unfolding acting
apply_runtime_effects effects plans input now command r w =
    acting effects plans input now command r w
      (if r.status == "succeeded" then r.runtime_action else none)
