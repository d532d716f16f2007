-- ===== src/Agent/Config.antt =====
-- The configuration of the agent from its environment (apps/node-agent/src/runtime-loop.js).
-- `Number` of a text and the normal form of a URL are parameters: `number` gives a whole number that is
-- not negative or nothing, `url` gives what `new URL(text).toString()` gives or nothing where it throws.
pub mod Laws
use full_revna_like_projekt.Base.{
  ℕ, String, Bool, true, false, not, ◌&&◌, ◌||◌, Option, none, some, List, [], ◌∷◌, ◌==◌, ◌==ₙ◌,
  if◌then◌else◌, or_else, filter, map, any, includes, is_some,
}
use full_revna_like_projekt.Base.Text.{trim, to_lower_case, join}
use full_revna_like_projekt.Base.Json.{Json, bool, Fields, end, field, put}
use full_revna_like_projekt.Base.Reply.{Reply, ok, throws, and_then, unless}
use full_revna_like_projekt.Agent.Checks.{filled_text}
use Prim.Native.String.{[], ◌∷◌, ◌++◌}
use Prim.Native.Char.{Char, code}

-- An environment: the texts of its variables
abbrev pub Environment : Type 0
Environment = String → Option String

-- `value.split(",")`, with the part before the place
abbrev split_from : String → String → List String
split_from part [] = part ∷ []
split_from part (c ∷ s) =
    let cut : List String = part ∷ split_from [] s in
    let more = split_from (part ++ c ∷ []) s in if code c ==ₙ b',' then cut else more

-- `parseCsv(value)` of a text, if any
unfoldable pub parse_csv : Option String → List String
parse_csv none = []
parse_csv (some value) =
    if trim value == ""
    then []
    else filter (λ part. not (part == "")) (map trim (split_from [] value))

-- `parseCapabilityFlags(value)`
unfoldable pub parse_capability_flags : Option String → Fields
unfolding parse_csv
parse_capability_flags value = flags end (parse_csv value)
  where
    flags : Fields → List String → Fields
    flags fs [] = fs
    flags fs (capability ∷ rest) = flags (put capability (bool true) fs) rest

-- `parsePositiveInteger(value, fallback, path)` of a text, if any
unfoldable pub parse_positive_integer : (String → Option ℕ) → Option String → ℕ → String → Reply ℕ
parse_positive_integer number none fallback path = ok fallback
parse_positive_integer number (some value) fallback path =
    if value == "" then ok fallback else positive (number value)
  where
    positive : Option ℕ → Reply ℕ
    positive none = throws (path ++ " must be a positive integer")
    positive (some n) = if n ==ₙ 0 then throws (path ++ " must be a positive integer") else ok n

-- `parseDryRun(value, fallback)` of a text, if any
unfoldable pub parse_dry_run : Option String → Bool → Reply Bool
parse_dry_run none fallback = ok fallback
parse_dry_run (some value) fallback =
    if value == ""
    then ok fallback
    else if includes (to_lower_case (trim value)) ("1" ∷ "true" ∷ "yes" ∷ "on" ∷ [])
    then ok true
    else if includes (to_lower_case (trim value)) ("0" ∷ "false" ∷ "no" ∷ "off" ∷ [])
    then ok false
    else throws "LUMEN_DRY_RUN must be true or false when set"

-- `text.replace(/\/$/, "")`
unfoldable pub without_slash : String → String
without_slash [] = []
without_slash (c ∷ s) =
    let rest = without_slash s in if (code c ==ₙ b'/') && (s == "") then [] else c ∷ rest

unfoldable pub normalize_base_url : (String → Option String) → Option String → Reply String
unfolding without_slash
normalize_base_url url value = found (url (or_else value "https://control-plane.invalid"))
  where
    found : Option String → Reply String
    found none = throws "controlPlaneBaseUrl must be a valid URL"
    found (some text) = ok (without_slash text)

-- What `createNodeAgentRuntimeConfig` gives.
pub record RuntimeConfig : Type 0 where
  pub node_id : String
  pub control_plane_base_url : String
  pub agent_version : String
  pub heartbeat_interval_ms : ℕ
  pub poll_interval_ms : ℕ
  pub capabilities : Fields
  pub tags : List String
  pub dry_run : Bool

-- Its input, as `loadNodeAgentConfigFromEnv` gives it
pub record ConfigInput : Type 0 where
  pub node_id : Option String
  pub control_plane_base_url : Option String
  pub agent_version : Option String
  pub heartbeat_interval_ms : Option String
  pub poll_interval_ms : Option String
  pub capabilities : Fields
  pub tags : List String
  pub dry_run : Bool

abbrev config_of : ConfigInput → String → ℕ → ℕ → RuntimeConfig
config_of input base heartbeat poll = record {
  node_id = or_else input.node_id "local-node";
  control_plane_base_url = base;
  agent_version = or_else input.agent_version "0.0.0";
  heartbeat_interval_ms = heartbeat;
  poll_interval_ms = poll;
  capabilities = input.capabilities;
  tags = input.tags;
  dry_run = input.dry_run;
}

-- `a ?? b` of two variables
abbrev either_variable : Option String → Option String → Option String
either_variable none v = v
either_variable (some s) v = some s

-- The input that the variables give
unfoldable pub input_of_env : Environment → Bool → ConfigInput
unfolding parse_capability_flags parse_csv
input_of_env env dry_run = record {
  node_id = either_variable (env "LUMEN_NODE_ID") (env "LUMEN_NODE_NAME");
  control_plane_base_url = either_variable (env "LUMEN_CONTROL_PLANE_URL") (env "LUMEN_PANEL_URL");
  agent_version = either_variable (env "LUMEN_AGENT_VERSION") (env "npm_package_version");
  heartbeat_interval_ms = env "LUMEN_HEARTBEAT_INTERVAL_MS";
  poll_interval_ms = env "LUMEN_POLL_INTERVAL_MS";
  capabilities = parse_capability_flags (env "LUMEN_CAPABILITIES");
  tags = parse_csv (env "LUMEN_NODE_TAGS");
  dry_run = dry_run;
}

module _ (number : String → Option ℕ) (url : String → Option String) where
  unfoldable pub create_node_agent_runtime_config : ConfigInput → Reply RuntimeConfig
  unfolding normalize_base_url parse_positive_integer
  create_node_agent_runtime_config input =
      unless (not (trim (or_else input.node_id "local-node") == ""))
        "Invalid node agent runtime config: nodeId must be a non-empty string"
        (and_then (normalize_base_url url input.control_plane_base_url) (λ base.
          and_then
            (parse_positive_integer number input.heartbeat_interval_ms 30000 "heartbeatIntervalMs")
            (λ heartbeat.
              and_then (parse_positive_integer number input.poll_interval_ms 15000 "pollIntervalMs")
                (λ poll. ok (config_of input base heartbeat poll)))))

  unfoldable pub load_node_agent_config_from_env : Environment → Reply RuntimeConfig
  unfolding create_node_agent_runtime_config parse_dry_run input_of_env
  load_node_agent_config_from_env env =
      and_then (parse_dry_run (env "LUMEN_DRY_RUN") false)
        (λ dry_run. create_node_agent_runtime_config (input_of_env env dry_run))

-- `isLiveCommand(argv)`
abbrev pub is_live_command : List String → Bool
is_live_command argv = any (λ arg. (arg == "--run") || (arg == "--run-once")) argv

-- `assertLiveRuntimeMode(config, argv)`
unfoldable pub assert_live_runtime_mode : RuntimeConfig → List String → Reply {0} Unit
assert_live_runtime_mode config argv =
    unless (not (is_live_command argv && config.dry_run))
      "Refusing to run live node-agent loop with LUMEN_DRY_RUN enabled." (ok tt)
