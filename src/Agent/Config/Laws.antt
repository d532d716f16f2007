-- ===== src/Agent/Config/Laws.antt =====
-- What a configuration that is loaded promises (apps/node-agent/src/runtime-loop.js).
use full_revna_like_projekt.Base.{
  ℕ, ◌≤◌, String, ◌≡◌, refl, Bool, true, false, not, ◌&&◌, Option, List, arith, ◌==◌, or_else,
}
use full_revna_like_projekt.Base.Text.{trim}
use full_revna_like_projekt.Base.Reply.{Reply, ok, and_then-ok, unless, Gives, Gives-ok}
use full_revna_like_projekt.Agent.Config.{
  Environment, config_of, input_of_env, RuntimeConfig, ConfigInput, parse_positive_integer,
  parse_dry_run, normalize_base_url, create_node_agent_runtime_config,
  load_node_agent_config_from_env, is_live_command, assert_live_runtime_mode,
}

pub parse_positive_integer-positive :
    (number : String → Option ℕ) (value : Option String) (fallback : ℕ) (path : String)
    → 1 ≤ fallback
    → Gives (λ n. 1 ≤ n) (parse_positive_integer number value fallback path)
unfolding parse_positive_integer
parse_positive_integer-positive number value fallback path h n e = ground arith

-- What a configuration has
pub record IsConfig (c : RuntimeConfig) : Type 0 where
  pub named : (trim c.node_id == "") ≡ false
  pub beats : 1 ≤ c.heartbeat_interval_ms
  pub polls : 1 ≤ c.poll_interval_ms

unless-ok :
    {A : Type 0} (b : Bool) (m : String) (r : Reply A) (a : A)
    → unless b m r ≡ ok a
    → (b ≡ true) × (r ≡ ok a)
unless-ok true m r a h = (refl, h)
unless-ok false m r a h = absurd (cc h)

module _ (number : String → Option ℕ) (url : String → Option String) where
  create_node_agent_runtime_config-IsConfig :
      (input : ConfigInput) → Gives IsConfig (create_node_agent_runtime_config number url input)
  unfolding create_node_agent_runtime_config
  create_node_agent_runtime_config-IsConfig input c h =
      let (named, made) =
        unless-ok (not (trim (or_else input.node_id "local-node") == "")) _ _ c h in
      let (base, e, beats) =
        and_then-ok (normalize_base_url url input.control_plane_base_url) _ c made in
      let (beat, b, polls) =
        and_then-ok
          (parse_positive_integer number input.heartbeat_interval_ms 30000 "heartbeatIntervalMs") _
          c beats in
      let (poll, p, done) =
        and_then-ok (parse_positive_integer number input.poll_interval_ms 15000 "pollIntervalMs") _
          c polls in
      Gives-ok IsConfig (config_of input base beat poll)
        (record {
          named = filled named;
          beats =
              parse_positive_integer-positive number input.heartbeat_interval_ms 30000
                "heartbeatIntervalMs" (omega arith) beat b;
          polls =
              parse_positive_integer-positive number input.poll_interval_ms 15000 "pollIntervalMs"
                (omega arith) poll p;
        })
        c done
    where
      filled : {b : Bool} → not b ≡ true → b ≡ false
      filled {b = b} e = ground arith

  -- Whatever the environment, a configuration that is loaded from it has an identifier of the node that
  -- is not blank, and intervals of at least one millisecond.
  pub load_node_agent_config_from_env-IsConfig :
      (env : Environment) → Gives IsConfig (load_node_agent_config_from_env number url env)
  unfolding load_node_agent_config_from_env
  load_node_agent_config_from_env-IsConfig env c h =
      let (dry, e, made) = and_then-ok (parse_dry_run (env "LUMEN_DRY_RUN") false) _ c h in
      create_node_agent_runtime_config-IsConfig (input_of_env env dry) c made

-- A live command goes on only where the dry run is off.
pub assert_live_runtime_mode-live :
    (config : RuntimeConfig) (argv : List String)
    → is_live_command argv ≡ true
    → assert_live_runtime_mode config argv ≡ ok tt
    → config.dry_run ≡ false
unfolding assert_live_runtime_mode
assert_live_runtime_mode-live config argv live h =
    let (off, u) = unless-ok (not (is_live_command argv && config.dry_run)) _ (ok tt) tt h in
    off_of live off
  where
    off_of : {b d : Bool} → b ≡ true → not (b && d) ≡ true → d ≡ false
    off_of {b = b} {d = d} e f = ground arith
