-- ===== src/Agent/CommandType.antt =====
-- The types of commands that a node is sent (apps/node-agent/src/command-envelope.js), and which of
-- them the mode of the node allows (apps/node-agent/src/provisioning-state.js).
use full_revna_like_projekt.Base.{
  String, Bool, true, false, Option, none, some, ◌==◌, if◌then◌else◌,
}
use full_revna_like_projekt.Base.Json.{Json, str}

-- `COMMAND_TYPES`
abbrev pub desired_state_validate : String
desired_state_validate = "desired-state.validate"

abbrev pub desired_state_apply : String
desired_state_apply = "desired-state.apply"

abbrev pub firewall_plan_apply : String
firewall_plan_apply = "firewall.plan.apply"

abbrev pub outbound_apply : String
outbound_apply = "outbound.apply"

abbrev pub outbound_remove : String
outbound_remove = "outbound.remove"

abbrev pub node_pause : String
node_pause = "node.pause"

abbrev pub node_resume : String
node_resume = "node.resume"

abbrev pub node_quarantine : String
node_quarantine = "node.quarantine"

abbrev pub node_restart : String
node_restart = "node.restart"

abbrev pub node_connections_drop : String
node_connections_drop = "node.connections.drop"

abbrev pub node_traffic_reset : String
node_traffic_reset = "node.traffic.reset"

abbrev pub capabilities_report : String
capabilities_report = "capabilities.report"

abbrev pub conflict_scan : String
conflict_scan = "conflict.scan"

-- `COMMAND_TYPES`
pub data Command : Type 0 where
  validate_state apply_state apply_firewall apply_outbound remove_outbound pause : Command
  resume confine restart drop_connections reset_traffic report scan : Command

abbrev pub command_text : Command → String
command_text validate_state = desired_state_validate
command_text apply_state = desired_state_apply
command_text apply_firewall = firewall_plan_apply
command_text apply_outbound = outbound_apply
command_text remove_outbound = outbound_remove
command_text pause = node_pause
command_text resume = node_resume
command_text confine = node_quarantine
command_text restart = node_restart
command_text drop_connections = node_connections_drop
command_text reset_traffic = node_traffic_reset
command_text report = capabilities_report
command_text scan = conflict_scan

-- The command whose type a value is
unfoldable pub command_type : Option Json → Option Command
command_type (some (str s)) =
    if s == desired_state_validate
    then some validate_state
    else if s == desired_state_apply
    then some apply_state
    else if s == firewall_plan_apply
    then some apply_firewall
    else if s == outbound_apply
    then some apply_outbound
    else if s == outbound_remove
    then some remove_outbound
    else if s == node_pause
    then some pause
    else if s == node_resume
    then some resume
    else if s == node_quarantine
    then some confine
    else if s == node_restart
    then some restart
    else if s == node_connections_drop
    then some drop_connections
    else if s == node_traffic_reset
    then some reset_traffic
    else if s == capabilities_report
    then some report
    else if s == conflict_scan
    then some scan
    else none
command_type _ = none

-- `ACTIVE_MUTATING_COMMANDS.has(commandType)`
abbrev pub is_mutating : Command → Bool
is_mutating apply_state = true
is_mutating apply_firewall = true
is_mutating drop_connections = true
is_mutating restart = true
is_mutating reset_traffic = true
is_mutating apply_outbound = true
is_mutating remove_outbound = true
is_mutating _ = false

-- `DIAGNOSTIC_COMMANDS.has(commandType)`
abbrev pub is_diagnostic : Command → Bool
is_diagnostic validate_state = true
is_diagnostic report = true
is_diagnostic scan = true
is_diagnostic _ = false
