-- ===== src/Nodes.antt =====
-- Nodes as the console reads them, and the commands queued for them
-- (apps/web/src/shared/api/developmentClient.ts).
pub mod Laws
use full_revna_like_projekt.Base.{
  ℕ, suc, ◌+◌, String, Bool, true, false, ◌&&◌, Option, none, some, List, [], ◌∷◌, map, ◌==◌,
  if◌then◌else◌, or_else, filter, length, take, lookup,
}
use full_revna_like_projekt.Base.Text.{join}
use full_revna_like_projekt.Base.Decimal.{to_text}
use full_revna_like_projekt.Base.Json.{Json, str, Fields, end, field, get}
use full_revna_like_projekt.Table.{Table, values, unshift, size, find}
use full_revna_like_projekt.Types.Runtime.{
  NodeCommandRecord, NodeCommandCreateRequest, DropConnectionsRequest,
}
use full_revna_like_projekt.Types.Nodes.{
  NodeRecord, NodeResponse, NodeUpdateRequest, NodeCommandStatusCount, NodeCommandHistoryRecord,
}
use full_revna_like_projekt.Types.Profiles.{ProtocolProfileRecord}
use full_revna_like_projekt.Client.{Client, Reply, ok, throws, generated_at}
use Prim.Native.String.{◌++◌}

unfoldable pub as_node_response : NodeRecord → NodeResponse
as_node_response node = record {
  capabilities =
      ("active_users", to_text node.active_users)
      ∷ ("load_percent", to_text node.load_percent)
      ∷ ("transports", join "," node.transports)
      ∷ ("version", node.version)
      ∷ [];
  id = node.id;
  last_seen_at = some node.last_seen_at;
  name = node.name;
  public_address = node.name ++ ".lumen.local";
  region = node.region;
  sort_order = 0;
  status =
      if node.status == "healthy"
      then "active"
      else if node.status == "offline"
      then "offline"
      else "failed";
}

unfoldable pub as_node_list_response : Client → List NodeResponse
unfolding as_node_response
as_node_list_response c = map as_node_response c.node_records

-- `createDevelopmentNodeCommand` on the array of commands, at the time `now`.
unfoldable pub queue_command :
    String → String → NodeCommandCreateRequest → Table NodeCommandRecord → Table NodeCommandRecord
queue_command now node_id request commands =
    unshift
      (record {
        claimed_at = none;
        command_type = request.command_type;
        completed_at = none;
        created_at = now;
        error_code = none;
        error_message = none;
        id = "cmd_" ++ to_text (size commands + 1);
        node_id = node_id;
        payload_json = or_else request.payload_json end;
        result_json = none;
        status = "queued";
        updated_at = now;
      })
      commands

-- The command that a call of `queue_command` returns: the record behind the new reference.
unfoldable pub queued :
    String → String → NodeCommandCreateRequest → Table NodeCommandRecord → NodeCommandRecord
unfolding queue_command
queued now node_id request commands =
    (queue_command now node_id request commands).store commands.next

unfoldable pub create_node_command :
    String → String → NodeCommandCreateRequest → Client → Client × Reply NodeCommandRecord
unfolding queue_command queued
create_node_command now node_id request c = (
  record c { node_commands = queue_command now node_id request c.node_commands },
  ok (queued now node_id request c.node_commands),
)

abbrev development_reason : Fields
development_reason = field "reason" (str "development client") end

abbrev pub restart_request : NodeCommandCreateRequest
restart_request = record { command_type = "node.restart"; payload_json = some development_reason }

unfoldable pub restart_node : String → String → Client → Client × Reply NodeCommandRecord
unfolding create_node_command
restart_node now node_id = create_node_command now node_id restart_request

-- The loop of `restartAllNodes`; the commands come in the order of the nodes.
unfoldable pub restart_nodes : String → List NodeRecord → Client → Client × List NodeCommandRecord
unfolding create_node_command
restart_nodes now [] c = (c, [])
restart_nodes now (node ∷ nodes) c =
    let later = record c {
      node_commands = queue_command now node.id restart_request c.node_commands;
    } in
    let (c', commands) = restart_nodes now nodes later in
    (c', queued now node.id restart_request c.node_commands ∷ commands)

unfoldable pub restart_all_nodes : String → Client → Client × Reply (List NodeCommandRecord)
unfolding restart_nodes
restart_all_nodes now c =
    let (c', commands) = restart_nodes now c.node_records c in (c', ok commands)

abbrev pub reset_request : NodeCommandCreateRequest
reset_request = record {
  command_type = "node.traffic.reset";
  payload_json = some development_reason;
}

unfoldable pub reset_node_traffic : String → String → Client → Client × Reply NodeCommandRecord
unfolding create_node_command
reset_node_traffic now node_id = create_node_command now node_id reset_request

-- `...(value ? { key: value } : {})`
abbrev field_if : String → Option String → Fields → Fields
field_if key none rest = rest
field_if key (some value) rest = if value == "" then rest else field key (str value) rest

abbrev pub drop_request : DropConnectionsRequest → NodeCommandCreateRequest
drop_request request = record {
  command_type = "node.connections.drop";
  payload_json = some (
      field "ip" (str request.ip) (
        field "reason" (str (or_else request.reason "operator requested connection drop")) (
          field "source" (str "tools.drop-connections") (
            field_if "subscription_id" request.subscription_id
              (field_if "user_id" request.user_id end)))));
}

unfoldable pub drop_connections :
    String → DropConnectionsRequest → Client → Client × Reply NodeCommandRecord
unfolding create_node_command
drop_connections now request = create_node_command now request.node_id (drop_request request)

unfoldable pub list_node_commands : String → Client → List NodeCommandRecord
list_node_commands node_id c =
    filter (λ command. command.node_id == node_id) (values c.node_commands)

-- `unknown === text`
abbrev pub json_is : Option Json → String → Bool
json_is (some (str s)) t = s == t
json_is _ t = false

-- `findLatestProfileApplyCommand`; new commands stand first.
unfoldable pub find_latest_profile_apply_command : ProtocolProfileRecord → Client → Option ℕ
find_latest_profile_apply_command profile c =
    find
      (λ command.
        (command.node_id == profile.node_id)
        && (command.command_type == "outbound.apply")
        && json_is (get "profileId" command.payload_json) profile.id)
      c.node_commands

-- `acc[command.status] = (acc[command.status] ?? 0) + 1`
unfoldable pub count_status : String → List NodeCommandStatusCount → List NodeCommandStatusCount
count_status status [] = record { status = status; count = 1 } ∷ []
count_status status (entry ∷ counts) =
    if entry.status == status
    then record entry { count = entry.count + 1 } ∷ counts
    else entry ∷ count_status status counts

unfoldable pub command_status_counts :
    List NodeCommandStatusCount → List NodeCommandRecord → List NodeCommandStatusCount
unfolding count_status
command_status_counts counts [] = counts
command_status_counts counts (command ∷ commands) =
    command_status_counts (count_status command.status counts) commands

unfoldable pub command_history : NodeCommandRecord → NodeCommandHistoryRecord
command_history command = record {
  id = command.id;
  command_type = command.command_type;
  status = command.status;
  error_code = command.error_code;
  claimed_at = command.claimed_at;
  completed_at = command.completed_at;
  created_at = command.created_at;
}

-- The parts of `buildDevelopmentNodeOverview` that depend on the state.
pub record NodeOverview : Type 0 where
  pub node : NodeResponse
  pub command_status_counts : List NodeCommandStatusCount
  pub latest_commands : List NodeCommandHistoryRecord

-- `asNodeListResponse().items.find(…)`
unfoldable pub find_node : String → List NodeResponse → Option NodeResponse
find_node node_id [] = none
find_node node_id (node ∷ nodes) = if node.id == node_id then some node else find_node node_id nodes

unfoldable pub get_node_overview : String → Client → Reply NodeOverview
unfolding find_node list_node_commands command_status_counts command_history as_node_list_response
get_node_overview node_id c = elim (find_node node_id (as_node_list_response c)) [
  | none ↦ throws "Node not found"
  | some node ↦ ok (record {
    node = node;
    command_status_counts = command_status_counts [] (list_node_commands node_id c);
    latest_commands = map command_history (take 10 (list_node_commands node_id c));
  })
]
