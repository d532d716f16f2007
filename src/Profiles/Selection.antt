-- ===== src/Profiles/Selection.antt =====
-- `getNodeProtocolSelection` and `updateNodeProtocolSelection` in
-- apps/web/src/shared/api/developmentClient.ts: which profiles a node serves.
pub mod Laws
use full_revna_like_projekt.Base.{
  ℕ, String, Bool, true, false, some, List, [], ◌∷◌, ◌++◌, map, ◌==◌, if◌then◌else◌, or_else,
  includes,
}
use full_revna_like_projekt.Table.{Table, select, assign}
use full_revna_like_projekt.Types.Runtime.{NodeCommandRecord, NodeCommandCreateRequest}
use full_revna_like_projekt.Types.Profiles.{
  ProtocolProfileRecord, NodeProtocolSelectionItem, NodeProtocolSelectionResponse,
}
use full_revna_like_projekt.Client.{Client, profile_keyed}
use full_revna_like_projekt.Nodes.{queue_command, queued}
use full_revna_like_projekt.Profiles.{sync_status, apply_payload}

abbrev pub wanted_status : List String → ProtocolProfileRecord → String
wanted_status enabled profile = if includes profile.id enabled then "active" else "disabled"

-- The variables of the loop in `updateNodeProtocolSelection`.
pub record Selecting : Type 0 where
  pub profiles : Table ProtocolProfileRecord
  pub node_commands : Table NodeCommandRecord
  pub queued_commands : List NodeCommandRecord

abbrev pub selection_request : String → ProtocolProfileRecord → NodeCommandCreateRequest
selection_request status profile = record {
  command_type = if status == "active" then "outbound.apply" else "outbound.remove";
  payload_json = some (apply_payload profile);
}

abbrev pub select_profile : String → String → String → ProtocolProfileRecord → ProtocolProfileRecord
select_profile now node_id status profile = record profile {
  status = status;
  runtime_sync = some (record (sync_status true "apply_queued") {
    last_apply_queued_at = some now;
    node_id = some node_id;
    profile_id = some profile.id;
  });
}

-- One round of the loop, for the profile behind `r`.
unfoldable pub select_step : String → String → List String → ℕ → Selecting → Selecting
unfolding queue_command queued
select_step now node_id enabled r s =
    let profile = s.profiles.store r in
    let status = wanted_status enabled profile in
    let request = selection_request status profile in
    if profile.status == status then s else record {
      profiles = assign r (select_profile now node_id status) s.profiles;
      node_commands = queue_command now node_id request s.node_commands;
      queued_commands = s.queued_commands ++ queued now node_id request s.node_commands ∷ [];
    }

unfoldable pub select_loop : String → String → List String → List ℕ → Selecting → Selecting
unfolding select_step
select_loop now node_id enabled [] s = s
select_loop now node_id enabled (r ∷ rs) s =
    select_loop now node_id enabled rs (select_step now node_id enabled r s)

unfoldable pub selection_item : ProtocolProfileRecord → NodeProtocolSelectionItem
selection_item profile = record {
  adapter = profile.adapter;
  enabled = profile.status == "active";
  name = profile.name;
  profile_id = profile.id;
  runtime_sync = or_else profile.runtime_sync (sync_status false "never_applied");
  status = profile.status;
}

abbrev pub node_profiles : String → Table ProtocolProfileRecord → List ℕ
node_profiles node_id = select (λ p. p.node_id == node_id)

unfoldable pub get_node_protocol_selection : String → Client → NodeProtocolSelectionResponse
unfolding selection_item
get_node_protocol_selection node_id c = record {
  items = map (λ r. selection_item (c.profiles.store r)) (node_profiles node_id c.profiles);
  node_id = node_id;
  queued_commands = [];
}

unfoldable pub selecting : Client → Selecting
selecting c = record {
  profiles = c.profiles;
  node_commands = c.node_commands;
  queued_commands = [];
}

unfoldable pub update_node_protocol_selection :
    String → String → List String → Client → Client × NodeProtocolSelectionResponse
unfolding select_loop selection_item selecting
update_node_protocol_selection now node_id enabled_profile_ids c =
    let chosen = node_profiles node_id c.profiles in
    let s = select_loop now node_id enabled_profile_ids chosen (selecting c) in
    (
      record c { profiles = s.profiles; node_commands = s.node_commands },
      record {
        items = map (λ r. selection_item (s.profiles.store r)) chosen;
        node_id = node_id;
        queued_commands = s.queued_commands;
      },
    )
