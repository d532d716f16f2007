-- ===== src/Plugins.antt =====
-- Node plugins in apps/web/src/shared/api/developmentClient.ts.
pub mod Laws
use full_revna_like_projekt.Base.{
  ℕ, ◌+◌, ◌*◌, String, Bool, true, false, ◌&&◌, ◌||◌, Option, none, some, List, [], ◌∷◌, map, ◌==◌,
  leb, if◌then◌else◌, or_else, length, filter,
}
use full_revna_like_projekt.Base.Decimal.{to_text}
use full_revna_like_projekt.Base.Json.{Fields, end}
use full_revna_like_projekt.Table.{Table, size, values, find_id, assign, unshift, push, remove_id}
use full_revna_like_projekt.Types.Plugins.{
  NodePluginRecord, NodePluginCreateRequest, NodePluginUpdateRequest, NodePluginCloneRequest,
}
use full_revna_like_projekt.Profiles.Readiness.{is_falsy, text_is}
use full_revna_like_projekt.Client.{Client, Reply, ok, with_found, Moment, node_plugin_keyed}
use Prim.Native.String.{◌++◌}

-- All plugins of a node: its own and those of every node.
unfoldable pub list_node_plugins : Option String → Client → List NodePluginRecord
list_node_plugins node_id c =
    filter (λ plugin. is_falsy node_id || wanted plugin.node_id) (values c.node_plugins)
  where
    wanted : Option String → Bool
    wanted none = true
    wanted (some n) = text_is node_id n

unfoldable pub plugin_from_request : Moment → ℕ → NodePluginCreateRequest → NodePluginRecord
plugin_from_request m count request = record {
  id = "plugin_" ++ to_text m.first_ms;
  node_id = request.node_id;
  kind = request.kind;
  name = request.name;
  config_json = or_else request.config_json end;
  enabled = or_else request.enabled true;
  sort_order = some (or_else request.sort_order (count * 10));
  created_at = m.iso;
  updated_at = m.iso;
}

unfoldable pub create_node_plugin :
    Moment → NodePluginCreateRequest → Client → Client × Reply NodePluginRecord
unfolding plugin_from_request
create_node_plugin m request c =
    let plugin = plugin_from_request m (size c.node_plugins) request in
    (record c { node_plugins = unshift plugin c.node_plugins }, ok plugin)

-- A clone is pushed at the end.
unfoldable pub clone_node_plugin :
    Moment → String → NodePluginCloneRequest → Client → Client × Reply NodePluginRecord
clone_node_plugin m plugin_id request c =
    with_found (find_id plugin_id c.node_plugins) "Node plugin not found" c λ r.
      let source = c.node_plugins.store r in
      let plugin = record source {
        id = "plugin_" ++ to_text m.first_ms;
        name = or_else request.name (source.name ++ " copy");
        node_id = elim request.node_id [ none ↦ source.node_id | some n ↦ some n ];
        enabled = or_else request.enabled source.enabled;
        sort_order = some (size c.node_plugins * 10);
        created_at = m.iso;
        updated_at = m.iso;
      } in
      (record c { node_plugins = push plugin c.node_plugins }, ok plugin)

abbrev pub place : String → ℕ → NodePluginRecord → NodePluginRecord
place now sort_order plugin = record plugin { sort_order = some sort_order; updated_at = now }

-- `request.items.forEach(…)`
unfoldable pub place_all :
    String → List (String × ℕ) → Table NodePluginRecord → Table NodePluginRecord
place_all now [] t = t
place_all now ((i, sort_order) ∷ rest) t =
    place_all now rest
      (elim (find_id i t) [ none ↦ t | some r ↦ assign r (place now sort_order) t ])

-- In a subtraction `null` counts as zero.
abbrev pub rank : Table NodePluginRecord → ℕ → ℕ
rank t r = or_else ((t.store r).sort_order) 0

-- A stable sort gives one list only, whatever its method: this one inserts.
unfoldable pub insert_by : (ℕ → ℕ) → ℕ → List ℕ → List ℕ
insert_by key r [] = r ∷ []
insert_by key r (q ∷ qs) = if leb (key r) (key q) then r ∷ q ∷ qs else q ∷ insert_by key r qs

-- `array.sort((left, right) => key(left) - key(right))`
unfoldable pub sort_by : (ℕ → ℕ) → List ℕ → List ℕ
unfolding insert_by
sort_by key [] = []
sort_by key (r ∷ rs) = insert_by key r (sort_by key rs)

unfoldable pub sort_plugins : Table NodePluginRecord → Table NodePluginRecord
unfolding sort_by
sort_plugins t = record t { refs = sort_by (rank t) t.refs }

unfoldable pub reorder_node_plugins :
    String → List (String × ℕ) → Client → Client × Reply (List NodePluginRecord)
unfolding place_all sort_plugins
reorder_node_plugins now items c =
    let node_plugins = sort_plugins (place_all now items c.node_plugins) in
    (record c { node_plugins = node_plugins }, ok (values node_plugins))

-- The plugins in the policy that `applyNodePlugins` sends to a node.
unfoldable pub applied_plugins : String → Client → List NodePluginRecord
applied_plugins node_id c =
    filter (λ plugin. plugin.enabled && (is_falsy plugin.node_id || text_is plugin.node_id node_id))
      (values c.node_plugins)

-- `Object.assign(plugin, request, { updated_at: … })`
unfoldable pub assign_plugin :
    String → NodePluginUpdateRequest → NodePluginRecord → NodePluginRecord
assign_plugin now request a = record a {
  node_id = or_else request.node_id a.node_id;
  kind = or_else request.kind a.kind;
  name = or_else request.name a.name;
  config_json = or_else request.config_json a.config_json;
  enabled = or_else request.enabled a.enabled;
  sort_order = or_else request.sort_order a.sort_order;
  updated_at = now;
}

unfoldable pub update_node_plugin :
    String → String → NodePluginUpdateRequest → Client → Client × Reply NodePluginRecord
unfolding assign_plugin
update_node_plugin now plugin_id request c =
    with_found (find_id plugin_id c.node_plugins) "Node plugin not found" c λ r.
      let node_plugins = assign r (assign_plugin now request) c.node_plugins in
      (record c { node_plugins = node_plugins }, ok (node_plugins.store r))

unfoldable pub delete_node_plugin : String → Client → Client
delete_node_plugin plugin_id c = record c { node_plugins = remove_id plugin_id c.node_plugins }
