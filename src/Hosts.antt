-- ===== src/Hosts.antt =====
-- Hosts in apps/web/src/shared/api/developmentClient.ts.
use full_revna_like_projekt.Base.{
  ℕ, String, false, none, some, List, [], map, ◌==◌, if◌then◌else◌, or_else, length, includes,
}
use full_revna_like_projekt.Base.Text.{slug}
use full_revna_like_projekt.Base.Json.{num, end, put}
use full_revna_like_projekt.Table.{
  find_id, select, assign, assign_all, unshift, remove_id, remove_ids, reorder, find_all,
}
use full_revna_like_projekt.Types.Hosts.{
  HostRecord, HostCreateRequest, HostUpdateRequest, HostBulkActionRequest,
}
use full_revna_like_projekt.Client.{Client, Reply, ok, with_found, host_keyed}
use Prim.Native.String.{◌++◌}

unfoldable pub host_from_request : HostCreateRequest → HostRecord
host_from_request request = record {
  address = some (or_else request.address request.hostname);
  excluded_internal_squad_ids = or_else request.excluded_internal_squad_ids [];
  final_mask = request.final_mask;
  hidden = or_else request.hidden false;
  hostname = request.hostname;
  id = "host_" ++ slug request.name;
  inbound_tag = request.inbound_tag;
  metadata_json = or_else request.metadata_json end;
  mihomo_x25519_public_key = request.mihomo_x25519_public_key;
  mux_json = or_else request.mux_json end;
  name = request.name;
  node_id = request.node_id;
  path = request.path;
  port = request.port;
  protocol_profile_id = request.protocol_profile_id;
  remark = request.remark;
  runtime_sync = none;
  security = request.security;
  shuffle_host = or_else request.shuffle_host false;
  sni = request.sni;
  sockopt_json = or_else request.sockopt_json end;
  squad_id = request.squad_id;
  status = or_else request.status "active";
  subscription_excluded = or_else request.subscription_excluded false;
  tags = or_else request.tags [];
  xhttp_json = or_else request.xhttp_json end;
  xray_template_json = or_else request.xray_template_json end;
}

unfoldable pub create_host : HostCreateRequest → Client → Client × Reply HostRecord
create_host request c =
    let host = host_from_request request in (record c { hosts = unshift host c.hosts }, ok host)

unfoldable pub delete_host : String → Client → Client
delete_host host_id c = record c { hosts = remove_id host_id c.hosts }

-- `Object.assign(host, request)`
unfoldable pub assign_host : HostUpdateRequest → HostRecord → HostRecord
assign_host request a = record a {
  address = or_else request.address a.address;
  excluded_internal_squad_ids =
      or_else request.excluded_internal_squad_ids a.excluded_internal_squad_ids;
  final_mask = or_else request.final_mask a.final_mask;
  hidden = or_else request.hidden a.hidden;
  hostname = or_else request.hostname a.hostname;
  inbound_tag = or_else request.inbound_tag a.inbound_tag;
  metadata_json = or_else request.metadata_json a.metadata_json;
  mihomo_x25519_public_key = or_else request.mihomo_x25519_public_key a.mihomo_x25519_public_key;
  mux_json = or_else request.mux_json a.mux_json;
  name = or_else request.name a.name;
  node_id = or_else request.node_id a.node_id;
  path = or_else request.path a.path;
  port = or_else request.port a.port;
  protocol_profile_id = or_else request.protocol_profile_id a.protocol_profile_id;
  remark = or_else request.remark a.remark;
  security = or_else request.security a.security;
  shuffle_host = or_else request.shuffle_host a.shuffle_host;
  sni = or_else request.sni a.sni;
  sockopt_json = or_else request.sockopt_json a.sockopt_json;
  squad_id = or_else request.squad_id a.squad_id;
  status = or_else request.status a.status;
  subscription_excluded = or_else request.subscription_excluded a.subscription_excluded;
  tags = or_else request.tags a.tags;
  xhttp_json = or_else request.xhttp_json a.xhttp_json;
  xray_template_json = or_else request.xray_template_json a.xray_template_json;
}

unfoldable pub update_host : String → HostUpdateRequest → Client → Client × Reply HostRecord
unfolding assign_host
update_host host_id request c = with_found (find_id host_id c.hosts) "Host not found" c λ r.
    let hosts = assign r (assign_host request) c.hosts in
    (record c { hosts = hosts }, ok (hosts.store r))

-- The assignments of `bulkHosts` to one selected host.
unfoldable pub bulk_host : String → HostBulkActionRequest → HostRecord → HostRecord
bulk_host action request host = record host {
  status =
      if action == "enable"
      then "active"
      else if action == "disable"
      then "disabled"
      else host.status;
  inbound_tag = if action == "set-inbound" then request.inbound_tag else host.inbound_tag;
  port = if action == "set-port" then request.port else host.port;
}

unfoldable pub bulk_hosts : String → HostBulkActionRequest → Client → Client × Reply ℕ
unfolding bulk_host
bulk_hosts action request c =
    let selected = select (λ h. includes h.id request.ids) c.hosts in
    let ids = map (λ r. (c.hosts.store r).id) selected in
    let hosts =
      if action == "delete"
      then remove_ids ids c.hosts
      else assign_all selected (bulk_host action request) c.hosts in
    (record c { hosts = hosts }, ok (length selected))

unfoldable pub reorder_hosts : List String → Client → Client × Reply ℕ
reorder_hosts ids c = (
  record c {
    hosts =
        reorder (λ n h. record h { metadata_json = put "order" (num n) h.metadata_json }) ids
          c.hosts;
  },
  ok (length (find_all ids c.hosts)),
)
