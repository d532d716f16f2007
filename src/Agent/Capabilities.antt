-- ===== src/Agent/Capabilities.antt =====
-- The capabilities of a node (apps/node-agent/src/system-capabilities.js).
use full_revna_like_projekt.Base.{
  String, Bool, not, Option, none, some, List, [], ◌∷◌, ◌==◌, if◌then◌else◌, or_else, filter,
}
use full_revna_like_projekt.Base.Json.{
  Json, bool, str, obj, Fields, end, field, get, put, nullish, truthy,
}
use full_revna_like_projekt.Base.Reply.{Reply, ok, throws}
use full_revna_like_projekt.Agent.Checks.{member, spread_value}

abbrev pub bind_privileged_ports : String
bind_privileged_ports = "bind.privileged_ports"

-- `SYSTEM_CAPABILITIES`
abbrev pub system_capabilities : List String
system_capabilities =
    "service.systemd" ∷ "service.launchd" ∷ "service.windows" ∷ "firewall.nftables"
    ∷ "firewall.iptables" ∷ "firewall.windows" ∷ "network.tun" ∷ "network.ipv6" ∷ "network.udp_quic"
    ∷ bind_privileged_ports ∷ "protocol.wireguard_kernel" ∷ "protocol.ipsec_kernel"
    ∷ "runtime.sing_box" ∷ "runtime.xray_core" ∷ "runtime.strongswan" ∷ "runtime.docker" ∷ []

-- The first loop of `normalizeCapabilities`: the known capabilities
unfoldable pub known_capabilities : Fields → List String → Fields
known_capabilities capabilities [] = end
known_capabilities capabilities (key ∷ rest) =
    field key (bool (truthy (get key capabilities))) (known_capabilities capabilities rest)

-- Its second loop: those that are not there yet
unfoldable pub other_capabilities : Fields → Fields → Fields
other_capabilities normalized end = normalized
other_capabilities normalized (field key v rest) = elim (get key normalized) [
  | some w ↦ other_capabilities normalized rest
  | none ↦ other_capabilities (put key (bool (truthy (some v))) normalized) rest
]

unfoldable pub normalize_capabilities : Fields → Fields
unfolding known_capabilities other_capabilities
normalize_capabilities capabilities =
    other_capabilities (known_capabilities capabilities system_capabilities) capabilities

-- The input of `createSystemCapabilityReport`; `capabilities` is an object where it is there.
pub record ReportInput : Type 0 where
  pub node_id : Option Json
  pub observed_at : Option Json
  pub capabilities : Option Fields
  pub facts : Option Json

unfoldable pub create_system_capability_report : String → ReportInput → Reply Fields
unfolding normalize_capabilities spread_value
create_system_capability_report now input = with_node input.node_id
  where
    report : Json → Fields
    report node_id = field "reportVersion" (str "lumen.node-agent.system-capabilities.v1") (
        field "nodeId" node_id (
          field "observedAt" (or_else (nullish input.observed_at) (str now)) (
            field "capabilities" (obj (normalize_capabilities (or_else input.capabilities end)))
              (field "facts" (obj (spread_value input.facts)) end))))

    with_node : Option Json → Reply Fields
    with_node (some (str s)) =
        if s == ""
        then throws "nodeId is required for a system capability report"
        else ok (report (str s))
    with_node _ = throws "nodeId is required for a system capability report"

-- `Boolean(report?.capabilities?.[capability])`
unfoldable pub has_capability : Option Json → String → Bool
has_capability report capability = truthy (member capability (member "capabilities" report))

unfoldable pub missing_capabilities : Option Json → List String → List String
unfolding has_capability
missing_capabilities report required =
    filter (λ capability. not (has_capability report capability)) required
