-- ===== src/Ports/Agent.antt =====
-- port_update, port_delete, sync_port and get_network_bridge of
-- networking_nsxv3/plugins/ml2/drivers/nsxv3/agent/nsxv3_agent.py. The lock on the port is the
-- order in which the calls are made.
use networking_nsx_t.Base.{
  ℕ, String, Bool, true, false, ◌&&◌, Option, none, some, List, [], ◌∷◌, ◌++◌, map, ◌==◌,
  if◌then◌else◌, is_substring, truthy_nat,
}
use networking_nsx_t.Base.Exec.{ok, Exec, pure, ◌>>=◌, ◌>>◌}

-- An address of a port, as a dict: none is a key that is missing.
pub record Address : Type 0 where
  pub ip_address : String
  pub mac_address : Option String

-- The dict of a port. `host` is none where the key "binding:host_id" is missing.
pub record Port : Type 0 where
  pub id : String
  pub mac_address : String
  pub vnic_type : Option String
  pub vif_type : Option String
  pub host : Option String
  pub fixed_ips : List Address
  pub allowed_address_pairs : List (String × String)
  pub security_groups : List String
  pub revision_number : ℕ
  pub qos_policy_id : Option String

-- Whether a value that may be None is the text, which is not empty
abbrev pub is_text : String → Option String → Bool
is_text s none = false
is_text s (some t) = t == s

-- `mac = mac if mac else port["mac_address"]`
unfoldable pub fixed_binding : String → Address → String × String
fixed_binding port_mac addr = elim addr.mac_address [
  | none ↦ (addr.ip_address, port_mac)
  | some mac ↦ (addr.ip_address, (if mac == "" then port_mac else mac))
]

unfoldable pub address_bindings_of : Port → List (String × String)
address_bindings_of port =
    map (fixed_binding port.mac_address) port.fixed_ips ++ port.allowed_address_pairs

-- VNIC_NORMAL and VIF_TYPE_OVS of neutron_lib, and the agent's host
pub record Settings : Type 0 where
  pub vnic_normal : String
  pub vif_type_ovs : String
  pub host : String

-- The two early returns: the port is of another type, or bound to another host.
unfoldable pub is_handled : Settings → Port → Bool
is_handled settings port =
    is_text settings.vnic_normal port.vnic_type
    && is_text settings.vif_type_ovs port.vif_type
    && (elim port.host [ none ↦ true | some h ↦ settings.host == h ])

-- The agent's calls: port_update and port_delete of the facada, and the set `updated_devices`.
pub record AgentApi {ℓ} (W : Type ℓ) : Type ℓ where
  pub settings : Settings
  pub update : String → ℕ → List String → List (String × String) → Option String → Exec W (Unit {0})
  pub delete : String → Exec W (Unit {0})
  pub add_updated_device : String → W → W

module _ {ℓ} {W : Type ℓ} (api : AgentApi W) where
  unfoldable pub port_update : Port → Exec W (Unit {0})
  port_update port =
      if is_handled api.settings port
      then (api.update port.id port.revision_number port.security_groups (address_bindings_of port)
            port.qos_policy_id
          >> λ w. (ok tt, api.add_updated_device port.mac_address w))
      else pure tt

  unfoldable pub port_delete : Bool → String → Exec W (Unit {0})
  port_delete sync port_id = if sync then api.delete port_id else pure tt

-- The row of `rpc.get_port`
pub record PortRow : Type 0 where
  pub id : String
  pub mac : String
  pub qos_id : Option String
  pub revision : ℕ
  pub binding_host : String

unfoldable pub allowed_pairs : List (String × String) → List (String × String)
allowed_pairs [] = []
allowed_pairs ((ip, mac) ∷ pairs) =
    let rest = allowed_pairs pairs in if is_substring "/" ip then rest else (ip, mac) ∷ rest

-- The port that `sync_port` builds of the rows of the database
unfoldable pub port_of :
    Settings → PortRow → List String → List (String × String) → List String → Port
port_of settings row addresses pairs groups = record {
  id = row.id;
  mac_address = row.mac;
  vnic_type = some settings.vnic_normal;
  vif_type = some settings.vif_type_ovs;
  host = some row.binding_host;
  fixed_ips = map (λ ip. record { ip_address = ip; mac_address = some row.mac }) addresses;
  allowed_address_pairs = allowed_pairs pairs;
  security_groups = groups;
  revision_number = row.revision;
  qos_policy_id = row.qos_id;
}

module _ {ℓ} {W : Type ℓ} (api : AgentApi W) where
  unfoldable pub sync_port :
      PortRow → List String → List (String × String) → List String → Exec W (Unit {0})
  sync_port row addresses pairs groups =
      port_update api (port_of api.settings row addresses pairs groups)

  unfoldable pub sync_port_orphaned : String → Exec W (Unit {0})
  sync_port_orphaned port_id = port_delete api true port_id

-- The loop over the segments: the first one with a segmentation id is asked for. The result is the
-- id of the switch and the segmentation id, or none for the empty dict.
module _ {ℓ} {W : Type ℓ} (get_switch_id : ℕ → Exec W String) where
  unfoldable pub get_network_bridge : List (Option ℕ) → Exec W (Option (String × ℕ))
  get_network_bridge [] w = (ok none, w)
  get_network_bridge (none ∷ segments) w = get_network_bridge segments w
  get_network_bridge (some seg_id ∷ segments) w =
      let rest = get_network_bridge segments w in
      if truthy_nat (some seg_id)
      then (get_switch_id seg_id >>= λ id. pure (some (id, seg_id))) w
      else rest
