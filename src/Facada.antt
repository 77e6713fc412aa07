-- ===== src/Facada.antt =====
-- NSXv3Facada.__init__, setup, get_switch_id_for_segmentation_id and get_port, and the attributes
-- that setup gives to the other methods, of
-- networking_nsxv3/plugins/ml2/drivers/nsxv3/agent/nsxv3_facada.py.
use networking_nsx_t.Base.{
  ℕ, String, Bool, true, false, Option, none, some, List, [], ◌∷◌, ◌++◌, if◌then◌else◌, str, ◌+++◌,
}
use networking_nsx_t.Base.Exec.{
  attribute_error, not_found, Result, ok, raise, and_then, Exec, pure, throw, lift, from_option,
  ◌>>=◌, ◌>>◌,
}
use networking_nsx_t.Client.Policy.{Connection, retry_until_result, has_result}
use networking_nsx_t.Client.Operations.{Service, get, create, get_by_attr}
use networking_nsx_t.Ports.Facada.{ProfileId, LogicalPort, PortsApi, update_found}
pub mod Switches
pub mod Unset
mod Examples

pub record TransportZone : Type 0 where
  pub id : Option String
  pub display_name : Option String

-- The two types of switching profiles that setup creates, with the fields that differ
pub data ProfileSpec : Type 0 where
  ip_discovery :
      (arp_bindings_limit : ℕ) (arp_snooping_enabled dhcp_snooping_enabled vm_tools_enabled : Bool)
      → ProfileSpec
  spoof_guard : (white_list_providers : List String) → ProfileSpec

pub record SwitchingProfile : Type 0 where
  pub id : Option String
  pub display_name : Option String
  pub spec : ProfileSpec

pub record LogicalSwitch : Type 0 where
  pub id : Option String
  pub display_name : Option String
  pub admin_state : String
  pub transport_zone_id : Option String
  pub replication_mode : String
  pub vni : Option ℕ
  pub vlan : ℕ

pub record FacadaConfig : Type 0 where
  pub nsxv3_transport_zone_name : String
  pub agent_id : String
  pub nsxv3_enable_spoof_guard : Bool
  -- The keys of the SDK for the types of profiles, and its name of the white list
  pub ip_discovery_key : String
  pub spoof_guard_key : String
  pub white_list_lport_bindings : String

-- The attributes of the facada that setup sets: none is one that it does not have yet.
pub record Attributes : Type 0 where
  pub tz_id : Option (Option String)
  pub agent_id : Option String
  pub default_switching_profile_ids : Option (List ProfileId)

-- `__init__` sets the name of the zone only.
abbrev pub no_attributes : Attributes
no_attributes = record { tz_id = none; agent_id = none; default_switching_profile_ids = none }

abbrev pub ipd_sp_spec : String → SwitchingProfile
ipd_sp_spec tz_name = record {
  id = none;
  display_name = some (tz_name +++ "-" +++ "default-IpDiscovery");
  spec = ip_discovery 1 false true false;
}

abbrev pub sg_sp_spec : String → String → SwitchingProfile
sg_sp_spec tz_name white_list = record {
  id = none;
  display_name = some (tz_name +++ "-" +++ "default-SpoofGuard");
  spec = spoof_guard (white_list ∷ []);
}

-- `.id` of an object that `get` or `create` returned: None has no such attribute, and the id of an
-- object may be None.
abbrev pub id_of {ℓ} : {Obj : Type ℓ} → (Obj → Option String) → Option Obj → Result (Option String)
id_of id none = raise attribute_error
id_of id (some o) = ok (id o)

-- The entry of the spoof guard profile, of which the id is read where it is enabled only
unfoldable pub spoof_guard_entries : FacadaConfig → Result (Option String) → Result (List ProfileId)
spoof_guard_entries config sg_id =
    if config.nsxv3_enable_spoof_guard
    then and_then sg_id (λ value. ok (record { key = config.spoof_guard_key; value = value } ∷ []))
    else ok []

unfoldable pub sw_name : FacadaConfig → ℕ → String
sw_name config segmentation_id = config.nsxv3_transport_zone_name +++ "-" +++ str segmentation_id

abbrev pub ls_spec : FacadaConfig → Option String → ℕ → LogicalSwitch
ls_spec config tz_id segmentation_id = record {
  id = none;
  display_name = some (sw_name config segmentation_id);
  admin_state = "UP";
  transport_zone_id = tz_id;
  replication_mode = "MTEP";
  vni = none;
  vlan = segmentation_id;
}

module _ {ℓ} {W : Type ℓ} (connection : Connection W) (operation_retry_count : ℕ)
    (config : FacadaConfig) where
  -- The result is the attributes; `.id` of None is AttributeError.
  unfoldable pub setup : Service W TransportZone → Service W SwitchingProfile → Exec W Attributes
  unfolding spoof_guard_entries
  setup zones profiles =
      connection.login
      >> get connection zones operation_retry_count
          (record { id = none; display_name = some config.nsxv3_transport_zone_name })
      >>= λ zone. lift (id_of zones.id zone) >>= λ tz_id.
          create connection profiles operation_retry_count
            (ipd_sp_spec config.nsxv3_transport_zone_name)
          >>= λ ipd_sp.
              create connection profiles operation_retry_count
                (sg_sp_spec config.nsxv3_transport_zone_name config.white_list_lport_bindings)
              >>= λ sg_sp. lift (id_of profiles.id ipd_sp) >>= λ ipd_id.
                  lift (spoof_guard_entries config (id_of profiles.id sg_sp)) >>= λ entries.
                  pure (record {
                    tz_id = some tz_id;
                    agent_id = some config.agent_id;
                    default_switching_profile_ids =
                        some (record { key = config.ip_discovery_key; value = ipd_id } ∷ entries);
                  })

  unfoldable pub get_switch_id_for_segmentation_id :
      Service W LogicalSwitch → Option (Option String) → ℕ → Exec W (Option String)
  get_switch_id_for_segmentation_id switches attr_tz_id segmentation_id =
      lift (from_option attribute_error attr_tz_id) >>= λ tz_id.
      create connection switches operation_retry_count (ls_spec config tz_id segmentation_id)
      >>= λ ls. lift (id_of switches.id ls)

  -- `get_port`: the search by attachment, until it finds a port. A port that is None is false.
  abbrev found_ports : Option LogicalPort → List LogicalPort
  found_ports none = []
  found_ports (some lp) = lp ∷ []

  abbrev first_port : Option (List LogicalPort) → Option LogicalPort
  first_port none = none
  first_port (some []) = none
  first_port (some (lp ∷ ports)) = some lp

  unfoldable pub get_port : Service W LogicalPort → String → Exec W (Option LogicalPort)
  get_port ports attachment_id =
      retry_until_result connection.operation_pause operation_retry_count (
        get_by_attr connection ports operation_retry_count "attachment_id" attachment_id >>= λ lp.
        pure (found_ports lp))
      >>= λ found. pure (first_port found)

-- The facada's port_update with the attributes that it has. The tags read agent_id, and then the
-- profiles are read.
module _ {ℓ} {W : Type ℓ} (api : PortsApi W) (attributes : Attributes) where
  abbrev pub update_found_with :
      ℕ
      → List String
      → List (String × String)
      → Option String
      → Option LogicalPort
      → Exec W (Unit {0})
  update_found_with revision groups bindings qos_name none = throw not_found
  update_found_with revision groups bindings qos_name (some lp) =
      lift (from_option attribute_error attributes.agent_id) >>= λ agent_id.
      lift (from_option attribute_error attributes.default_switching_profile_ids) >>= λ profiles.
      update_found (record api { agent_id = agent_id; default_switching_profile_ids = profiles })
        revision groups bindings qos_name (some lp)

  unfoldable pub port_update_with :
      String → ℕ → List String → List (String × String) → Option String → Exec W (Unit {0})
  port_update_with attachment_id revision groups bindings qos_name =
      api.get_port attachment_id >>= update_found_with revision groups bindings qos_name
