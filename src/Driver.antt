-- ===== src/Driver.antt =====
-- The mechanism driver: try_to_bind_segment_for_agent and update_port_postcommit of
-- networking_nsxv3/plugins/ml2/drivers/nsxv3/driver.py.
pub mod Binding
mod Examples
use text.Mathlib.Text.{starts_with}
use networking_nsx_t.Base.{
  String, Bool, true, false, not, ◌&&◌, Option, none, some, List, [], ◌∷◌, ◌==◌, if◌then◌else◌,
  any_of,
}
use networking_nsx_t.Base.Dict.{Dict, insert}
use networking_nsx_t.Base.Exec.{Result, ok, raise, Exec, pure, continue, ◌>>=◌, ◌>>◌}

-- The dict of an agent; a missing flag is False, and a missing host is None.
pub record Agent : Type 0 where
  pub admin_state_up : Bool
  pub alive : Bool
  pub agent_type : String
  pub host : Option String

-- What the driver reads of the port: a missing device owner is "".
pub record Current : Type 0 where
  pub device_owner : String
  pub binding_host : Option String

-- The answer of the agent; a missing value is None.
pub record Bridge : Type 0 where
  pub logical_switch_id : Option String
  pub segmentation_id : Option String

pub record VifDetails : Type 0 where
  pub logical_switch_id : Option String
  pub external_id : Option String
  pub segmentation_id : Option String

-- `lower` is str.lower; `ask` is rpc.get_network_bridge for the one segment; `set_binding` is that
-- of the port's context for the segment, with the details that are added to the driver's own.
pub record DriverApi {ℓ} (W : Type ℓ) : Type ℓ where
  pub agent_type : String
  pub lower : String → String
  pub ask : Exec W Bridge
  pub set_binding : VifDetails → W → W

-- `a == b` of two values that may be None
unfoldable pub same_host : Option String → Option String → Bool
same_host none none = true
same_host (some a) (some b) = a == b
same_host _ _ = false

abbrev pub is_given : Option String → Bool
is_given none = false
is_given (some s) = not (s == "")

module _ {ℓ} {W : Type ℓ} (api : DriverApi W) where
  abbrev pub details_of : Bridge → VifDetails
  details_of bridge = record {
    logical_switch_id = bridge.logical_switch_id;
    external_id = bridge.logical_switch_id;
    segmentation_id = bridge.segmentation_id;
  }

  unfoldable pub bind_with : Bridge → Exec W Bool
  bind_with bridge w =
      if is_given bridge.logical_switch_id
      then (ok true, api.set_binding (details_of bridge) w)
      else (ok false, w)

  unfoldable pub try_to_bind_segment_for_agent : Current → Agent → Exec W Bool
  unfolding same_host bind_with
  try_to_bind_segment_for_agent current agent =
      if not (starts_with current.device_owner "compute")
      then pure false
      else if not agent.admin_state_up
      then pure false
      else if not agent.alive
      then pure false
      else if not (api.lower agent.agent_type == api.lower api.agent_type)
      then pure false
      else if not (same_host agent.host current.binding_host)
      then pure false
      else api.ask >>= bind_with

-- `update_port_postcommit`, where `complete` is provisioning_complete for the port
unfoldable pub update_port_postcommit {ℓ} :
    {W : Type ℓ} → (W → W) → List String → String → String → String → W → W
update_port_postcommit complete supported_vnic_types vif_type port_vnic_type port_vif_type w =
    if any_of (λ t. t == port_vnic_type) supported_vnic_types && port_vif_type == vif_type
    then complete w
    else w
