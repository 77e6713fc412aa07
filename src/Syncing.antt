-- ===== src/Syncing.antt =====
-- sync_port and sync_qos of networking_nsxv3/plugins/ml2/drivers/nsxv3/agent/nsxv3_agent.py with
-- their questions to the server, which are messages of networking_nsxv3/api/rpc.py.
use networking_nsx_t.Base.{ℕ, String, Option, none, some, List, [], ◌∷◌, map}
use networking_nsx_t.Base.Exec.{type_error, Result, ok, raise, and_then, Exec, lift, ◌>>=◌}
use networking_nsx_t.Database.{PortDetails}
use networking_nsx_t.Ports.Agent.{AgentApi, PortRow, sync_port}
use networking_nsx_t.Qos.{QosApi, sync_qos}
use networking_nsx_t.Rpc.{
  request_of, ServerCall, get_port, get_port_addresses, get_port_allowed_pairs,
  get_port_security_groups, get_qos, get_qos_bwl_rules, get_qos_dscp_rules,
}
use networking_nsx_t.Rpc.Server.{
  Server, Answer, port_details, pairs, texts, name_and_revision, bandwidth_limits, dscp_marks,
  dispatch,
}
use networking_nsx_t.Rpc.RoundTrip.{wire}
mod Ports
mod Policies
mod Examples

-- Where an answer is unpacked: another shape than the loop or the tuple takes raises.
abbrev pub as_port : Answer → Result PortDetails
as_port (port_details d) = ok d
as_port _ = raise type_error

abbrev pub as_pairs : Answer → Result (List (String × String))
as_pairs (pairs l) = ok l
as_pairs _ = raise type_error

abbrev pub as_texts : Answer → Result (List String)
as_texts (texts l) = ok l
as_texts _ = raise type_error

abbrev pub as_name : Answer → Result (String × ℕ)
as_name (name_and_revision p) = ok p
as_name _ = raise type_error

abbrev pub as_limits : Answer → Result (List (String × ℕ × ℕ))
as_limits (bandwidth_limits l) = ok l
as_limits _ = raise type_error

abbrev pub as_marks : Answer → Result (List (String × ℕ))
as_marks (dscp_marks l) = ok l
as_marks _ = raise type_error

-- The columns of `get_port` that reach the port's update
abbrev pub row_of_details : PortDetails → PortRow
row_of_details d = record {
  id = d.id;
  mac = d.mac_address;
  qos_id = d.qos_policy_id;
  revision = d.revision_number;
  binding_host = d.host;
}

-- The server, how messages write times, and the agent's host
module _ (server : Server) (strftime : ℕ → String) (host : String) where
  -- A call of the agent's stub
  abbrev pub ask {κ} : {A : Type κ} → (Answer → Result A) → ServerCall → Result A
  ask unpack call = and_then (dispatch server (wire strftime (request_of host call))) unpack

  -- `json.loads(vif_details).get("segmentation_id")` is a parameter; no other code reads its value.
  unfoldable pub sync_port_by_id {ℓ} :
      {W : Type ℓ} → AgentApi W → (String → Result (Option ℕ)) → String → Exec W (Unit {0})
  sync_port_by_id agent loads_segmentation_id port_id =
      lift (ask as_port (get_port port_id)) >>= λ d.
      lift (loads_segmentation_id d.vif_details) >>= λ segmentation_id.
      lift (ask as_pairs (get_port_addresses port_id)) >>= λ addresses.
      lift (ask as_pairs (get_port_allowed_pairs port_id)) >>= λ allowed.
      lift (ask as_texts (get_port_security_groups port_id)) >>= λ groups.
      sync_port agent (row_of_details d) (map (λ a. a.0) addresses) allowed groups

  unfoldable pub sync_qos_by_id {ℓ} : {W : Type ℓ} → QosApi W → String → Exec W (Unit {0})
  sync_qos_by_id api qos_id = lift (ask as_name (get_qos qos_id)) >>= λ qos.
      lift (ask as_limits (get_qos_bwl_rules qos_id)) >>= λ bwls_rules.
      lift (ask as_marks (get_qos_dscp_rules qos_id)) >>= λ dscp_rules.
      sync_qos api qos_id (qos.1) (map (λ r. r.1) dscp_rules) bwls_rules
