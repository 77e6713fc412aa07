-- ===== src/Rpc.antt =====
-- The messages between the agent and the server: NSXv3ServerRpcApi, NSXv3ServerRpcCallback and
-- NSXv3AgentRpcClient of networking_nsxv3/api/rpc.py.
use networking_nsx_t.Base.{ℕ, String, List, [], ◌∷◌, Option, none, some, Bool, true, false}
use networking_nsx_t.Base.Dict.{Dict}
use networking_nsx_t.Database.{DateArg, basestring}
pub mod Server
pub mod RoundTrip
pub mod Policies
pub mod Forwarding
pub mod Examples

-- The values that a call passes
pub data Arg : Type 0 where
  text : String → Arg
  number : ℕ → Arg
  time : DateArg → Arg

-- What `cctxt.call(context, method, **kwargs)` sends
pub record Request : Type 0 where
  pub method : String
  pub kwargs : Dict Arg

-- The methods of NSXv3ServerRpcApi, with their arguments
pub data ServerCall : Type 0 where
  get_port_revision_tuples : ℕ → DateArg → ServerCall
  get_qos_policy_revision_tuples : ℕ → DateArg → ServerCall
  get_security_group_revision : String → ServerCall
  get_security_group_revision_tuples : ℕ → DateArg → ServerCall
  has_security_group_tag : String → String → ServerCall
  get_qos : String → ServerCall
  get_qos_bwl_rules : String → ServerCall
  get_qos_dscp_rules : String → ServerCall
  get_port : String → ServerCall
  get_port_security_groups : String → ServerCall
  get_port_allowed_pairs : String → ServerCall
  get_port_addresses : String → ServerCall
  get_rules_for_security_groups_id : String → ServerCall
  get_security_group_members_ips : String → ServerCall
  get_security_group_members_address_bindings_ips : String → ServerCall

abbrev pub _limit : ℕ
_limit = 100

-- `datetime.utcfromtimestamp(0).isoformat()`, which has no fraction of a second
abbrev pub _create_after : DateArg
_create_after = basestring "1970-01-01T00:00:00"

abbrev pub with_id : String → String → String → Request
with_id method key id = record { method = method; kwargs = (key, text id) ∷ [] }

-- The body of each method: what it sends
unfoldable pub request_of : String → ServerCall → Request
request_of host (get_port_revision_tuples limit created_after) = record {
  method = "get_port_revision_tuples";
  kwargs =
      ("host", text host) ∷ ("limit", number limit) ∷ ("created_after", time created_after) ∷ [];
}
request_of host (get_qos_policy_revision_tuples limit created_after) = record {
  method = "get_qos_policy_revision_tuples";
  kwargs = ("limit", number limit) ∷ ("created_after", time created_after) ∷ [];
}
request_of host (get_security_group_revision id) =
    with_id "get_security_group_revision" "security_group_id" id
request_of host (get_security_group_revision_tuples limit created_after) = record {
  method = "get_security_group_revision_tuples";
  kwargs = ("limit", number limit) ∷ ("created_after", time created_after) ∷ [];
}
request_of host (has_security_group_tag id tag_name) = record {
  method = "has_security_group_tag";
  kwargs = ("security_group_id", text id) ∷ ("tag_name", text tag_name) ∷ [];
}
request_of host (get_qos id) = with_id "get_qos" "qos_id" id
request_of host (get_qos_bwl_rules id) = with_id "get_qos_bwl_rules" "qos_id" id
request_of host (get_qos_dscp_rules id) = with_id "get_qos_dscp_rules" "qos_id" id
request_of host (get_port id) = with_id "get_port" "port_id" id
request_of host (get_port_security_groups id) = with_id "get_port_security_groups" "port_id" id
request_of host (get_port_allowed_pairs id) = with_id "get_port_allowed_pairs" "port_id" id
request_of host (get_port_addresses id) = with_id "get_port_addresses" "port_id" id
request_of host (get_rules_for_security_groups_id id) =
    with_id "get_rules_for_security_groups_id" "security_group_id" id
request_of host (get_security_group_members_ips id) =
    with_id "get_security_group_members_ips" "security_group_id" id
request_of host (get_security_group_members_address_bindings_ips id) =
    with_id "get_security_group_members_address_bindings_ips" "security_group_id" id
