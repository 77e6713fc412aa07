-- ===== src/Firewall/Model.antt =====
-- The values that the firewall code reads and builds: the rule that Neutron describes, and the
-- NSX-T SDK objects ResourceReference, the three NSService classes and FirewallRule.
use networking_nsx_t.Base.{ℕ, Bool, String, List, Option}

-- The dict `rule` that get_security_group_rule_spec reads. A missing value is None.
pub record RuleFields : Type 0 where
  pub id : String
  pub port_range_min : Option ℕ
  pub port_range_max : Option ℕ
  pub protocol : Option String
  pub ethertype : String
  pub direction : String
  pub remote_group_id : Option String
  pub remote_ip_prefix : Option String
  pub security_group_id : String
  pub apply_to : String

pub record ResourceReference : Type 0 where
  pub target_type : String
  pub target_id : String
  pub is_valid : Bool
  pub target_display_name : String

-- The protocol constants of the SDK's classes.
pub data IcmpProtocol : Type 0 where
  protocol_icmpv4 protocol_icmpv6 : IcmpProtocol

pub data L4Protocol : Type 0 where
  l4protocol_tcp l4protocol_udp : L4Protocol

pub data Service : Type 0 where
  icmp_type_service : (icmp_type icmp_code : Option String) → IcmpProtocol → Service
  l4_port_set_service : L4Protocol → (destination_ports source_ports : List String) → Service
  ip_protocol_service : (protocol_number : ℕ) → Service

pub data Action : Type 0 where
  action_allow : Action

-- A list that is None on the SDK object means ANY.
pub record FirewallRule : Type 0 where
  pub action : Action
  pub display_name : String
  pub direction : String
  pub ip_protocol : String
  pub sources : Option (List ResourceReference)
  pub destinations : Option (List ResourceReference)
  pub services : Option (List Service)
  pub applied_tos : List ResourceReference
