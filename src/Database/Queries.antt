-- ===== src/Database/Queries.antt =====
-- The queries of networking_nsxv3/db/db.py, besides the *_revision_tuples.
use networking_nsx_t.Base.{
  ℕ, String, Bool, false, ◌&&◌, Option, none, some, List, map, ◌==◌, nat_eq, keep,
}
use networking_nsx_t.Base.Exec.{Result}
use networking_nsx_t.Firewall.Model.{RuleFields}
use networking_nsx_t.Database.{
  StandardAttribute, Port, PortBinding, QosPortPolicyBinding, QosPolicy, Database, join, outer_join,
  one_or_none, is_filled, _validate_one, one, PortDetails,
}

abbrev pub policy_id_of : Option QosPolicy → Option String
policy_id_of none = none
policy_id_of (some policy) = some policy.id

abbrev pub bound_to : Option QosPortPolicyBinding → QosPolicy → Bool
bound_to none policy = false
bound_to (some binding) policy = policy.id == binding.policy_id

abbrev pub on_attribute : Port → StandardAttribute → Bool
on_attribute port attr = nat_eq attr.id port.standard_attr_id

abbrev pub on_binding : Port × StandardAttribute → PortBinding → Bool
on_binding r binding = binding.port_id == r.0.id

abbrev pub on_policy_binding :
    (Port × StandardAttribute) × PortBinding → QosPortPolicyBinding → Bool
on_policy_binding r binding = binding.port_id == r.0.0.id

abbrev pub has_policy :
    ((Port × StandardAttribute) × PortBinding) × Option QosPortPolicyBinding → QosPolicy → Bool
has_policy r policy = bound_to (r.1) policy

-- A port with its attributes, its binding and the policy that it may have
abbrev pub details_of :
    (((Port × StandardAttribute) × PortBinding) × Option QosPortPolicyBinding) × Option QosPolicy
    → PortDetails
details_of r =
    let port = r.0.0.0.0 in
    let binding = r.0.0.1 in
    record {
      id = port.id;
      mac_address = port.mac_address;
      admin_state_up = port.admin_state_up;
      status = port.status;
      qos_policy_id = policy_id_of (r.1);
      revision_number = r.0.0.0.1.revision_number;
      host = binding.host;
      vif_details = binding.vif_details;
    }

module _ (db : Database) where
  unfoldable pub get_security_group_revision : String → Result (String × ℕ)
  unfolding join one_or_none _validate_one
  get_security_group_revision security_group_id = one (
      map (λ r. (r.0.id, r.1.revision_number))
        (join (λ sg attr. nat_eq attr.id sg.standard_attr_id)
          (keep (λ sg. sg.id == security_group_id) db.security_groups) db.standard_attributes))

  unfoldable pub has_security_group_tag : String → String → Bool
  unfolding join
  has_security_group_tag security_group_id tag_name = is_filled (
      keep (λ r. (r.1.tag == tag_name) && (r.0.id == security_group_id))
        (join (λ sg tag. nat_eq tag.standard_attr_id sg.standard_attr_id) db.security_groups
          db.tags))

  unfoldable pub get_qos : String → Result (String × ℕ)
  unfolding join one_or_none _validate_one
  get_qos qos_id = one (
      map (λ r. (r.0.name, r.1.revision_number))
        (join (λ policy attr. nat_eq attr.id policy.standard_attr_id)
          (keep (λ policy. policy.id == qos_id) db.qos_policies) db.standard_attributes))

  unfoldable pub get_qos_bwl_rules : String → List (String × ℕ × ℕ)
  get_qos_bwl_rules qos_id =
      map (λ r. (r.direction, r.max_kbps, r.max_burst_kbps))
        (keep (λ r. r.qos_policy_id == qos_id) db.bandwidth_limit_rules)

  unfoldable pub get_qos_dscp_rules : String → List (String × ℕ)
  get_qos_dscp_rules qos_id =
      map (λ r. (r.qos_policy_id, r.dscp_mark))
        (keep (λ r. r.qos_policy_id == qos_id) db.dscp_marking_rules)

  unfoldable pub port_rows : String → List PortDetails
  unfolding join outer_join
  port_rows port_id = map details_of (
      outer_join has_policy
        (outer_join on_policy_binding
          (join on_binding
            (join on_attribute (keep (λ port. port.id == port_id) db.ports) db.standard_attributes)
            db.port_bindings)
          db.qos_port_policy_bindings)
        db.qos_policies)

  unfoldable pub get_port : String → Result PortDetails
  unfolding port_rows one_or_none _validate_one
  get_port port_id = one (port_rows port_id)

  unfoldable pub get_port_security_groups : String → List String
  get_port_security_groups port_id =
      map (λ b. b.security_group_id)
        (keep (λ b. b.port_id == port_id) db.security_group_port_bindings)

  unfoldable pub get_port_allowed_pairs : String → List (String × String)
  get_port_allowed_pairs port_id =
      map (λ p. (p.ip_address, p.mac_address))
        (keep (λ p. p.port_id == port_id) db.allowed_address_pairs)

  unfoldable pub get_port_addresses : String → List (String × String)
  get_port_addresses port_id =
      map (λ a. (a.ip_address, a.subnet_id)) (keep (λ a. a.port_id == port_id) db.ip_allocations)

  unfoldable pub get_rules_for_security_groups_id : String → List RuleFields
  get_rules_for_security_groups_id security_group_id =
      keep (λ r. r.security_group_id == security_group_id) db.security_group_rules

  unfoldable pub _get_port_id_by_sec_group_id : String → List String
  _get_port_id_by_sec_group_id sec_group_id =
      map (λ b. b.port_id)
        (keep (λ b. b.security_group_id == sec_group_id) db.security_group_port_bindings)

  unfoldable pub get_security_group_members_ips : String → List String
  unfolding join
  get_security_group_members_ips security_group_id =
      map (λ r. r.0.ip_address)
        (keep (λ r. security_group_id == r.1.security_group_id)
          (join (λ a b. a.port_id == b.port_id) db.ip_allocations db.security_group_port_bindings))

  unfoldable pub get_security_group_members_address_bindings_ips : String → List String
  unfolding join
  get_security_group_members_address_bindings_ips security_group_id =
      map (λ r. r.0.ip_address)
        (keep (λ r. security_group_id == r.1.security_group_id)
          (join (λ p b. p.port_id == b.port_id) db.allowed_address_pairs
            db.security_group_port_bindings))
