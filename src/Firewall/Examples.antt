-- ===== src/Firewall/Examples.antt =====
-- Rules as Neutron sends them, and the theorems about get_security_group_rule_spec at them.
use networking_nsx_t.Base.{
  ℕ, String, ◌≡◌, refl, not, ◌&&◌, ◌||◌, Option, none, some, [], ◌∷◌, truthy_text, str,
}
use networking_nsx_t.Base.Exec.{Result, ok}
use networking_nsx_t.Base.Dict.{lookup}
use networking_nsx_t.Firewall.Tables.{ip_protocol_numbers, valid_icmp_ranges}
use networking_nsx_t.Firewall.Model.{
  RuleFields, ResourceReference, FirewallRule, IcmpProtocol, protocol_icmpv4, icmp_type_service,
  action_allow,
}
use networking_nsx_t.Firewall.Spec.{
  network_of, rule_target, rule_service, build_rule, reference, go_on, get_security_group_rule_spec,
}
use networking_nsx_t.Firewall.Placement.{IsPlaced, spec_placement}
use networking_nsx_t.Firewall.Dropped.{
  IsWellFormed, returned_none, is_zero_network, is_unsupported, spec_dropped,
}
use networking_nsx_t.Firewall.Services.{
  IsListedIcmp, with_protocol, nonzero, spec-protocol_number, spec_icmp,
}

-- Networks are taken as they are written.
abbrev as_written : String → Result String
as_written p = ok p

abbrev ping : RuleFields
ping = record {
  id = "rule-1";
  port_range_min = some 8;
  port_range_max = some 0;
  protocol = some "icmp";
  ethertype = "IPv4";
  direction = "ingress";
  remote_group_id = none;
  remote_ip_prefix = some "10.0.0.0/24";
  security_group_id = "sg-1";
  apply_to = "nsg-1";
}

abbrev ping_rule : FirewallRule
ping_rule = record {
  action = action_allow;
  display_name = "rule-1";
  direction = "IN";
  ip_protocol = "IPV4";
  sources = some (reference "IPv4Address" "10.0.0.0/24" "10.0.0.0/24" ∷ []);
  destinations = none;
  services = some (icmp_type_service (some "8") none protocol_icmpv4 ∷ []);
  applied_tos = reference "NSGroup" "nsg-1" "sg-1" ∷ [];
}

-- An echo request of code 0 is allowed with any code, since the code 0 counts as missing.
spec_ping : get_security_group_rule_spec as_written ping ≡ ok (some ping_rule)
unfolding get_security_group_rule_spec rule_target rule_service build_rule valid_icmp_ranges str
spec_ping = refl

-- An echo reply loses its type as well.
spec_echo_reply :
    get_security_group_rule_spec as_written (record ping { port_range_min = some 0 })
    ≡ ok (
        some
          (record ping_rule { services = some (icmp_type_service none none protocol_icmpv4 ∷ []) }))
unfolding get_security_group_rule_spec rule_target rule_service build_rule valid_icmp_ranges str
spec_echo_reply = refl

-- ICMP of any type is not allowed at all.
spec_any_icmp :
    get_security_group_rule_spec as_written
      (record ping { port_range_min = none; port_range_max = none })
    ≡ ok none
unfolding get_security_group_rule_spec rule_target rule_service build_rule valid_icmp_ranges str
spec_any_icmp = refl

spec_placement_example :
    (target : Option ResourceReference) × (prefix : Option String) × (network_of as_written
        ping.remote_ip_prefix
      ≡ ok prefix)
    × (rule_target ping prefix ≡ ok (go_on target))
    × IsPlaced ping target ping_rule
    × (ping_rule.display_name ≡ ping.id)
    × (ping_rule.applied_tos ≡ reference "NSGroup" ping.apply_to ping.security_group_id ∷ [])
spec_placement_example = spec_placement as_written ping ping_rule spec_ping

spec_icmp_example :
    (type : ℕ) × (code : ℕ) × (p : IcmpProtocol) × IsListedIcmp ping type code
    × (ping_rule.services ≡ some (icmp_type_service (nonzero type) (nonzero code) p ∷ []))
spec_icmp_example = spec_icmp as_written ping ping_rule refl spec_ping

ping-IsWellFormed : IsWellFormed ping
ping-IsWellFormed = record { ethertype = refl; direction = refl }

spec_dropped_example :
    returned_none (get_security_group_rule_spec as_written ping)
    ≡ some (
        not (truthy_text ping.remote_group_id) && is_zero_network (some "10.0.0.0/24")
        || is_unsupported ping)
spec_dropped_example = spec_dropped as_written ping (some "10.0.0.0/24") ping-IsWellFormed refl

gre_number : lookup "gres" ip_protocol_numbers ≡ some 47
unfolding lookup ip_protocol_numbers
gre_number = refl

spec-protocol_number_example :
    get_security_group_rule_spec as_written (with_protocol "gres" ping)
    ≡ get_security_group_rule_spec as_written (with_protocol (str 47) ping)
spec-protocol_number_example = spec-protocol_number as_written ping "gres" 47 gre_number refl
