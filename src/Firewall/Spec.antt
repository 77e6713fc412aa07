-- ===== src/Firewall/Spec.antt =====
-- NSXv3Facada.get_security_group_rule_spec of
-- networking_nsxv3/plugins/ml2/drivers/nsxv3/agent/nsxv3_facada.py, cut at its statements:
-- the remote prefix, the target, the port, the service, and the rule.
use text.Mathlib.Text.{starts_with}
use networking_nsx_t.Base.{
  ℕ, String, Bool, true, false, not, ◌&&◌, ◌||◌, Option, none, some, List, [], ◌∷◌, ◌==◌, nat_eq,
  nat_elem, if◌then◌else◌, truthy_nat, ◌+++◌, str, is_digits, int_of, is_substring,
}
use networking_nsx_t.Base.Exec.{Result, ok, and_then, from_option, key_error}
use networking_nsx_t.Base.Dict.{lookup}
use networking_nsx_t.Firewall.Tables.{IcmpRanges, ip_protocol_numbers, valid_icmp_ranges}
use networking_nsx_t.Firewall.Model.{
  RuleFields, ResourceReference, IcmpProtocol, protocol_icmpv4, protocol_icmpv6, l4protocol_tcp,
  l4protocol_udp, Service, icmp_type_service, l4_port_set_service, ip_protocol_service,
  action_allow, FirewallRule,
}

-- The dicts DIRECTIONS, PROTOCOLS, PROTOCOL_TYPES and ICMP_PROTOCOLS; none is KeyError.
abbrev pub directions : String → Option String
directions d = if d == "ingress" then some "IN" else if d == "egress" then some "OUT" else none

abbrev pub by_ethertype {ℓ} : {A : Type ℓ} → String → A → A → Option A
by_ethertype e v4 v6 = if e == "IPv4" then some v4 else if e == "IPv6" then some v6 else none

abbrev pub protocols : String → Option String
protocols e = by_ethertype e "IPV4" "IPV6"

abbrev pub protocol_types : String → Option String
protocol_types e = by_ethertype e "IPv4Address" "IPv6Address"

abbrev pub icmp_protocols : String → Option IcmpProtocol
icmp_protocols e = by_ethertype e protocol_icmpv4 protocol_icmpv6

-- What a part of the method does: goes on with a value, or makes it `return None`.
pub data Part {ℓ} (A : Type ℓ) : Type ℓ where
  go_on : A → Part A
  return_none : Part A

-- `str(ipaddress.ip_network(unicode(remote_ip_prefix), strict=False))`, where there is a prefix
abbrev pub network_of : (String → Result String) → Option String → Result (Option String)
network_of ip_network none = ok none
network_of ip_network (some p) =
    if p == "" then ok (some p) else and_then (ip_network p) (λ n. ok (some n))

abbrev pub reference : String → String → String → ResourceReference
reference type id name = record {
  target_type = type;
  target_id = id;
  is_valid = true;
  target_display_name = name;
}

-- The prefix branches of the target; `prefix` is already normalised.
unfoldable pub prefix_target : String → Option String → Result (Part (Option ResourceReference))
prefix_target ethertype none = ok (go_on none)
prefix_target ethertype (some p) =
    if p == "0.0.0.0/0" || p == "::/0"
    then ok (go_on none)
    else if starts_with p "0.0.0.0/"
    then ok return_none
    else and_then (from_option key_error (protocol_types ethertype))
        (λ type. ok (go_on (some (reference type p p))))

unfoldable pub rule_target : RuleFields → Option String → Result (Part (Option ResourceReference))
unfolding prefix_target
rule_target rule prefix = elim rule.remote_group_id [
  | none ↦ prefix_target rule.ethertype prefix
  | some g ↦
      if g == ""
      then prefix_target rule.ethertype prefix
      else ok (go_on (some (reference "IPSet" g rule.security_group_id)))
]

abbrev pub any_port : String
any_port = "1-65535"

-- `if min and max: port = …`
unfoldable pub port_of : Option ℕ → Option ℕ → String
port_of (some min) (some max) =
    if truthy_nat (some min) && truthy_nat (some max)
    then (if nat_eq min max then str min else str min +++ "-" +++ str max)
    else any_port
port_of _ _ = any_port

abbrev pub codes_of : ℕ → IcmpRanges → Option (List ℕ)
codes_of t [] = none
codes_of t ((u, codes) ∷ ranges) = if nat_eq u t then some codes else codes_of t ranges

-- `min in VALID_ICMP_RANGES[ethertype] and max in VALID_ICMP_RANGES[ethertype][min]`
unfoldable pub is_valid_icmp : IcmpRanges → Option ℕ → Option ℕ → Bool
is_valid_icmp ranges none max = false
is_valid_icmp ranges (some t) none = false
is_valid_icmp ranges (some t) (some c) = elim (codes_of t ranges) [
  | none ↦ false
  | some codes ↦ nat_elem c codes
]

-- `str(n) if n else None`
abbrev pub str_or_none : Option ℕ → Option String
str_or_none none = none
str_or_none (some n) = if truthy_nat (some n) then some (str n) else none

unfoldable pub icmp_service : RuleFields → Result (Part (Option Service))
unfolding is_valid_icmp
icmp_service rule =
    let min = rule.port_range_min in
    let max = rule.port_range_max in
    and_then (from_option key_error (valid_icmp_ranges rule.ethertype)) λ ranges.
      if not (is_valid_icmp ranges min max)
      then ok return_none
      else and_then (from_option key_error (icmp_protocols rule.ethertype))
          (λ p. ok (go_on (some (icmp_type_service (str_or_none min) (str_or_none max) p))))

-- The remaining branches, for a protocol that is a text.
unfoldable pub named_service : String → Result (Part (Option Service))
named_service p =
    if is_digits p
    then ok (go_on (some (ip_protocol_service (int_of p))))
    else elim (lookup p ip_protocol_numbers) [
      | some n ↦ if p == "" then ok return_none else ok (go_on (some (ip_protocol_service n)))
      | none ↦ ok return_none
    ]

-- The chain of tests on `protocol`. None is ANY_PROTOCOL, and its service is ANY_SERVICE.
unfoldable pub rule_service : RuleFields → Result (Part (Option Service))
unfolding icmp_service named_service
rule_service rule =
    let port = port_of rule.port_range_min rule.port_range_max in
    elim rule.protocol [
      | none ↦ ok (go_on none)
      | some p ↦
          if p == "icmp"
          then icmp_service rule
          else if p == "tcp"
          then ok (go_on (some (l4_port_set_service l4protocol_tcp (port ∷ []) (any_port ∷ []))))
          else if p == "udp"
          then ok (go_on (some (l4_port_set_service l4protocol_udp (port ∷ []) (any_port ∷ []))))
          else named_service p
    ]

-- `[x] if x else None`
abbrev pub singleton_or_none {ℓ} : {A : Type ℓ} → Option A → Option (List A)
singleton_or_none none = none
singleton_or_none (some a) = some (a ∷ [])

-- The fields of the FirewallRule. `current` is None: any peer on the group's own side.
abbrev pub rule_of :
    RuleFields → Option ResourceReference → Option Service → String → String → FirewallRule
rule_of rule target service direction ip_protocol =
    let inbound = is_substring rule.direction "ingress" in
    record {
      action = action_allow;
      display_name = rule.id;
      direction = direction;
      ip_protocol = ip_protocol;
      sources = if inbound then singleton_or_none target else none;
      destinations = if inbound then none else singleton_or_none target;
      services = singleton_or_none service;
      applied_tos = reference "NSGroup" rule.apply_to rule.security_group_id ∷ [];
    }

-- The `return FirewallRule(…)`, with the lookups that may raise KeyError.
unfoldable pub build_rule :
    RuleFields → Option ResourceReference → Option Service → Result FirewallRule
build_rule rule target service =
    and_then (from_option key_error (directions rule.direction)) λ direction.
      and_then (from_option key_error (protocols rule.ethertype))
        λ ip_protocol. ok (rule_of rule target service direction ip_protocol)

abbrev pub on_part {ℓ κ} :
    {A : Type ℓ} {B : Type κ} → (A → Result (Option B)) → Part A → Result (Option B)
on_part f (go_on a) = f a
on_part f return_none = ok none

-- The result is None where the method returns None: no rule is created.
unfoldable pub get_security_group_rule_spec :
    (String → Result String) → RuleFields → Result (Option FirewallRule)
get_security_group_rule_spec ip_network rule =
    and_then (network_of ip_network rule.remote_ip_prefix) λ prefix.
      and_then (rule_target rule prefix) (
        on_part λ target.
          and_then (rule_service rule)
            (on_part λ service. and_then (build_rule rule target service) (λ r. ok (some r))))
