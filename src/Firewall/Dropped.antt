-- ===== src/Firewall/Dropped.antt =====
-- Which Neutron rules get_security_group_rule_spec leaves out.
use text.Mathlib.Text.{starts_with}
use networking_nsx_t.Base.{
  String, ◌≡◌, refl, Bool, true, false, not, ◌&&◌, ◌||◌, Option, none, some, ◌==◌, eq_iff, arith,
  Bool-cases, Option-cases, is_some, truthy_text, is_digits, inl, inr, if◌then◌else◌,
}
use networking_nsx_t.Base.Exec.{Result, ok, raise, and_then}
use networking_nsx_t.Base.Dict.{lookup, has_key}
use networking_nsx_t.Firewall.Tables.{ip_protocol_numbers, valid_icmp_ranges}
use networking_nsx_t.Firewall.Model.{RuleFields, ResourceReference, Service}
use networking_nsx_t.Firewall.Spec.{
  Part, go_on, return_none, on_part, network_of, prefix_target, rule_target, is_valid_icmp,
  icmp_service, named_service, rule_service, build_rule, get_security_group_rule_spec,
}

abbrev is_left_out {ℓ} : {A : Type ℓ} → Part A → Bool
is_left_out (go_on a) = false
is_left_out return_none = true

-- What came of a part: none if it raised, and otherwise whether the rule is left out.
abbrev leaves_out {ℓ} : {A : Type ℓ} → Result (Part A) → Option Bool
leaves_out (ok p) = some (is_left_out p)
leaves_out (raise e) = none

-- What came of the method: none if it raised, and otherwise whether it returned None.
abbrev pub returned_none {ℓ} : {A : Type ℓ} → Result (Option A) → Option Bool
returned_none (ok none) = some true
returned_none (ok (some a)) = some false
returned_none (raise e) = none

-- A network 0.0.0.0/n other than 0.0.0.0/0
abbrev pub is_zero_network : Option String → Bool
is_zero_network none = false
is_zero_network (some p) = starts_with p "0.0.0.0/" && not (p == "0.0.0.0/0")

-- An ICMP type and code that the tables do not list, a missing one included
abbrev pub is_invalid_icmp : RuleFields → Bool
is_invalid_icmp rule = elim (valid_icmp_ranges rule.ethertype) [
  | none ↦ true
  | some ranges ↦ not (is_valid_icmp ranges rule.port_range_min rule.port_range_max)
]

-- A protocol with no service, or an ICMP type and code that the tables do not list
abbrev pub is_unsupported : RuleFields → Bool
is_unsupported rule = elim rule.protocol [
  | none ↦ false
  | some p ↦
      if p == "icmp"
      then is_invalid_icmp rule
      else not (p == "tcp" || p == "udp" || is_digits p || has_key p ip_protocol_numbers)
]

-- The values that Neutron admits for the two enumerations of a rule.
pub record IsWellFormed (rule : RuleFields) : Type 0 where
  pub ethertype : (rule.ethertype == "IPv4" || rule.ethertype == "IPv6") ≡ true
  pub direction : (rule.direction == "ingress" || rule.direction == "egress") ≡ true

not_zero_ipv6 : (p : String) → (p == "::/0") ≡ true → starts_with p "0.0.0.0/" ≡ false
not_zero_ipv6 p h = rw ((eq_iff p "::/0").0 h) refl

prefix_target-leaves_out :
    (e : String) (prefix : Option String)
    → (e == "IPv4" || e == "IPv6") ≡ true
    → leaves_out (prefix_target e prefix) ≡ some (is_zero_network prefix)
unfolding prefix_target
prefix_target-leaves_out e none h = refl
prefix_target-leaves_out e (some p) h = ground (arith, not_zero_ipv6 p)

rule_target-leaves_out :
    (rule : RuleFields) (prefix : Option String)
    → IsWellFormed rule
    → leaves_out (rule_target rule prefix)
      ≡ some (not (truthy_text rule.remote_group_id) && is_zero_network prefix)
unfolding rule_target
rule_target-leaves_out rule prefix w =
    ground (arith, prefix_target-leaves_out rule.ethertype prefix w.ethertype)

no_empty_name : (p : String) → (p == "") ≡ true → lookup p ip_protocol_numbers ≡ none
unfolding lookup ip_protocol_numbers
no_empty_name p h = rw ((eq_iff p "").0 h) refl

named_service-leaves_out :
    (p : String)
    → leaves_out (named_service p) ≡ some (not (is_digits p || has_key p ip_protocol_numbers))
unfolding named_service
named_service-leaves_out p = ground (arith, no_empty_name p)

or_false_right : {o : Option Bool} (b : Bool) → o ≡ some (b || false) → o ≡ some b
or_false_right b h = ground arith

or_of_false : (a b : Bool) → (a || b) ≡ true → a ≡ false → b ≡ true
or_of_false a b h k = ground arith

has_ranges :
    (e : String) → (e == "IPv4" || e == "IPv6") ≡ true → is_some (valid_icmp_ranges e) ≡ true
unfolding valid_icmp_ranges
has_ranges e h = elim (Bool-cases (e == "IPv4")) [
  | inl v4 ↦ rw v4
  | inr v6 ↦ rw (v6, or_of_false _ _ h v6)
]

icmp_service-leaves_out :
    (rule : RuleFields)
    → IsWellFormed rule
    → leaves_out (icmp_service rule) ≡ some (is_invalid_icmp rule)
unfolding icmp_service
icmp_service-leaves_out rule w = ground (arith, has_ranges rule.ethertype w.ethertype)

rule_service-leaves_out :
    (rule : RuleFields)
    → IsWellFormed rule
    → leaves_out (rule_service rule) ≡ some (is_unsupported rule)
unfolding rule_service
rule_service-leaves_out rule w = elim (Option-cases rule.protocol) [
  | inl e ↦ rw e
  | inr (p, e) ↦ rw e (ground (arith, icmp_service-leaves_out rule w, named_service-leaves_out p))
]

build_rule-returns :
    (rule : RuleFields) (target : Option ResourceReference) (service : Option Service)
    → IsWellFormed rule
    → returned_none (and_then (build_rule rule target service) (λ r. ok (some r))) ≡ some false
unfolding build_rule
build_rule-returns rule target service w = ground arith

returned_none-part {ℓ κ} :
    {A : Type ℓ} {B : Type κ} (m : Result (Part A)) (f : A → Result (Option B)) {b c : Bool}
    → leaves_out m ≡ some b
    → ((a : A) → returned_none (f a) ≡ some c)
    → returned_none (and_then m (on_part f)) ≡ some (b || c)
returned_none-part (ok (go_on a)) f h k = ground (arith, k a)
returned_none-part (ok return_none) f h k = ground arith
returned_none-part (raise e) f h k = cc

-- On a well-formed rule whose prefix is a network the method never raises, and it returns None
-- exactly if the rule has no remote group and a prefix 0.0.0.0/n other than 0.0.0.0/0, or a
-- protocol that is unsupported: an ICMP type and code that the tables do not list, or a protocol
-- that is neither tcp, udp, a number nor a name in the table.
pub spec_dropped :
    (ip_network : String → Result String) (rule : RuleFields) (prefix : Option String)
    → IsWellFormed rule
    → network_of ip_network rule.remote_ip_prefix ≡ ok prefix
    → returned_none (get_security_group_rule_spec ip_network rule)
      ≡ some
          (not (truthy_text rule.remote_group_id) && is_zero_network prefix || is_unsupported rule)
unfolding get_security_group_rule_spec
spec_dropped ip_network rule prefix w h = rw h (
    returned_none-part (rule_target rule prefix) _ (rule_target-leaves_out rule prefix w) λ target.
      or_false_right _ (
        returned_none-part (rule_service rule) _ (rule_service-leaves_out rule w)
          λ service. build_rule-returns rule target service w))
