-- ===== src/Firewall/Services.antt =====
-- The services that rules are built with: ICMP types and codes, and protocol numbers.
use networking_nsx_t.Base.{
  ℕ, zero, suc, String, ◌≡◌, refl, Bool, true, false, not, ◌&&◌, ◌||◌, Option, none, some, List, [],
  ◌∷◌, ◌==◌, nat_eq, arith, Bool-cases, Option-cases, str, is_digits, int_of, inl, inr,
  if◌then◌else◌, all_of, nat_elem,
}
use networking_nsx_t.Base.Exec.{key_error, from_option, Result, ok}
use networking_nsx_t.Base.Dict.{lookup, all_of-lookup}
use networking_nsx_t.Firewall.Tables.{IcmpRanges, ip_protocol_numbers, valid_icmp_ranges}
use networking_nsx_t.Firewall.Placement.{build_rule-IsPlaced}
use networking_nsx_t.Firewall.Parts.{and_then-eq-ok, spec-BuiltFrom}
use networking_nsx_t.Firewall.Model.{
  RuleFields, IcmpProtocol, Service, FirewallRule, icmp_type_service,
}
use networking_nsx_t.Firewall.Spec.{
  go_on, rule_target, is_valid_icmp, icmp_service, named_service, codes_of, str_or_none,
  icmp_protocols, rule_service, build_rule, get_security_group_rule_spec,
}

-- What the branches of the method see of a name in the table and of its number as a text
abbrev agrees : String × ℕ → Bool
agrees e =
    not (is_digits e.0)
    && not (e.0 == "")
    && is_digits (str e.1)
    && nat_eq (int_of (str e.1)) e.1
    && not (str e.1 == "icmp" || str e.1 == "tcp" || str e.1 == "udp")

table_agrees : all_of agrees ip_protocol_numbers ≡ true
unfolding ip_protocol_numbers str int_of is_digits
table_agrees = refl

named_service-number :
    (p : String) (n : ℕ)
    → lookup p ip_protocol_numbers ≡ some n
    → named_service p ≡ named_service (str n)
unfolding named_service
named_service-number p n h =
    ground (arith, all_of-lookup agrees p n ip_protocol_numbers table_agrees h)

-- The rule with another protocol
abbrev pub with_protocol : String → RuleFields → RuleFields
with_protocol p rule = record rule { protocol = some p }

abbrev pub has_own_branch : String → Bool
has_own_branch p = p == "icmp" || p == "tcp" || p == "udp"

rule_service-number :
    (rule : RuleFields) (p : String) (n : ℕ)
    → lookup p ip_protocol_numbers ≡ some n
    → has_own_branch p ≡ false
    → rule_service (with_protocol p rule) ≡ rule_service (with_protocol (str n) rule)
unfolding rule_service
rule_service-number rule p n h other =
    ground (
      arith,
      named_service-number p n h,
      all_of-lookup agrees p n ip_protocol_numbers table_agrees h,
    )

-- A protocol that is named in the table, other than icmp, tcp and udp, gives the rule that its
-- number gives.
pub spec-protocol_number :
    (ip_network : String → Result String) (rule : RuleFields) (p : String) (n : ℕ)
    → lookup p ip_protocol_numbers ≡ some n
    → has_own_branch p ≡ false
    → get_security_group_rule_spec ip_network (with_protocol p rule)
      ≡ get_security_group_rule_spec ip_network (with_protocol (str n) rule)
unfolding get_security_group_rule_spec rule_target build_rule
spec-protocol_number ip_network rule p n h other = rw (rule_service-number rule p n h other) refl

abbrev pub nonzero : ℕ → Option String
nonzero n = if nat_eq n 0 then none else some (str n)

-- The type and the code are on the list that the tables have for the rule's ethertype.
pub record IsListedIcmp (rule : RuleFields) (type code : ℕ) : Type 0 where
  pub ranges : IcmpRanges
  pub codes : List ℕ
  pub min : rule.port_range_min ≡ some type
  pub max : rule.port_range_max ≡ some code
  pub has_ranges : valid_icmp_ranges rule.ethertype ≡ some ranges
  pub has_codes : codes_of type ranges ≡ some codes
  pub listed : nat_elem code codes ≡ true

valid_icmp-cases :
    (ranges : IcmpRanges) (min max : Option ℕ)
    → is_valid_icmp ranges min max ≡ true
    → (t : ℕ) × (c : ℕ) × (codes : List ℕ) × (min ≡ some t)
      × (max ≡ some c)
      × (codes_of t ranges ≡ some codes)
      × (nat_elem c codes ≡ true)
unfolding is_valid_icmp
valid_icmp-cases ranges none max h = cc
valid_icmp-cases ranges (some t) none h = cc
valid_icmp-cases ranges (some t) (some c) h = elim (Option-cases (codes_of t ranges)) [
  | inl e ↦ absurd (ground arith)
  | inr (codes, e) ↦ (t, c, codes, refl, refl, e, ground arith)
]

str_or_none-some : (m : Option ℕ) (n : ℕ) → m ≡ some n → str_or_none m ≡ nonzero n
str_or_none-some m zero h = rw h
str_or_none-some m (suc n) h = rw h (ground arith)

module _ (rule : RuleFields) where
  abbrev IcmpServed : Option Service → Type 0
  IcmpServed service =
      (type : ℕ) × (code : ℕ) × (p : IcmpProtocol) × IsListedIcmp rule type code
      × (service ≡ some (icmp_type_service (nonzero type) (nonzero code) p))

  icmp_served :
      (ranges : IcmpRanges) {service : Option Service}
      → valid_icmp_ranges rule.ethertype ≡ some ranges
      → is_valid_icmp ranges rule.port_range_min rule.port_range_max ≡ true
      → icmp_service rule ≡ ok (go_on service)
      → IcmpServed service
  unfolding icmp_service
  icmp_served ranges {service} e valid h =
      let (t, c, codes, min, max, has, listed) = valid_icmp-cases ranges _ _ valid in
      let h' : _ = rw (e, valid) at h in
      let (p, _, built) =
        and_then-eq-ok (from_option key_error (icmp_protocols rule.ethertype)) _ h' in
      (
        t,
        c,
        p,
        record {
          ranges = ranges;
          codes = codes;
          min = min;
          max = max;
          has_ranges = e;
          has_codes = has;
          listed = listed;
        },
        cc (str_or_none-some _ _ min, str_or_none-some _ _ max, built),
      )

  icmp_raises :
      {service : Option Service}
      → valid_icmp_ranges rule.ethertype ≡ none
      → icmp_service rule ≡ ok (go_on service)
      → ⊥
  unfolding icmp_service
  icmp_raises e h = ground arith

  icmp_left_out :
      {service : Option Service} (ranges : IcmpRanges)
      → valid_icmp_ranges rule.ethertype ≡ some ranges
      → is_valid_icmp ranges rule.port_range_min rule.port_range_max ≡ false
      → icmp_service rule ≡ ok (go_on service)
      → ⊥
  unfolding icmp_service
  icmp_left_out ranges e v h = ground arith

  icmp_service-IcmpServed :
      {service : Option Service} → icmp_service rule ≡ ok (go_on service) → IcmpServed service
  icmp_service-IcmpServed h = elim (Option-cases (valid_icmp_ranges rule.ethertype)) [
    | inl e ↦ absurd (icmp_raises e h)
    | inr (ranges, e) ↦
        elim (Bool-cases (is_valid_icmp ranges rule.port_range_min rule.port_range_max)) [
          | inl valid ↦ icmp_served ranges e valid h
          | inr invalid ↦ absurd (icmp_left_out ranges e invalid h)
        ]
  ]

rule_service-icmp :
    (rule : RuleFields) → rule.protocol ≡ some "icmp" → rule_service rule ≡ icmp_service rule
unfolding rule_service
rule_service-icmp rule h = rw h

-- An ICMP rule is built only for a type and a code that the tables list for its ethertype. The
-- service has them as texts, but a type or a code that is 0 is None there, which matches any.
pub spec_icmp :
    (ip_network : String → Result String) (rule : RuleFields) (r : FirewallRule)
    → rule.protocol ≡ some "icmp"
    → get_security_group_rule_spec ip_network rule ≡ ok (some r)
    → (type : ℕ) × (code : ℕ) × (p : IcmpProtocol) × IsListedIcmp rule type code
      × (r.services ≡ some (icmp_type_service (nonzero type) (nonzero code) p ∷ []))
spec_icmp ip_network rule r icmp h =
    let b = spec-BuiltFrom ip_network rule r h in
    let (_, _, _, services) = build_rule-IsPlaced rule b.target b.service b.built in
    let (t, c, p, listed, served) =
      icmp_service-IcmpServed rule (rw (rule_service-icmp rule icmp) at b.served) in
    (t, c, p, listed, rw served at services)
