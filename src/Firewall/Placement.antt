-- ===== src/Firewall/Placement.antt =====
-- Where a Neutron rule's parts stand in the NSX-T rule.
use networking_nsx_t.Base.{
  String, ◌≡◌, ◌⊎◌, Option, none, some, [], ◌∷◌, eq_iff, arith, true, false, ◌==◌, is_substring,
  Bool-cases, refl, inl, inr,
}
use networking_nsx_t.Base.Exec.{Exception, key_error, Result, ok, from_option}
use networking_nsx_t.Firewall.Model.{RuleFields, ResourceReference, Service, FirewallRule}
use networking_nsx_t.Firewall.Spec.{
  directions, protocols, rule_of, go_on, singleton_or_none, reference, rule_target, network_of,
  build_rule, get_security_group_rule_spec,
}
use networking_nsx_t.Firewall.Parts.{and_then-eq-ok, spec-BuiltFrom}

-- The peers stand on the remote side of the rule's direction, and the other side is ANY.
abbrev pub IsPlaced : RuleFields → Option ResourceReference → FirewallRule → Type 0
IsPlaced rule target r =
    ((rule.direction ≡ "ingress")
      × (r.direction ≡ "IN")
      × (r.sources ≡ singleton_or_none target)
      × (r.destinations ≡ none))
    ⊎ ((rule.direction ≡ "egress")
        × (r.direction ≡ "OUT")
        × (r.sources ≡ none)
        × (r.destinations ≡ singleton_or_none target))

inbound : (d : String) → d ≡ "ingress" → is_substring d "ingress" ≡ true
inbound d e = rw e refl

outbound : (d : String) → d ≡ "egress" → is_substring d "ingress" ≡ false
outbound d e = rw e refl

directions-cases :
    (d : String) {out : String}
    → directions d ≡ some out
    → ((d ≡ "ingress") × (out ≡ "IN") × (is_substring d "ingress" ≡ true))
      ⊎ ((d ≡ "egress") × (out ≡ "OUT") × (is_substring d "ingress" ≡ false))
directions-cases d h = elim (Bool-cases (d == "ingress")) [
  | inl yes_in ↦
      inl ((eq_iff d "ingress").0 yes_in, ground arith, inbound d ((eq_iff d "ingress").0 yes_in))
  | inr not_in ↦ elim (Bool-cases (d == "egress")) [
    | inl yes_out ↦
        inr
          ((eq_iff d "egress").0 yes_out, ground arith, outbound d ((eq_iff d "egress").0 yes_out))
    | inr not_out ↦ absurd (ground arith)
  ]
]

from_option-eq-ok :
    {A : Type 0} (e : Exception) (o : Option A) {a : A} → from_option e o ≡ ok a → o ≡ some a
from_option-eq-ok e none h = cc
from_option-eq-ok e (some a) h = cc

rule_of-IsPlaced :
    (rule : RuleFields) (target : Option ResourceReference) (service : Option Service)
    (direction ip_protocol : String)
    → directions rule.direction ≡ some direction
    → IsPlaced rule target (rule_of rule target service direction ip_protocol)
rule_of-IsPlaced rule target service direction ip_protocol h =
    elim (directions-cases rule.direction h) [
      | inl (e, out, test) ↦ inl (e, out, rw test, rw test)
      | inr (e, out, test) ↦ inr (e, out, rw test, rw test)
    ]

pub build_rule-IsPlaced :
    (rule : RuleFields) (target : Option ResourceReference) (service : Option Service)
    {r : FirewallRule}
    → build_rule rule target service ≡ ok r
    → IsPlaced rule target r
      × (r.display_name ≡ rule.id)
      × (r.applied_tos ≡ reference "NSGroup" rule.apply_to rule.security_group_id ∷ [])
      × (r.services ≡ singleton_or_none service)
unfolding build_rule
build_rule-IsPlaced rule target service {r} h =
    let (d, is_d, h₁) = and_then-eq-ok (from_option key_error (directions rule.direction)) _ h in
    let (p, is_p, h₂) = and_then-eq-ok (from_option key_error (protocols rule.ethertype)) _ h₁ in
    let e : rule_of rule target service d p ≡ r = cc in
    rw (← e)
      (rule_of-IsPlaced rule target service d p (from_option-eq-ok _ _ is_d), refl, refl, refl)

-- A rule that is built allows traffic of the Neutron rule's direction only, from or to the target
-- that the prefix and the group determine, with any peer on the other side; it has the Neutron
-- rule's id for its name and is applied to the NS group of its security group alone.
pub spec_placement :
    (ip_network : String → Result String) (rule : RuleFields) (r : FirewallRule)
    → get_security_group_rule_spec ip_network rule ≡ ok (some r)
    → (target : Option ResourceReference) × (prefix : Option String) × (network_of ip_network
          rule.remote_ip_prefix
        ≡ ok prefix)
      × (rule_target rule prefix ≡ ok (go_on target))
      × IsPlaced rule target r
      × (r.display_name ≡ rule.id)
      × (r.applied_tos ≡ reference "NSGroup" rule.apply_to rule.security_group_id ∷ [])
spec_placement ip_network rule r h =
    let b = spec-BuiltFrom ip_network rule r h in
    let (placed, named, applied, _) = build_rule-IsPlaced rule b.target b.service b.built in
    (b.target, b.prefix, b.normalised, b.targeted, placed, named, applied)
