-- ===== src/Firewall/Parts.antt =====
-- What a built rule was built from: the parts of get_security_group_rule_spec, recovered from
-- its result.
use networking_nsx_t.Base.{String, ◌≡◌, refl, Option, some}
use networking_nsx_t.Base.Exec.{Result, ok, raise, and_then}
use networking_nsx_t.Firewall.Model.{RuleFields, ResourceReference, Service, FirewallRule}
use networking_nsx_t.Firewall.Spec.{
  Part, go_on, return_none, on_part, network_of, rule_target, rule_service, build_rule,
  get_security_group_rule_spec,
}

pub and_then-eq-ok {ℓ κ} :
    {A : Type ℓ} {B : Type κ} (m : Result A) (f : A → Result B) {b : B}
    → and_then m f ≡ ok b
    → (a : A) × (m ≡ ok a) × (f a ≡ ok b)
and_then-eq-ok (ok a) f h = (a, refl, h)
and_then-eq-ok (raise e) f h = cc

on_part-eq-some {ℓ κ} :
    {A : Type ℓ} {B : Type κ} (p : Part A) (f : A → Result (Option B)) {b : B}
    → on_part f p ≡ ok (some b)
    → (a : A) × (p ≡ go_on a) × (f a ≡ ok (some b))
on_part-eq-some (go_on a) f h = (a, refl, h)
on_part-eq-some return_none f h = cc

pub record BuiltFrom (ip_network : String → Result String) (rule : RuleFields) (r : FirewallRule)
    : Type 0 where
  pub prefix : Option String
  pub target : Option ResourceReference
  pub service : Option Service
  pub normalised : network_of ip_network rule.remote_ip_prefix ≡ ok prefix
  pub targeted : rule_target rule prefix ≡ ok (go_on target)
  pub served : rule_service rule ≡ ok (go_on service)
  pub built : build_rule rule target service ≡ ok r

pub spec-BuiltFrom :
    (ip_network : String → Result String) (rule : RuleFields) (r : FirewallRule)
    → get_security_group_rule_spec ip_network rule ≡ ok (some r)
    → BuiltFrom ip_network rule r
unfolding get_security_group_rule_spec
spec-BuiltFrom ip_network rule r h =
    let (prefix, normalised, h₁) =
      and_then-eq-ok (network_of ip_network rule.remote_ip_prefix) _ h in
    let (p, targeted, h₂) = and_then-eq-ok (rule_target rule prefix) _ h₁ in
    let (target, is_target, h₃) = on_part-eq-some p _ h₂ in
    let (q, served, h₄) = and_then-eq-ok (rule_service rule) _ h₃ in
    let (service, is_service, h₅) = on_part-eq-some q _ h₄ in
    let (r', built, h₆) = and_then-eq-ok (build_rule rule target service) _ h₅ in
    record {
      prefix = prefix;
      target = target;
      service = service;
      normalised = normalised;
      targeted = cc;
      served = cc;
      built = cc;
    }
