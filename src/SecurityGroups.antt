-- ===== src/SecurityGroups.antt =====
-- The rules of a security group: security_group_rule_updated of
-- networking_nsxv3/plugins/ml2/drivers/nsxv3/agent/nsxv3_agent.py and update_security_group_rules
-- of nsxv3_facada.py beside it.
pub mod Changes
pub mod Bodies
pub mod Sections
pub mod Update
pub mod Groups
pub mod Handlers
pub mod RuleUpdate
mod Converging
mod Examples
mod GroupExamples
mod RuleExamples
use networking_nsx_t.Base.{
  ℕ, ◌+◌, String, Bool, true, false, not, ◌&&◌, ◌||◌, Option, none, some, List, [], ◌∷◌, map, ◌==◌,
  nat_eq, if◌then◌else◌, is_some,
}
use networking_nsx_t.Base.Exec.{Result, ok, raise, and_then, from_option, attribute_error}
use networking_nsx_t.Base.Dict.{Dict, lookup, remove, has_key, values}
use networking_nsx_t.Firewall.Model.{RuleFields, FirewallRule}
use networking_nsx_t.Firewall.Spec.{get_security_group_rule_spec}

-- The entries of `fwr` that the agent writes over those of Neutron's rule. `nsg_id` is the id of
-- the NSGroup; the entry `local_group_id` is read by nobody.
abbrev pub fwr_of : String → Dict String → RuleFields → RuleFields
fwr_of nsg_id revs_ips rule = record rule {
  apply_to = nsg_id;
  remote_group_id = elim rule.remote_group_id [
    | none ↦ none
    | some g ↦ elim (lookup g revs_ips) [ none ↦ some g | some id ↦ some id ]
  ];
}

-- `if name in revs_fwr: if not meta_fwr.get(name).get(…)`: the rule is in NSX-T and not disabled.
-- `meta_fwr.get(name)` of a missing name is None, which has no `get`.
unfoldable pub is_kept : Dict String → Dict Bool → String → Result Bool
is_kept revs_fwr meta_fwr name =
    if has_key name revs_fwr
    then and_then (from_option attribute_error (lookup name meta_fwr))
        (λ disabled. ok (not disabled))
    else ok false

abbrev pub push_spec : Option FirewallRule → List FirewallRule → List FirewallRule
push_spec none specs = specs
push_spec (some spec) specs = spec ∷ specs

-- The loop over Neutron's rules: the rules to add, and what is left of `revs_fwr`.
unfoldable pub collect :
    (RuleFields → Result (Option FirewallRule))
    → Dict Bool
    → List RuleFields
    → Dict String
    → Result (List FirewallRule × Dict String)
unfolding is_kept
collect spec meta_fwr [] revs_fwr = ok ([], revs_fwr)
collect spec meta_fwr (rule ∷ rules) revs_fwr = and_then (is_kept revs_fwr meta_fwr rule.id) λ kept.
    if kept
    then collect spec meta_fwr rules (remove rule.id revs_fwr)
    else and_then (spec rule)
        λ s. and_then (collect spec meta_fwr rules revs_fwr) λ r. ok (push_spec s r.0, r.1)

-- `add_rules` and `del_rules`
unfoldable pub rule_changes :
    (String → Result String)
    → String
    → Dict String
    → Dict String
    → Dict Bool
    → List RuleFields
    → Result (List FirewallRule × List String)
unfolding collect
rule_changes ip_network nsg_id revs_ips revs_fwr meta_fwr neutron_rules =
    and_then
      (collect (λ rule. get_security_group_rule_spec ip_network (fwr_of nsg_id revs_ips rule))
        meta_fwr neutron_rules revs_fwr)
      λ r. ok (r.0, values r.1)
