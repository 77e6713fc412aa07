-- ===== src/SecurityGroups/RuleUpdate.antt =====
-- The handler security_group_rule_updated of
-- networking_nsxv3/plugins/ml2/drivers/nsxv3/agent/nsxv3_agent.py as a whole. It holds the group's
-- lock while it runs.
use networking_nsx_t.Base.{ℕ, ◌≡◌, String, Bool, true, List}
use networking_nsx_t.Base.Dict.{Dict, values}
use networking_nsx_t.Base.Exec.{Result, ok, Exec, lift, ◌>>=◌}
use networking_nsx_t.Firewall.Model.{RuleFields, FirewallRule}
use networking_nsx_t.Firewall.Spec.{get_security_group_rule_spec}
use networking_nsx_t.SecurityGroups.{fwr_of, rule_changes}
use networking_nsx_t.SecurityGroups.Changes.{
  missing_rules, present_rules, specs_of, without, are_distinct, HasMetadata,
  rule_changes-partition,
}
use networking_nsx_t.SecurityGroups.Sections.{IpSet, RulesApi, update_security_group_rules}
use networking_nsx_t.SecurityGroups.Groups.{
  FirewallSection, GroupsApi, get_or_create_security_group,
}

-- The facada's `get_revisions` of the IPSets and of the rules of a section, and the questions to
-- Neutron
pub record HandlerApi {ℓ} (W : Type ℓ) (Json : Type 0) : Type ℓ where
  pub groups : GroupsApi W
  pub rules : RulesApi W Json
  pub get_ipset_ids : Exec W (Dict String)
  pub get_section_rules : String → Exec W (Dict String × Dict Bool)
  pub get_neutron_rules : String → Exec W (List RuleFields)
  pub get_security_group_revision : String → Exec W (String × ℕ)

module _ {ℓ} {W : Type ℓ} {Json : Type 0} (api : HandlerApi W Json)
    (ip_network : String → Result String) where
  unfoldable pub security_group_rule_updated : String → Exec W (Unit {0})
  security_group_rule_updated sg_id = get_or_create_security_group api.groups sg_id >>= λ group.
      api.get_ipset_ids >>= λ revs_ips. api.get_section_rules group.2.id >>= λ found.
      api.get_neutron_rules sg_id >>= λ neutron_rules.
      lift (rule_changes ip_network group.1 revs_ips found.0 found.1 neutron_rules) >>= λ changes.
      api.get_security_group_revision sg_id >>= λ revision.
      update_security_group_rules api.rules revision.0 revision.1 changes.0 changes.1

  -- The handler, if its questions are answered, Neutron's rules have distinct ids, the rules of the
  -- section have their metadata and the conversion of the rules to add raises nothing, updates the
  -- group's section with exactly these changes: it adds the specs of the rules that the section
  -- does not have or has disabled, deletes the rules of the section less those of Neutron that are
  -- there and enabled, and marks the group with the revision that Neutron has after that.
  pub security_group_rule_updated-changes :
      (sg_id nsg sg : String) (ipset : IpSet) (sec : FirewallSection)
      (revs_ips revs_fwr : Dict String) (meta_fwr : Dict Bool) (rules : List RuleFields)
      (specs : List FirewallRule) (revision : ℕ) (w w₁ w₂ w₃ w₄ w₅ : W)
      → get_or_create_security_group api.groups sg_id w ≡ (ok (ipset, nsg, sec), w₁)
      → api.get_ipset_ids w₁ ≡ (ok revs_ips, w₂)
      → api.get_section_rules sec.id w₂ ≡ (ok (revs_fwr, meta_fwr), w₃)
      → api.get_neutron_rules sg_id w₃ ≡ (ok rules, w₄)
      → are_distinct rules ≡ true
      → HasMetadata revs_fwr meta_fwr
      → specs_of
          (λ r. get_security_group_rule_spec ip_network (fwr_of nsg revs_ips r))
          (missing_rules revs_fwr meta_fwr rules)
        ≡ ok specs
      → api.get_security_group_revision sg_id w₄ ≡ (ok (sg, revision), w₅)
      → security_group_rule_updated sg_id w
        ≡ update_security_group_rules api.rules sg revision specs
            (values (without (present_rules revs_fwr meta_fwr rules) revs_fwr))
            w₅
  unfolding security_group_rule_updated
  security_group_rule_updated-changes sg_id nsg sg ipset sec revs_ips revs_fwr meta_fwr rules specs
        revision w w₁ w₂ w₃ w₄ w₅ group ids section neutron distinct metadata converted revised =
      rw (
        group,
        ids,
        section,
        neutron,
        (rule_changes-partition ip_network nsg revs_ips revs_fwr meta_fwr rules distinct
            metadata).0,
        converted,
        revised,
      )
