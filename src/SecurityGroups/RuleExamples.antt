-- ===== src/SecurityGroups/RuleExamples.antt =====
-- The whole handler on a group with a rule that is in place, one that is new and one that is left
-- over.
use networking_nsx_t.Base.{◌≡◌, refl, String, true, false, Bool, arith, none, some, List, [], ◌∷◌}
use networking_nsx_t.Base.Dict.{Dict, lookup, values}
use networking_nsx_t.Base.Exec.{ok}
use networking_nsx_t.Firewall.Model.{RuleFields, FirewallRule, action_allow}
use networking_nsx_t.Firewall.Spec.{
  reference, get_security_group_rule_spec, prefix_target, rule_target, rule_service, build_rule,
}
use networking_nsx_t.SecurityGroups.{fwr_of}
use networking_nsx_t.SecurityGroups.Bodies.{get_firewall_rule}
use networking_nsx_t.SecurityGroups.Changes.{
  HasMetadata, missing_rules, present_rules, specs_of, without,
}
use networking_nsx_t.SecurityGroups.Sections.{IpSet, RulesApi, update_security_group_rules}
use networking_nsx_t.SecurityGroups.Groups.{
  FirewallSection, GroupsApi, get_or_create_security_group,
}
use networking_nsx_t.SecurityGroups.RuleUpdate.{
  HandlerApi, security_group_rule_updated, security_group_rule_updated-changes,
}

-- The state is the list of the requests that change something.
abbrev Log : Type 0
Log = List String

abbrev ipset : IpSet
ipset = record { id = "ips"; ip_addresses = []; tags = [] }

abbrev section : FirewallSection
section = record { id = "sec"; display_name = "group"; tcp_strict = false }

abbrev groups : GroupsApi Log
groups = record {
  create_ipset = λ name w. (ok ipset, w);
  create_nsgroup = λ name w. (ok "nsg", w);
  create_section = λ name w. (ok section, w);
  delete_section = λ name w. (ok tt, w);
  delete_ipset = λ name w. (ok tt, w);
  delete_nsgroup = λ name w. (ok tt, w);
  get_ipset = λ name w. (ok (some ipset), w);
  update_ipset = λ ips w. (ok tt, w);
  get_section = λ name w. (ok (some section), w);
  update_section = λ sec w. (ok tt, w);
  has_security_group_tag = λ name tag w. (ok true, w);
  get_members_ips = λ name w. (ok [], w);
  get_address_bindings_ips = λ name w. (ok [], w);
  iter_cidrs = λ ips. ok ips;
}

abbrev rules_api : RulesApi Log String
rules_api = record {
  body_of = get_firewall_rule (λ s. []) (λ s. s);
  get_section = λ name w. (ok (some (record { id = "sec"; revision = 4 })), w);
  post_rule = λ path sent w. (ok 200, "post" ∷ w);
  delete_rule = λ path w. (ok tt, path ∷ w);
  get_ipset = λ name w. (ok (some ipset), w);
  update_ipset = λ ips w. (ok tt, "ipset" ∷ w);
}

abbrev any_rule : String → RuleFields
any_rule name = record {
  id = name;
  port_range_min = none;
  port_range_max = none;
  protocol = none;
  ethertype = "IPv4";
  direction = "ingress";
  remote_group_id = none;
  remote_ip_prefix = none;
  security_group_id = "group";
  apply_to = "";
}

abbrev neutron_rules : List RuleFields
neutron_rules = any_rule "kept" ∷ any_rule "new" ∷ []

abbrev revs_fwr : Dict String
revs_fwr = ("kept", "id1") ∷ ("old", "id2") ∷ []

abbrev meta_fwr : Dict Bool
meta_fwr = ("kept", false) ∷ ("old", false) ∷ []

abbrev api : HandlerApi Log String
api = record {
  groups = groups;
  rules = rules_api;
  get_ipset_ids = λ w. (ok [], w);
  get_section_rules = λ id w. (ok (revs_fwr, meta_fwr), w);
  get_neutron_rules = λ id w. (ok neutron_rules, w);
  get_security_group_revision = λ id w. (ok ("group", 9), w);
}

abbrev new_rule : FirewallRule
new_rule = record {
  action = action_allow;
  display_name = "new";
  direction = "IN";
  ip_protocol = "IPV4";
  sources = none;
  destinations = none;
  services = none;
  applied_tos = reference "NSGroup" "nsg" "group" ∷ [];
}

metadata : HasMetadata revs_fwr meta_fwr
unfolding lookup
metadata name has = ground arith

converted :
    specs_of
      (λ r. get_security_group_rule_spec ok (fwr_of "nsg" [] r))
      (missing_rules revs_fwr meta_fwr neutron_rules)
    ≡ ok (new_rule ∷ [])
unfolding lookup get_security_group_rule_spec prefix_target rule_target rule_service build_rule
converted = refl

security_group_rule_updated-changes_example :
    security_group_rule_updated api ok "group" []
    ≡ update_security_group_rules rules_api "group" 9
        (new_rule ∷ [])
        (values (without (present_rules revs_fwr meta_fwr neutron_rules) revs_fwr))
        []
unfolding get_or_create_security_group
security_group_rule_updated-changes_example =
    security_group_rule_updated-changes api ok "group" "nsg" "group" ipset section [] revs_fwr
      meta_fwr neutron_rules (new_rule ∷ []) 9 [] [] [] [] [] [] refl refl refl refl refl metadata
      converted refl
