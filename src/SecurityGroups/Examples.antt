-- ===== src/SecurityGroups/Examples.antt =====
-- A group with a rule that is in place, one that is new and one that is left over.
use networking_nsx_t.Base.{
  ℕ, ◌≡◌, refl, String, true, false, Bool, arith, none, some, List, [], ◌∷◌, ◌++◌, ◌==◌, any_of,
  if◌then◌else◌,
}
use networking_nsx_t.Base.Exec.{ok, raise, and_then, connection_error}
use networking_nsx_t.Base.Dict.{Dict, lookup, remove, values}
use networking_nsx_t.Firewall.Model.{RuleFields, FirewallRule, action_allow}
use networking_nsx_t.Firewall.Spec.{get_security_group_rule_spec}
use networking_nsx_t.SecurityGroups.{fwr_of, rule_changes}
use networking_nsx_t.SecurityGroups.Changes.{
  missing_rules, present_rules, specs_of, without, are_distinct, HasMetadata,
  rule_changes-partition,
}
use networking_nsx_t.SecurityGroups.Bodies.{get_firewall_rule}
use networking_nsx_t.SecurityGroups.Sections.{Section, IpSet, RulesApi, update_security_group_rules}
use networking_nsx_t.SecurityGroups.Update.{
  none_left, post, no_more, delete, update_security_group_rules-Posts,
}

abbrev any_rule : String → RuleFields
any_rule name = record {
  id = name;
  port_range_min = none;
  port_range_max = none;
  protocol = none;
  ethertype = "IPv4";
  direction = "ingress";
  remote_group_id = none;
  remote_ip_prefix = none;
  security_group_id = "group";
  apply_to = "";
}

abbrev rules : List RuleFields
rules = any_rule "kept" ∷ any_rule "new" ∷ []

abbrev revs_fwr : Dict String
revs_fwr = ("kept", "id1") ∷ ("old", "id2") ∷ []

abbrev meta_fwr : Dict Bool
meta_fwr = ("kept", false) ∷ ("old", false) ∷ []

rules-are_distinct : are_distinct rules ≡ true
rules-are_distinct = refl

rules-HasMetadata : HasMetadata revs_fwr meta_fwr
unfolding lookup
rules-HasMetadata name has = ground arith

rule_changes-partition_example :
    (rule_changes ok "nsg" [] revs_fwr meta_fwr rules
      ≡ and_then
          (specs_of
            (λ r. get_security_group_rule_spec ok (fwr_of "nsg" [] r))
            (missing_rules revs_fwr meta_fwr rules))
          (λ specs. ok (specs, values (without (present_rules revs_fwr meta_fwr rules) revs_fwr))))
    × ((name : String)
        → lookup name (without (present_rules revs_fwr meta_fwr rules) revs_fwr) ≡ (
            if any_of (λ r. r.id == name) (present_rules revs_fwr meta_fwr rules)
            then none
            else lookup name revs_fwr))
rule_changes-partition_example =
    rule_changes-partition ok "nsg" [] revs_fwr meta_fwr rules rules-are_distinct rules-HasMetadata

-- Test: the rule that is in place is on neither list.
left_over : values (without (present_rules revs_fwr meta_fwr rules) revs_fwr) ≡ "id2" ∷ []
unfolding lookup remove
left_over = refl

-- A server that refuses a rule by the name "bad" with the status 202, and has no connection for a
-- rule by the name "cut"
record Server : Type 0 where
  revisions : List ℕ
  deleted : List String
  written : List IpSet

abbrev server : List ℕ → List String → List IpSet → Server
server r d i = record { revisions = r; deleted = d; written = i }

abbrev section : Section
section = record { id = "sec"; revision = 4 }

abbrev ipset : IpSet
ipset = record { id = "ips"; ip_addresses = []; tags = [] }

abbrev api : RulesApi Server String
api = record {
  body_of = get_firewall_rule (λ s. []) (λ s. s);
  get_section = λ name w. (ok (some section), w);
  post_rule = λ path sent w. if sent.0.display_name == "cut" then (raise connection_error, w) else (
    ok (if sent.0.display_name == "bad" then 202 else 200),
    record w { revisions = w.revisions ++ sent.1 ∷ [] },
  );
  delete_rule = λ path w. (ok tt, record w { deleted = path ∷ w.deleted });
  get_ipset = λ name w. (ok (some ipset), w);
  update_ipset = λ ips w. (ok tt, record w { written = ips ∷ w.written });
}

abbrev rule : String → FirewallRule
rule name = record {
  action = action_allow;
  display_name = name;
  direction = "IN";
  ip_protocol = "IPV4";
  sources = none;
  destinations = none;
  services = none;
  applied_tos = [];
}

update_security_group_rules-Posts_example :
    update_security_group_rules api "group" 9
      (rule "a" ∷ rule "bad" ∷ rule "b" ∷ [])
      ("id2" ∷ [])
      (server [] [] [])
    ≡ api.update_ipset ipset
        (server (4 ∷ 5 ∷ 5 ∷ []) ("/api/v1/firewall/sections/sec/rules/id2" ∷ []) [])
unfolding get_firewall_rule
update_security_group_rules-Posts_example =
    update_security_group_rules-Posts api "group" section 9 (rule "a" ∷ rule "bad" ∷ rule "b" ∷ [])
      ("id2" ∷ []) (server [] [] []) (server [] [] []) (server (4 ∷ 5 ∷ 5 ∷ []) [] [])
      (server (4 ∷ 5 ∷ 5 ∷ []) ("/api/v1/firewall/sections/sec/rules/id2" ∷ []) [])
      (server (4 ∷ 5 ∷ 5 ∷ []) ("/api/v1/firewall/sections/sec/rules/id2" ∷ []) [])
      (200 ∷ 202 ∷ 200 ∷ []) ipset refl
      (post (rule "a") 200 (server (4 ∷ []) [] []) refl (
        post (rule "bad") 202 (server (4 ∷ 5 ∷ []) [] []) refl
          (post (rule "b") 200 (server (4 ∷ 5 ∷ 5 ∷ []) [] []) refl (none_left _))))
      (delete "id2" _ refl (no_more _)) refl
