-- ===== src/SecurityGroups/Changes.antt =====
-- Which rules of a security group are added and which are deleted, against a description that
-- looks at each rule by itself.
use networking_nsx_t.Base.{
  ◌≡◌, refl, ◌∙◌, String, Bool, true, false, not, ◌&&◌, Option, none, some, List, [], ◌∷◌, ◌==◌,
  if◌then◌else◌, inl, inr, arith, keep, all_of, any_of, Bool-cases, Option-cases,
}
use networking_nsx_t.Base.Exec.{Result, ok, raise, and_then}
use networking_nsx_t.Base.Dict.{Dict, lookup, remove, has_key, values, lookup-remove}
use networking_nsx_t.Firewall.Model.{RuleFields, FirewallRule}
use networking_nsx_t.Firewall.Spec.{get_security_group_rule_spec}
use networking_nsx_t.SecurityGroups.{fwr_of, is_kept, push_spec, collect, rule_changes}

abbrev pub is_enabled : Option Bool → Bool
is_enabled none = false
is_enabled (some disabled) = not disabled

-- A rule that NSX-T has and that nobody disabled
abbrev pub is_present : Dict String → Dict Bool → String → Bool
is_present revs_fwr meta_fwr name = has_key name revs_fwr && is_enabled (lookup name meta_fwr)

abbrev pub missing_rules : Dict String → Dict Bool → List RuleFields → List RuleFields
missing_rules revs_fwr meta_fwr rules = keep (λ r. not (is_present revs_fwr meta_fwr r.id)) rules

abbrev pub present_rules : Dict String → Dict Bool → List RuleFields → List RuleFields
present_rules revs_fwr meta_fwr rules = keep (λ r. is_present revs_fwr meta_fwr r.id) rules

-- The specs of a list of rules, in order; a rule with no spec is left out.
abbrev pub specs_of :
    (RuleFields → Result (Option FirewallRule)) → List RuleFields → Result (List FirewallRule)
specs_of spec [] = ok []
specs_of spec (rule ∷ rules) =
    and_then (spec rule) λ s. and_then (specs_of spec rules) λ specs. ok (push_spec s specs)

-- A dict less the rules of a list
abbrev pub without : List RuleFields → Dict String → Dict String
without [] d = d
without (rule ∷ rules) d = without rules (remove rule.id d)

-- No two rules have one id.
abbrev pub are_distinct : List RuleFields → Bool
are_distinct [] = true
are_distinct (rule ∷ rules) = all_of (λ r. not (rule.id == r.id)) rules && are_distinct rules

-- Every rule that NSX-T has comes with its metadata, as get_revisions returns them.
abbrev pub HasMetadata : Dict String → Dict Bool → Type 0
HasMetadata revs_fwr meta_fwr =
    (name : String) → has_key name revs_fwr ≡ true → has_key name meta_fwr ≡ true

is_kept-is_present :
    (revs_fwr : Dict String) (meta_fwr : Dict Bool) (name : String)
    → HasMetadata revs_fwr meta_fwr
    → is_kept revs_fwr meta_fwr name ≡ ok (is_present revs_fwr meta_fwr name)
unfolding is_kept
is_kept-is_present revs_fwr meta_fwr name h = elim (Bool-cases (has_key name revs_fwr)) [
  | inl there ↦ elim (Option-cases (lookup name meta_fwr)) [
    | inl e ↦ let m = h name there in absurd (ground (arith, e, m))
    | inr (d, e) ↦ rw (there, e)
  ]
  | inr away ↦ rw away
]

remove-HasMetadata :
    (k : String) (revs_fwr : Dict String) (meta_fwr : Dict Bool)
    → HasMetadata revs_fwr meta_fwr
    → HasMetadata (remove k revs_fwr) meta_fwr
remove-HasMetadata k revs_fwr meta_fwr h name has =
    h name (ground (arith, lookup-remove k name revs_fwr))

present-remove :
    (k : String) (revs_fwr : Dict String) (meta_fwr : Dict Bool) (name : String)
    → (k == name) ≡ false
    → is_present (remove k revs_fwr) meta_fwr name ≡ is_present revs_fwr meta_fwr name
present-remove k revs_fwr meta_fwr name other = rw (lookup-remove k name revs_fwr, other)

missing_rules-remove :
    (k : String) (revs_fwr : Dict String) (meta_fwr : Dict Bool) (rules : List RuleFields)
    → all_of (λ r. not (k == r.id)) rules ≡ true
    → (missing_rules (remove k revs_fwr) meta_fwr rules ≡ missing_rules revs_fwr meta_fwr rules)
      × (present_rules (remove k revs_fwr) meta_fwr rules ≡ present_rules revs_fwr meta_fwr rules)
missing_rules-remove k revs_fwr meta_fwr [] h = (refl, refl)
missing_rules-remove k revs_fwr meta_fwr (rule ∷ rules) h =
    let (e, f) = missing_rules-remove k revs_fwr meta_fwr rules (ground arith) in
    let same = present-remove k revs_fwr meta_fwr rule.id (ground arith) in
    (rw (same, e), rw (same, f))

-- The pair that `collect` returns
abbrev Changes : Type 0
Changes = List FirewallRule × Dict String

abbrev leaving : Dict String → List FirewallRule → Result Changes
leaving d specs = ok (specs, d)

abbrev pushed : Option FirewallRule → Changes → Result Changes
pushed s r = ok (push_spec s r.0, r.1)

push_after :
    (s : Result (Option FirewallRule)) (specs : Result (List FirewallRule)) (d : Dict String)
    → and_then s (λ o. and_then (and_then specs (leaving d)) (pushed o))
      ≡ and_then (and_then s (λ o. and_then specs (λ l. ok (push_spec o l)))) (leaving d)
push_after (raise e) specs d = refl
push_after (ok o) (raise e) d = refl
push_after (ok o) (ok l) d = refl

collect-without :
    (spec : RuleFields → Result (Option FirewallRule)) (meta_fwr : Dict Bool)
    (rules : List RuleFields) (revs_fwr : Dict String)
    → are_distinct rules ≡ true
    → HasMetadata revs_fwr meta_fwr
    → collect spec meta_fwr rules revs_fwr
      ≡ and_then
          (specs_of spec (missing_rules revs_fwr meta_fwr rules))
          (λ specs. ok (specs, without (present_rules revs_fwr meta_fwr rules) revs_fwr))
unfolding collect
collect-without spec meta_fwr [] revs_fwr u h = refl
collect-without spec meta_fwr (rule ∷ rules) revs_fwr u h =
    elim (Bool-cases (is_present revs_fwr meta_fwr rule.id)) [
      | inl here ↦
          let (e, f) = missing_rules-remove rule.id revs_fwr meta_fwr rules (ground arith) in
          rw (is_kept-is_present revs_fwr meta_fwr rule.id h, here, ← e, ← f)
            (collect-without spec meta_fwr rules (remove rule.id revs_fwr) (ground arith)
              (remove-HasMetadata rule.id revs_fwr meta_fwr h))
      | inr gone ↦
          rw
            (
              is_kept-is_present revs_fwr meta_fwr rule.id h,
              gone,
              collect-without spec meta_fwr rules revs_fwr (ground arith) h,
            )
            (push_after (spec rule) _ _)
    ]

abbrev with_values : Changes → Result (List FirewallRule × List String)
with_values r = ok (r.0, values r.1)

values_after :
    (specs : Result (List FirewallRule)) (d : Dict String)
    → and_then (and_then specs (leaving d)) with_values ≡ and_then specs (λ l. with_values (l, d))
values_after (ok l) d = refl
values_after (raise e) d = refl

lookup-without :
    (name : String) (rules : List RuleFields) (d : Dict String)
    → lookup name (without rules d)
      ≡ (if any_of (λ r. r.id == name) rules then none else lookup name d)
lookup-without name [] d = refl
lookup-without name (rule ∷ rules) d =
    lookup-without name rules (remove rule.id d) ∙ ground (arith, lookup-remove rule.id name d)

-- What an update of a group's rules adds and deletes, for Neutron's rules with distinct ids and
-- NSX-T's rules with their metadata. The rules to add are the specs, in order, of exactly the rules
-- that NSX-T does not have or has disabled, and an exception of one of them ends the update before
-- a change. The ids to delete are those of NSX-T's rules less the rules of Neutron that are there
-- and enabled: a rule by a name stays on the list exactly if no such rule has the name.
pub rule_changes-partition :
    (ip_network : String → Result String) (nsg_id : String) (revs_ips revs_fwr : Dict String)
    (meta_fwr : Dict Bool) (rules : List RuleFields)
    → are_distinct rules ≡ true
    → HasMetadata revs_fwr meta_fwr
    → (rule_changes ip_network nsg_id revs_ips revs_fwr meta_fwr rules
        ≡ and_then
            (specs_of
              (λ r. get_security_group_rule_spec ip_network (fwr_of nsg_id revs_ips r))
              (missing_rules revs_fwr meta_fwr rules))
            (λ specs.
              ok (specs, values (without (present_rules revs_fwr meta_fwr rules) revs_fwr))))
      × ((name : String)
          → lookup name (without (present_rules revs_fwr meta_fwr rules) revs_fwr) ≡ (
              if any_of (λ r. r.id == name) (present_rules revs_fwr meta_fwr rules)
              then none
              else lookup name revs_fwr))
unfolding rule_changes
rule_changes-partition ip_network nsg_id revs_ips revs_fwr meta_fwr rules u h =
    let spec : RuleFields → _ =
      λ r. get_security_group_rule_spec ip_network (fwr_of nsg_id revs_ips r) in
    (
      rw (collect-without spec meta_fwr rules revs_fwr u h)
          (values_after (specs_of spec (missing_rules revs_fwr meta_fwr rules)) _),
      λ name. lookup-without name (present_rules revs_fwr meta_fwr rules) revs_fwr,
    )
