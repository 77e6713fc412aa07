-- ===== src/SecurityGroups/Update.antt =====
-- What an update of a group's rules sends, and when the group counts as up to date.
use mathlib.Core.List.{append-nil, append_assoc}
use networking_nsx_t.Base.{
  ℕ, ◌+◌, ◌≡◌, refl, String, Bool, true, false, not, ◌||◌, arith, some, List, [], ◌∷◌, ◌++◌, nat_eq,
  if◌then◌else◌, inl, inr, Bool-cases, all_of, ◌+++◌, length, keep,
}
use networking_nsx_t.Base.Exec.{Exception, ok, raise}
use networking_nsx_t.Firewall.Model.{FirewallRule}
use networking_nsx_t.SecurityGroups.Sections.{
  Section, IpSet, RulesApi, path_of, post_rules, delete_rules, tagged, update_security_group_rules,
}

abbrev pub is_created : ℕ → Bool
is_created status = nat_eq status 200

-- The number of rules that were created
abbrev pub created : List ℕ → ℕ
created statuses = length (keep is_created statuses)

module _ {ℓ} {W : Type ℓ} {Json : Type 0} (api : RulesApi W Json) (path : String)
    (revision : ℕ) where
  -- Posts before rules u after v: with the statuses `before` so far, the rules are posted in order,
  -- from the state u to v, and get the statuses `after`. Each is posted with the section's
  -- revision and the number of rules created before it.
  pub data Posts : List ℕ → List FirewallRule → W → List ℕ → W → Type ℓ where
    none_left : {before : List ℕ} (w : W) → Posts before [] w [] w
    post :
        {before after : List ℕ} {rules : List FirewallRule} {u v : W} (rule : FirewallRule)
        (status : ℕ) (u' : W)
        → api.post_rule path (api.body_of rule, revision + created before) u ≡ (ok status, u')
        → Posts (before ++ status ∷ []) rules u' after v
        → Posts before (rule ∷ rules) u (status ∷ after) v

  pub data Deletes : List String → W → W → Type ℓ where
    no_more : (w : W) → Deletes [] w w
    delete :
        {ids : List String} {u v : W} (rule_id : String) (u' : W)
        → api.delete_rule (path +++ "/" +++ rule_id) u ≡ (ok tt, u')
        → Deletes ids u' v
        → Deletes (rule_id ∷ ids) u v

  or_false : (b : Bool) → (b || false) ≡ b
  or_false b = ground arith

  or_true : (b : Bool) → (b || true) ≡ true
  or_true b = ground arith

  created-snoc :
      (before : List ℕ) (status : ℕ)
      → created (before ++ status ∷ [])
        ≡ (if is_created status then created before + 1 else created before)
  created-snoc [] status = ground arith
  created-snoc (s ∷ before) status = ground (arith, created-snoc before status)

  post_rules-Posts :
      (before : List ℕ) (rules : List FirewallRule) (u : W) (after : List ℕ) (v : W) (error : Bool)
      → Posts before rules u after v
      → post_rules api path rules (revision + created before) error u
        ≡ (ok (error || not (all_of is_created after)), v)
  unfolding post_rules
  post_rules-Posts before _ _ _ _ error (none_left w) = rw (or_false error)
  post_rules-Posts before _ _ _ v error
        (post {after = after} {rules = rules} rule status u' sent posts) =
      elim (Bool-cases (is_created status)) [
        | inl good ↦
            let n : revision + created before + 1 ≡ revision + created (before ++ status ∷ []) =
              omega (arith, (rw good at (created-snoc before status))) in
            rw (post_rules, sent, good, n)
              (post_rules-Posts (before ++ status ∷ []) rules u' after v error posts)
        | inr bad ↦
            let n : revision + created before ≡ revision + created (before ++ status ∷ []) =
              omega (arith, (rw bad at (created-snoc before status))) in
            rw (post_rules, sent, bad, n, or_true error)
              (post_rules-Posts (before ++ status ∷ []) rules u' after v true posts)
      ]

  delete_rules-Deletes :
      (ids : List String) (u v : W) → Deletes ids u v → delete_rules api path ids u ≡ (ok tt, v)
  unfolding delete_rules
  delete_rules-Deletes _ _ _ (no_more w) = refl
  delete_rules-Deletes _ _ v (delete {ids = ids} rule_id u' sent deletes) =
      rw (delete_rules, sent) (delete_rules-Deletes ids u' v deletes)

  -- A post that raises ends the loop, in the state that it leaves.
  post_rules-raise :
      (before : List ℕ) (rules : List FirewallRule) (u : W) (after : List ℕ) (v v' : W)
      (error : Bool) (rule : FirewallRule) (rest : List FirewallRule) (e : Exception)
      → Posts before rules u after v
      → api.post_rule path (api.body_of rule, revision + created (before ++ after)) v
        ≡ (raise e, v')
      → post_rules api path (rules ++ rule ∷ rest) (revision + created before) error u
        ≡ (raise e, v')
  unfolding post_rules
  post_rules-raise before _ _ _ _ v' error rule rest e (none_left w) raised =
      let sent : api.post_rule path (api.body_of rule, revision + created before) w
          ≡ (raise e, v') =
        rw (append-nil before) at raised in
      rw (post_rules, sent)
  post_rules-raise before _ _ _ v v' error rule rest e
        (post {after = after} {rules = rules} first status u' sent posts) raised =
      let last = rw (← append_assoc before (status ∷ []) after) at raised in
      elim (Bool-cases (is_created status)) [
        | inl good ↦
            let n : revision + created before + 1 ≡ revision + created (before ++ status ∷ []) =
              omega (arith, (rw good at (created-snoc before status))) in
            rw (post_rules, sent, good, n)
              (post_rules-raise (before ++ status ∷ []) rules u' after v v' error rule rest e posts
                last)
        | inr bad ↦
            let n : revision + created before ≡ revision + created (before ++ status ∷ []) =
              omega (arith, (rw bad at (created-snoc before status))) in
            rw (post_rules, sent, bad, n)
              (post_rules-raise (before ++ status ∷ []) rules u' after v v' true rule rest e posts
                last)
      ]

module _ {ℓ} {W : Type ℓ} {Json : Type 0} (api : RulesApi W Json) (security_group_id : String)
    (sec : Section) (revision_number : ℕ) where
  -- An update whose requests are all answered posts every rule once, in order, each with the
  -- section's revision and the number of rules created so far, then deletes every rule on the
  -- list, and last writes the IPSet: with the group's revision as its tag if every post was
  -- answered by 200, and as it was otherwise, so that the group stays out of date.
  pub update_security_group_rules-Posts :
      (adds : List FirewallRule) (dels : List String) (w w₁ w₂ w₃ w₄ : W) (statuses : List ℕ)
      (ips : IpSet)
      → api.get_section security_group_id w ≡ (ok (some sec), w₁)
      → Posts api (path_of api sec) sec.revision [] adds w₁ statuses w₂
      → Deletes api (path_of api sec) sec.revision dels w₂ w₃
      → api.get_ipset security_group_id w₃ ≡ (ok (some ips), w₄)
      → update_security_group_rules api security_group_id revision_number adds dels w
        ≡ api.update_ipset
            (if all_of is_created statuses then tagged api revision_number false ips else ips)
            w₄
  unfolding update_security_group_rules
  update_security_group_rules-Posts adds dels w w₁ w₂ w₃ w₄ statuses ips section posts deletes
        ipset =
      let start : sec.revision ≡ sec.revision + created [] = omega arith in
      let sent : post_rules api (path_of api sec) adds sec.revision false w₁
          ≡ (ok (not (all_of is_created statuses)), w₂) =
        rw (start) (
          post_rules-Posts api (path_of api sec) sec.revision [] adds w₁ statuses w₂ false posts) in
      rw
        (
          section,
          sent,
          delete_rules-Deletes api (path_of api sec) sec.revision dels w₂ w₃ deletes,
          ipset,
        )
        (elim (Bool-cases (all_of is_created statuses)) [ inl good ↦ rw good | inr bad ↦ rw bad ])

  -- An update in which a post raises ends there, in the state that this post leaves: nothing is
  -- deleted and the IPSet, which carries the group's revision, is not written.
  pub update_security_group_rules-raise :
      (before rest : List FirewallRule) (rule : FirewallRule) (dels : List String) (w w₁ w₂ w₃ : W)
      (statuses : List ℕ) (e : Exception)
      → api.get_section security_group_id w ≡ (ok (some sec), w₁)
      → Posts api (path_of api sec) sec.revision [] before w₁ statuses w₂
      → api.post_rule (path_of api sec) (api.body_of rule, sec.revision + created statuses) w₂
        ≡ (raise e, w₃)
      → update_security_group_rules api security_group_id revision_number
          (before ++ rule ∷ rest)
          dels
          w
        ≡ (raise e, w₃)
  unfolding update_security_group_rules
  update_security_group_rules-raise before rest rule dels w w₁ w₂ w₃ statuses e section posts
        raised =
      let start : sec.revision ≡ sec.revision + created [] = omega arith in
      let ends : post_rules api (path_of api sec) (before ++ rule ∷ rest) sec.revision false w₁
          ≡ (raise e, w₃) =
        rw (start) (
          post_rules-raise api (path_of api sec) sec.revision [] before w₁ statuses w₂ w₃ false rule
            rest e posts raised) in
      rw (section, ends)
