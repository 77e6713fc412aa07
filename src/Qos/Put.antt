-- ===== src/Qos/Put.antt =====
-- The requests that an update of a policy sends.
use networking_nsx_t.Base.{
  ℕ, ◌≡◌, refl, ◌-◌, String, true, false, some, List, [], ◌∷◌, ◌++◌, map, all_of, ◌+++◌, str,
}
use networking_nsx_t.Base.Exec.{Result, ok, Exec, pure, continue}
use networking_nsx_t.Client.Policy.{Response, rest_policy}
use networking_nsx_t.Client.Retry.{Outcome, checked, IsSuccess, rest_policy-Outcome}
use networking_nsx_t.Qos.{
  QosRule, Shaping, QosSpec, Profile, QosApi, get_url, put, update_switch_profile_qos,
  create_switch_profile_qos, mark_rule, limit_rule, sync_qos,
}
use networking_nsx_t.Qos.Rates.{
  is_complete, last_match, limits_of, mark_of, unshaped, shaped, apply_rules-last_match,
}

-- The shaping that the rules of a policy ask for
abbrev pub asked : List QosRule → Shaping
asked rules =
    shaped unshaped (last_match (limits_of true) rules) (last_match (limits_of false) rules)
      (last_match mark_of rules)

abbrev pub spec_of : ℕ → List QosRule → Profile → QosSpec
spec_of revision_number rules qos = record {
  shaping = asked rules;
  tags = record { scope = "revision_number"; tag = str revision_number } ∷ [];
  profile = qos;
}

module _ {ℓ} {W : Type ℓ} (api : QosApi W) where
  -- The PUT request of a profile. Its URL has the base URL twice, and its body is the JSON text of a
  -- JSON text.
  abbrev pub request : QosSpec → Exec W Response
  request spec =
      api.session_put
        (api.base_url +++ api.base_url +++ "/api/v1/switching-profiles/" +++ spec.profile.id)
        (api.dumps_text (api.dumps spec))

  -- What comes out of a call that sends a profile's request in `w` and no other: attempts of it, as
  -- the policy allows, then the call ends as the last one does, with a status below 300 if it
  -- returns.
  pub record IsSent (spec : QosSpec) (w : W) (end : Result (Unit {0}) × W) : Type ℓ where
    pub answer : Result Response × W
    pub attempts :
        Outcome api.connection
          (checked api.connection (request spec))
          (api.connection.retry_count - 1)
          w
          answer
    pub success : IsSuccess api.connection (request spec) answer
    pub ends : end ≡ continue answer (λ resp. pure tt)

module _ {ℓ} {W : Type ℓ} (api : QosApi W) (policy_name : String) (revision_number : ℕ)
    (rules : List QosRule) where
  -- The update of a policy that NSX-T has, where each limit has a burst, sends the request with the
  -- shaping that the rules ask for and the new revision, under the retry policy.
  pub update_switch_profile_qos-put :
      (qos : Profile) (w w' : W)
      → all_of is_complete rules ≡ true
      → api.get_profile policy_name w ≡ (ok (some qos), w')
      → IsSent api
          (spec_of revision_number rules qos)
          w'
          (update_switch_profile_qos api policy_name revision_number rules w)
  unfolding update_switch_profile_qos put get_url rest_policy
  update_switch_profile_qos-put qos w w' complete found =
      let (o, low) =
        rest_policy-Outcome api.connection (request api (spec_of revision_number rules qos)) w' in
      record {
        answer = rest_policy api.connection (request api (spec_of revision_number rules qos)) w';
        attempts = o;
        success = low;
        ends = rw (apply_rules-last_match rules complete, found);
      }

limits-is_complete :
    (limits : List (String × ℕ × ℕ)) → all_of is_complete (map limit_rule limits) ≡ true
limits-is_complete [] = refl
limits-is_complete (row ∷ limits) = limits-is_complete limits

rules-is_complete :
    (marks : List ℕ) (limits : List (String × ℕ × ℕ))
    → all_of is_complete (map mark_rule marks ++ map limit_rule limits) ≡ true
rules-is_complete [] limits = limits-is_complete limits
rules-is_complete (mark ∷ marks) limits = rules-is_complete marks limits

module _ {ℓ} {W : Type ℓ} (api : QosApi W) (qos_id : String) (revision : ℕ) (marks : List ℕ)
    (limits : List (String × ℕ × ℕ)) where
  -- The synchronization of a policy that NSX-T has after the attempt to create it, even if that
  -- attempt raises, sends the request with the limits and marks of Neutron's rows, of which the last
  -- one for each direction and the last mark count.
  pub sync_qos-put :
      (r : Result (Unit {0})) (qos : Profile) (w w₁ w₂ : W)
      → create_switch_profile_qos api qos_id revision w ≡ (r, w₁)
      → api.get_profile qos_id w₁ ≡ (ok (some qos), w₂)
      → IsSent api
          (spec_of revision (map mark_rule marks ++ map limit_rule limits) qos)
          w₂
          (sync_qos api qos_id revision marks limits w)
  unfolding sync_qos
  sync_qos-put r qos w w₁ w₂ tried found = rw tried (
      update_switch_profile_qos-put api qos_id revision
        (map mark_rule marks ++ map limit_rule limits) qos w₁ w₂ (rules-is_complete marks limits)
        found)
