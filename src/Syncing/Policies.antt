-- ===== src/Syncing/Policies.antt =====
-- The synchronization of a policy, from the tables of Neutron to the requests to NSX-T.
use networking_nsx_t.Base.{
  ℕ, String, some, List, [], ◌∷◌, ◌++◌, map, keep, ◌==◌, nat_eq, str, none, refl, ◌≡◌,
}
use networking_nsx_t.Base.Exec.{Result, ok}
use networking_nsx_t.Database.{
  Database, StandardAttribute, QosPolicy, join, join_row, one_or_none, _validate_one,
  QosBandwidthLimitRule, QosDscpMarkingRule,
}
use networking_nsx_t.Database.Queries.{
  get_qos as select_qos, get_qos_bwl_rules as select_qos_bwl_rules,
  get_qos_dscp_rules as select_qos_dscp_rules,
}
use networking_nsx_t.Qos.{
  QosRule, Profile, QosApi, create_switch_profile_qos, mark_rule, limit_rule,
}
use networking_nsx_t.Qos.Put.{spec_of, IsSent, sync_qos-put}
use networking_nsx_t.Rpc.{get_qos, get_qos_bwl_rules, get_qos_dscp_rules}
use networking_nsx_t.Rpc.Server.{Server}
use networking_nsx_t.Rpc.RoundTrip.{dispatch-request_of}
use networking_nsx_t.Syncing.{sync_qos_by_id}

-- The rows of a policy: its limits and its marks
abbrev pub limits_of : Database → String → List QosBandwidthLimitRule
limits_of db qos_id = keep (λ r. r.qos_policy_id == qos_id) db.bandwidth_limit_rules

abbrev pub marks_of : Database → String → List QosDscpMarkingRule
marks_of db qos_id = keep (λ r. r.qos_policy_id == qos_id) db.dscp_marking_rules

-- The rule that a row asks for
abbrev pub rule_of_mark : QosDscpMarkingRule → QosRule
rule_of_mark row = record {
  direction = none;
  max_kbps = none;
  max_burst_kbps = none;
  dscp_mark = some row.dscp_mark;
}

abbrev pub rule_of_limit : QosBandwidthLimitRule → QosRule
rule_of_limit row = record {
  direction = some row.direction;
  max_kbps = some row.max_kbps;
  max_burst_kbps = some row.max_burst_kbps;
  dscp_mark = none;
}

-- The rules of a policy, the marks first
abbrev pub rules_of : Database → String → List QosRule
rules_of db qos_id =
    map rule_of_mark (marks_of db qos_id) ++ map rule_of_limit (limits_of db qos_id)

marks-rule_of_mark :
    (rows : List QosDscpMarkingRule)
    → map mark_rule
        (map {A = String × ℕ} (λ r. r.1) (map (λ r. (r.qos_policy_id, r.dscp_mark)) rows))
      ≡ map rule_of_mark rows
marks-rule_of_mark [] = refl
marks-rule_of_mark (row ∷ rows) = rw (marks-rule_of_mark rows)

limits-rule_of_limit :
    (rows : List QosBandwidthLimitRule)
    → map limit_rule (map (λ r. (r.direction, r.max_kbps, r.max_burst_kbps)) rows)
      ≡ map rule_of_limit rows
limits-rule_of_limit [] = refl
limits-rule_of_limit (row ∷ rows) = rw (limits-rule_of_limit rows)

get_qos-one :
    (db : Database) (qos_id : String) (policy : QosPolicy) (attr : StandardAttribute)
    → keep (λ p. p.id == qos_id) db.qos_policies ≡ policy ∷ []
    → keep (λ a. nat_eq a.id policy.standard_attr_id) db.standard_attributes ≡ attr ∷ []
    → select_qos db qos_id ≡ ok (policy.name, attr.revision_number)
unfolding select_qos join join_row one_or_none _validate_one
get_qos-one db qos_id policy attr one_policy one_attr = rw (one_policy, one_attr)

module _ {ℓ} {W : Type ℓ} (server : Server) (strftime : ℕ → String)
    (read_back : (t : ℕ) → server.strptime (strftime t) ≡ ok t) (host : String)
    (api : QosApi W) where
  -- The synchronization of a policy over messages and tables. Where the tables have one policy of
  -- the id, with one row of attributes, and NSX-T has its profile after the attempt to create it,
  -- even if that attempt raises, the agent sends the request with the shaping that the marks and
  -- limits of the tables ask for and the revision of the policy's attributes, under the retry
  -- policy: at most as many attempts of it as are configured (one, if none are), the failed ones
  -- handled and followed by a pause, until one returns a response with a status below 300, or its
  -- error is not handled, or all have failed. The synchronization returns if the last attempt
  -- does, and raises otherwise.
  pub sync_qos_by_id-put :
      (qos_id : String) (policy : QosPolicy) (attr : StandardAttribute) (r : Result (Unit {0}))
      (qos : Profile) (w w₁ w₂ : W)
      → keep (λ p. p.id == qos_id) server.db.qos_policies ≡ policy ∷ []
      → keep (λ a. nat_eq a.id policy.standard_attr_id) server.db.standard_attributes ≡ attr ∷ []
      → api.create_profile qos_id
          (record { scope = "revision_number"; tag = str attr.revision_number } ∷ [])
          w
        ≡ (r, w₁)
      → api.get_profile qos_id w₁ ≡ (ok (some qos), w₂)
      → IsSent api
          (spec_of attr.revision_number (rules_of server.db qos_id) qos)
          w₂
          (sync_qos_by_id server strftime host api qos_id w)
  unfolding sync_qos_by_id select_qos_bwl_rules select_qos_dscp_rules create_switch_profile_qos
  sync_qos_by_id-put qos_id policy attr r qos w w₁ w₂ one_policy one_attr tried found =
      rw
        (
          dispatch-request_of server strftime read_back host (get_qos qos_id),
          get_qos-one server.db qos_id policy attr one_policy one_attr,
          dispatch-request_of server strftime read_back host (get_qos_bwl_rules qos_id),
          dispatch-request_of server strftime read_back host (get_qos_dscp_rules qos_id),
          ← marks-rule_of_mark (marks_of server.db qos_id),
          ← limits-rule_of_limit (limits_of server.db qos_id),
        )
        (sync_qos-put api qos_id attr.revision_number
          (map (λ r. r.1) (select_qos_dscp_rules server.db qos_id))
          (select_qos_bwl_rules server.db qos_id) r qos w w₁ w₂ tried found)
