-- ===== src/Database/Lookups.antt =====
-- get_port over tables in which the primary keys are unique.
use text.Mathlib.TextEquality.{eq_iff}
use networking_nsx_t.Base.{
  String, Bool, true, Option, none, some, List, [], ◌∷◌, ◌++◌, map, ◌≡◌, refl, ◌∙◌, ◌==◌, nat_eq,
  nat_eq_iff, keep,
}
use networking_nsx_t.Base.Exec.{not_found, multiple_results, Result, ok, raise, and_then}
use networking_nsx_t.Database.{
  Database, Port, StandardAttribute, PortBinding, QosPortPolicyBinding, QosPolicy, PortDetails,
  join, join_row, outer_join, outer_row, one_or_none, _validate_one,
}
use networking_nsx_t.Database.Queries.{
  details_of, policy_id_of, bound_to, on_attribute, on_binding, on_policy_binding, has_policy,
  port_rows, get_port,
}
use networking_nsx_t.Database.Keys.{find, to_list, are_distinct, text_eq, keep-key}

append-nil {ℓ} : {A : Type ℓ} (xs : List A) → xs ++ [] ≡ xs
append-nil [] = refl
append-nil (x ∷ xs) = rw (append-nil xs) refl

module _ {ℓ κ} {A : Type ℓ} {B : Type κ} where
  outer_row-pick : (a : A) (o : Option B) → outer_row a (to_list o) ≡ (a, o) ∷ []
  unfolding outer_row
  outer_row-pick a none = refl
  outer_row-pick a (some b) = refl

  -- Where at most one row matches each, a left outer join adds it.
  outer_join-pick :
      (on : A → B → Bool) (pick : A → Option B) (rows : List A) (bs : List B)
      → ((a : A) → keep (on a) bs ≡ to_list (pick a))
      → outer_join on rows bs ≡ map (λ a. (a, pick a)) rows
  unfolding outer_join
  outer_join-pick on pick [] bs h = refl
  outer_join-pick on pick (a ∷ rows) bs h =
      rw (h a, outer_row-pick a (pick a), outer_join-pick on pick rows bs h) refl

  join_row-map : (a : A) (bs : List B) → join_row a bs ≡ map (λ b. (a, b)) bs
  unfolding join_row
  join_row-map a [] = refl
  join_row-map a (b ∷ bs) = rw (join_row-map a bs) refl

  join-one :
      (on : A → B → Bool) (a : A) (bs : List B)
      → join on (a ∷ []) bs ≡ map (λ b. (a, b)) (keep (on a) bs)
  unfolding join
  join-one on a bs = append-nil (join_row a (keep (on a) bs)) ∙ join_row-map a (keep (on a) bs)

-- The policy of a port, by its only binding to one
abbrev pub policy_of : Database → Option QosPortPolicyBinding → Option QosPolicy
policy_of db none = none
policy_of db (some binding) = find (λ policy. policy.id == binding.policy_id) db.qos_policies

-- The keys that no two rows of a table share. A port may have several bindings, one for each host.
pub record HasUniqueKeys (db : Database) : Type 0 where
  pub ports : are_distinct text_eq (map (λ port. port.id) db.ports) ≡ true
  pub attributes : are_distinct nat_eq (map (λ attr. attr.id) db.standard_attributes) ≡ true
  pub policy_bindings :
      are_distinct text_eq (map (λ q. q.port_id) db.qos_port_policy_bindings) ≡ true
  pub policies : are_distinct text_eq (map (λ policy. policy.id) db.qos_policies) ≡ true

-- The row that a port, its attributes and one of its bindings give
abbrev pub row_of : Database → Port → StandardAttribute → PortBinding → PortDetails
row_of db port attr binding = record {
  id = port.id;
  mac_address = port.mac_address;
  admin_state_up = port.admin_state_up;
  status = port.status;
  qos_policy_id =
      policy_id_of (policy_of db (find (λ q. q.port_id == port.id) db.qos_port_policy_bindings));
  revision_number = attr.revision_number;
  host = binding.host;
  vif_details = binding.vif_details;
}

-- The lookups that get_port amounts to
abbrev pub one_binding : Database → Port → StandardAttribute → List PortBinding → Result PortDetails
one_binding db port attr [] = raise not_found
one_binding db port attr (binding ∷ []) = ok (row_of db port attr binding)
one_binding db port attr (binding ∷ binding' ∷ bindings) = raise multiple_results

abbrev pub with_attributes : Database → Port → Option StandardAttribute → Result PortDetails
with_attributes db port none = raise not_found
with_attributes db port (some attr) =
    one_binding db port attr (keep (λ binding. binding.port_id == port.id) db.port_bindings)

abbrev pub with_port : Database → Option Port → Result PortDetails
with_port db none = raise not_found
with_port db (some port) =
    with_attributes db port
      (find (λ attr. nat_eq attr.id port.standard_attr_id) db.standard_attributes)

module _ (db : Database) where
  one-rows :
      (port : Port) (attr : StandardAttribute) (bindings : List PortBinding)
      → and_then (one_or_none (map (λ b. row_of db port attr b) bindings)) _validate_one
        ≡ one_binding db port attr bindings
  unfolding one_or_none _validate_one
  one-rows port attr [] = refl
  one-rows port attr (b ∷ []) = refl
  one-rows port attr (b ∷ b' ∷ bindings) = refl

  module _ (unique : HasUniqueKeys db) where
    abbrev pick_binding : ((Port × StandardAttribute) × PortBinding) → Option QosPortPolicyBinding
    pick_binding r = find (λ q. q.port_id == r.0.0.id) db.qos_port_policy_bindings

    bindings_pick :
        (r : (Port × StandardAttribute) × PortBinding)
        → keep (λ q. q.port_id == r.0.0.id) db.qos_port_policy_bindings ≡ to_list (pick_binding r)
    bindings_pick r =
        keep-key text_eq (λ j k e. (eq_iff j k).0 e) (λ q. q.port_id) r.0.0.id
          db.qos_port_policy_bindings unique.policy_bindings

    keep-none : (policies : List QosPolicy) → keep (bound_to none) policies ≡ []
    keep-none [] = refl
    keep-none (policy ∷ policies) = keep-none policies

    policies_pick :
        (q : Option QosPortPolicyBinding)
        → keep (bound_to q) db.qos_policies ≡ to_list (policy_of db q)
    policies_pick none = keep-none db.qos_policies
    policies_pick (some binding) =
        keep-key text_eq (λ j k e. (eq_iff j k).0 e) (λ p. p.id) binding.policy_id db.qos_policies
          unique.policies

    abbrev paired :
        Port
        → StandardAttribute
        → List PortBinding
        → List ((Port × StandardAttribute) × PortBinding)
    paired port attr bindings = map (λ b. ((port, attr), b)) bindings

    abbrev with_policy_bindings :
        List ((Port × StandardAttribute) × PortBinding)
        → List (((Port × StandardAttribute) × PortBinding) × Option QosPortPolicyBinding)
    with_policy_bindings rows = map (λ r. (r, pick_binding r)) rows

    abbrev with_policies :
        List (((Port × StandardAttribute) × PortBinding) × Option QosPortPolicyBinding)
        → List PortDetails
    with_policies rows = map details_of (map (λ r. (r, policy_of db (r.1))) rows)

    details-row_of :
        (port : Port) (attr : StandardAttribute) (bindings : List PortBinding)
        → with_policies (with_policy_bindings (paired port attr bindings))
          ≡ map (λ b. row_of db port attr b) bindings
    details-row_of port attr [] = refl
    details-row_of port attr (b ∷ bindings) = rw (details-row_of port attr bindings) refl

    rows_of_binding :
        (rows : List ((Port × StandardAttribute) × PortBinding))
        → map details_of (
            outer_join has_policy
              (outer_join on_policy_binding rows db.qos_port_policy_bindings)
              db.qos_policies)
          ≡ with_policies (with_policy_bindings rows)
    rows_of_binding rows =
        rw
          (
            outer_join-pick on_policy_binding pick_binding rows db.qos_port_policy_bindings
                bindings_pick,
            outer_join-pick has_policy (λ r. policy_of db (r.1)) (with_policy_bindings rows)
                db.qos_policies (λ r. policies_pick (r.1)),
          )
          refl

    rows_of_attributes :
        (port : Port) (attr : Option StandardAttribute)
        → and_then
            (one_or_none (
              map details_of (
                outer_join has_policy
                  (outer_join on_policy_binding
                    (join on_binding (map (λ a. (port, a)) (to_list attr)) db.port_bindings)
                    db.qos_port_policy_bindings)
                  db.qos_policies)))
            _validate_one
          ≡ with_attributes db port attr
    unfolding join outer_join one_or_none _validate_one
    rows_of_attributes port none = refl
    rows_of_attributes port (some attr) =
        let bindings = keep (λ b. b.port_id == port.id) db.port_bindings in
        rw
          (
            join-one on_binding (port, attr) db.port_bindings,
            rows_of_binding (paired port attr bindings),
            details-row_of port attr bindings,
          )
          (one-rows port attr bindings)

    rows_of_port :
        (port : Option Port)
        → and_then
            (one_or_none (
              map details_of (
                outer_join has_policy
                  (outer_join on_policy_binding
                    (join on_binding
                      (join on_attribute (to_list port) db.standard_attributes)
                      db.port_bindings)
                    db.qos_port_policy_bindings)
                  db.qos_policies)))
            _validate_one
          ≡ with_port db port
    unfolding join outer_join one_or_none _validate_one
    rows_of_port none = refl
    rows_of_port (some port) =
        rw
          (
            join-one on_attribute port db.standard_attributes,
            keep-key nat_eq (λ j k e. (nat_eq_iff j k).0 e) (λ a. a.id) port.standard_attr_id
                db.standard_attributes unique.attributes,
          )
          (rows_of_attributes port
            (find (λ a. nat_eq a.id port.standard_attr_id) db.standard_attributes))

    -- Where the primary keys are unique, get_port amounts to lookups by key. It raises "not found"
    -- for a port that is missing, has no attributes or is bound to no host, MultipleResultsFound
    -- for one that is bound to several hosts, and else returns the port's fields with its revision,
    -- the host and details of its binding, and the policy that it is bound to or None.
    pub get_port-with_port :
        (port_id : String)
        → get_port db port_id ≡ with_port db (find (λ port. port.id == port_id) db.ports)
    unfolding get_port port_rows
    get_port-with_port port_id =
        rw (keep-key text_eq (λ j k e. (eq_iff j k).0 e) (λ p. p.id) port_id db.ports unique.ports)
          (rows_of_port (find (λ port. port.id == port_id) db.ports))
