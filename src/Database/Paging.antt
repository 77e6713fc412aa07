-- ===== src/Database/Paging.antt =====
-- The *_revision_tuples queries of networking_nsxv3/db/db.py over the tables, with the time that
-- an RPC passes.
use networking_nsx_t.Base.{ℕ, String, List, map, ◌==◌, nat_eq}
use networking_nsx_t.Base.Exec.{Result, ok, and_then}
use networking_nsx_t.Revisions.{
  Row, PortRow, get_security_group_revision_tuples, get_qos_policy_revision_tuples,
  get_port_revision_tuples,
}
use networking_nsx_t.Database.{Database, StandardAttribute, join, DateArg, _get_datetime}
use networking_nsx_t.Database.Queries.{on_attribute}

-- The columns of a revision
abbrev pub row_with : String → StandardAttribute → Row
row_with id attr = record { id = id; revision = attr.revision_number; created_at = attr.created_at }

module _ (db : Database) where
  unfoldable pub security_group_rows : List Row
  unfolding join
  security_group_rows =
      map (λ r. row_with (r.0.id) (r.1))
        (join (λ sg attr. nat_eq attr.id sg.standard_attr_id) db.security_groups
          db.standard_attributes)

  unfoldable pub qos_policy_rows : List Row
  unfolding join
  qos_policy_rows =
      map (λ r. row_with (r.0.id) (r.1))
        (join (λ policy attr. nat_eq attr.id policy.standard_attr_id) db.qos_policies
          db.standard_attributes)

  unfoldable pub port_level_rows : List PortRow
  unfolding join
  port_level_rows =
      map (λ r. record { row = row_with (r.0.0.id) (r.0.1); host = r.1.host; driver = r.1.driver })
        (join (λ r level. level.port_id == r.0.id)
          (join on_attribute db.ports db.standard_attributes) db.port_binding_levels)

module _ (order_by : List Row → List Row) (strptime : String → Result ℕ) (db : Database) where
  unfoldable pub query_port_revisions : String → ℕ → DateArg → Result (List Row)
  unfolding _get_datetime port_level_rows
  query_port_revisions host limit created_after =
      and_then (_get_datetime strptime created_after)
        (λ t. ok (get_port_revision_tuples order_by (port_level_rows db) host limit t))

  unfoldable pub query_qos_policy_revisions : ℕ → DateArg → Result (List Row)
  unfolding _get_datetime qos_policy_rows
  query_qos_policy_revisions limit created_after =
      and_then (_get_datetime strptime created_after)
        (λ t. ok (get_qos_policy_revision_tuples order_by (qos_policy_rows db) limit t))

  unfoldable pub query_security_group_revisions : ℕ → DateArg → Result (List Row)
  unfolding _get_datetime security_group_rows
  query_security_group_revisions limit created_after =
      and_then (_get_datetime strptime created_after)
        (λ t. ok (get_security_group_revision_tuples order_by (security_group_rows db) limit t))
