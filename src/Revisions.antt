-- ===== src/Revisions.antt =====
-- The revisions that Neutron has: the *_revision_tuples queries of networking_nsxv3/db/db.py, and
-- get_revisions of networking_nsxv3/plugins/ml2/drivers/nsxv3/agent/nsxv3_agent.py, which pages
-- through one of them.
pub mod Pages
pub mod Adding
pub mod Queries
pub mod Complete
pub mod Stuck
mod Sorted
mod Examples
use mathlib.Core.List.{filter}
use native.Mathlib.Decide.{dec_le}
use networking_nsx_t.Base.{
  ℕ, zero, suc, String, Bool, ◌&&◌, Option, none, some, List, [], ◌∷◌, map, ◌==◌, ltb,
  if◌then◌else◌, length, take, last?, keep, str,
}
use networking_nsx_t.Base.Exec.{Result, ok, raise, index_error}
use networking_nsx_t.Base.Dict.{Dict, insert}

-- A row `(id, revision_number, created_at)` of the join with standard_attributes. A time is a
-- number of ticks since 1970-01-01.
pub record Row : Type 0 where
  pub id : String
  pub revision : ℕ
  pub created_at : ℕ

-- A row of the ports' join with their binding levels.
pub record PortRow : Type 0 where
  pub row : Row
  pub host : String
  pub driver : String

-- The database orders the rows that pass the filter; it is a parameter.
module _ (order_by : List Row → List Row) where
  -- `order_by(created_at).filter(created_at >= created_after).limit(limit)`
  unfoldable pub revision_tuples : List Row → ℕ → ℕ → List Row
  revision_tuples table limit created_after =
      take limit (order_by (filter (λ r. dec_le created_after r.created_at) table))

  unfoldable pub get_security_group_revision_tuples : List Row → ℕ → ℕ → List Row
  get_security_group_revision_tuples groups = revision_tuples groups

  unfoldable pub get_qos_policy_revision_tuples : List Row → ℕ → ℕ → List Row
  get_qos_policy_revision_tuples policies = revision_tuples policies

  unfoldable pub get_port_revision_tuples : List PortRow → String → ℕ → ℕ → List Row
  get_port_revision_tuples ports host =
      revision_tuples (map (λ p. p.row) (keep (λ p. p.host == host && p.driver == "nsxv3") ports))

-- The body of the inner loop over a page
unfoldable pub add_page : List Row → Dict String → Dict String
add_page [] rev = rev
add_page (r ∷ rows) rev = add_page rows (insert r.id (str r.revision) rev)

-- The loop of `get_revisions`. none means that the fuel ran out.
unfoldable pub revisions_loop :
    (ℕ → ℕ → List Row) → ℕ → ℕ → ℕ → Dict String → Option (Result (Dict String))
revisions_loop query limit zero created_after rev = none
revisions_loop query limit (suc fuel) created_after rev =
    let page = query limit created_after in
    let rev' = add_page page rev in
    if ltb (length page) limit then some (ok rev') else elim (last? page) [
      | none ↦ some (raise index_error)
      | some r ↦ revisions_loop query limit fuel r.created_at rev'
    ]

unfoldable pub get_revisions : (ℕ → ℕ → List Row) → ℕ → ℕ → Option (Result (Dict String))
get_revisions query limit fuel = revisions_loop query limit fuel 0 []
