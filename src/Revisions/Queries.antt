-- ===== src/Revisions/Queries.antt =====
-- What one page of the query has, and what stands behind it.
use mathlib.Core.Logic.Or
use mathlib.Core.List.{
  Mem, Perm, filter, mem-cons, mem-cons_self, mem-cons_of_mem, mem-filter, not-mem-nil,
}
use mathlib.Core.List.Perm
use native.Mathlib.Bridge.{le_prop}
use native.Mathlib.Decide.{dec_le, dec_lt, ℕ_discrete}
use networking_nsx_t.Base.{
  ℕ, ◌≤◌, ◌<◌, ◌≡◌, ◌≢◌, ◌⊎◌, inl, inr, none, some, List, [], ◌∷◌, arith, length, drop, last?,
  length-perm, String, str, ltb, false, length-take, length-drop, nil_of_length,
}
use networking_nsx_t.Base.Dict.{Dict, lookup}
use networking_nsx_t.Revisions.{Row, revision_tuples}
use networking_nsx_t.Revisions.Adding.{IsKeyed}
use native.Mathlib.Nat.{le_antisymm}
use networking_nsx_t.Revisions.Pages.{
  IsOrdered, mem_take_or_drop, mem_of_take, last-le_drop, take-le_last, length-filter_all,
  length-filter-take, length-filter-filter,
}

-- What a database does for `order_by(created_at)`: it returns the rows in the order of their
-- creation. Which of two rows of one time comes first may differ from query to query.
pub record OrdersByCreation (order_by : List Row → List Row) : Type 0 where
  pub ordered : (rows : List Row) → IsOrdered (order_by rows)
  pub rows-Perm : (rows : List Row) → Perm (order_by rows) rows

-- The dict has the revision of every row, as a text, and nothing for other keys.
abbrev pub HasRevisions : List Row → Dict String → Type 0
HasRevisions table rev =
    ((r : Row) → Mem r table → lookup r.id rev ≡ some (str r.revision))
    × ((k : String) → ((r : Row) → Mem r table → r.id ≢ k) → lookup k rev ≡ none)

-- A row that is earlier than a given time, or the fact that there is none
pub find_earlier :
    (c : ℕ) (xs : List Row)
    → ((x : Row) × Mem x xs × (x.created_at < c)) ⊎ ((x : Row) → Mem x xs → c ≤ x.created_at)
find_earlier c [] = inr (λ x m. absurd (not-mem-nil m))
find_earlier c (y ∷ ys) = elim (dec_lt y.created_at c) [
  | yes lt ↦ inl (y, mem-cons_self, lt)
  | no ge ↦ elim (find_earlier c ys) [
    | inl (x, m, lt) ↦ inl (x, mem-cons_of_mem y m, lt)
    | inr all ↦
        inr (λ x m. Or.elim le_prop (mem-cons.0 m) (λ e. rw e (omega arith)) (λ later. all x later))
  ]
]

pub leb_of_not_ltb : (m n : ℕ) → ltb m n ≡ false → n ≤ m
leb_of_not_ltb m n h = ground arith

-- What the theorems assume of the database, of the table and of the limit
pub record Assumptions (order_by : List Row → List Row) (table : List Row) (limit : ℕ)
    (revision_of : String → ℕ) : Type 0 where
  pub database : OrdersByCreation order_by
  pub keyed : IsKeyed revision_of table
  -- Fewer rows than the limit were created at any one time.
  pub few : (time : ℕ) → length (filter (λ r. ℕ_discrete r.created_at time) table) < limit

module _ {order_by : List Row → List Row} {table : List Row} {limit : ℕ} {revision_of : String → ℕ}
    (a : Assumptions order_by table limit revision_of) where
  abbrev pub since : ℕ → List Row
  since after = filter (λ r. dec_le after r.created_at) table

  abbrev pub page : ℕ → List Row
  page after = revision_tuples order_by table limit after

  -- A row of a page is a row of the table that is late enough.
  pub mem-page : (after : ℕ) (r : Row) → Mem r (page after) → Mem r table × (after ≤ r.created_at)
  unfolding revision_tuples
  mem-page after r m =
      let m' = Perm.subset (a.database.rows-Perm (since after)) r (mem_of_take limit _ r m) in
      (mem-filter (λ r. dec_le after r.created_at)).0 m'

  -- A late enough row is in the page or behind it.
  pub page-or_behind :
      (after : ℕ) (r : Row) {P : Type 0}
      → IsProp P
      → Mem r table
      → after ≤ r.created_at
      → (Mem r (page after) → P)
      → (Mem r (drop limit (order_by (since after))) → P)
      → P
  unfolding revision_tuples
  page-or_behind after r {P} prop m late f g =
      let m' = (mem-filter (λ r. dec_le after r.created_at)).1 (m, late) in
      mem_take_or_drop limit (order_by (since after)) r P prop
        (Perm.subset (Perm.symm (a.database.rows-Perm (since after))) r m') f g

  pub behind_late :
      (after : ℕ) (z r : Row)
      → last? (page after) ≡ some z
      → Mem r (drop limit (order_by (since after)))
      → z.created_at ≤ r.created_at
  unfolding revision_tuples
  behind_late after z r last m =
      last-le_drop limit (order_by (since after)) z r (a.database.ordered _) last m

  pub short_page :
      (after : ℕ) → length (page after) < limit → drop limit (order_by (since after)) ≡ []
  unfolding revision_tuples
  short_page after short = nil_of_length _ (
      omega (
        arith,
        length-take limit (order_by (since after)),
        length-drop limit (order_by (since after)),
      ))

  pub full_page_earlier :
      (after : ℕ) (z : Row)
      → limit ≤ length (page after)
      → last? (page after) ≡ some z
      → (x : Row) × Mem x (page after) × (x.created_at < z.created_at)
  unfolding revision_tuples
  full_page_earlier after z full last = elim (find_earlier z.created_at (page after)) [
    | inl found ↦ found
    | inr all ↦
        let rows = order_by (since after) in
        let at_z = λ (r : Row). ℕ_discrete r.created_at z.created_at in
        let same : (x : Row) → Mem x (page after) → x.created_at ≡ z.created_at = λ x m.
          le_antisymm (take-le_last limit rows z x (a.database.ordered _) last m) (all x m) in
        absurd (
          omega (
            arith,
            a.few z.created_at,
            length-filter_all at_z (page after) same,
            length-filter-take at_z limit rows,
            length-perm _ _ (Perm.filter at_z (a.database.rows-Perm (since after))),
            length-filter-filter at_z (λ r. dec_le after r.created_at) table,
          ))
  ]
