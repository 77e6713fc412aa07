-- ===== src/Revisions/Stuck.antt =====
-- Where `get_revisions` does not end.
use mathlib.Core.List.{filter}
use mathlib.Core.List.Perm
use native.Mathlib.Decide.{dec_le, ℕ_discrete}
use networking_nsx_t.Base.{
  ℕ, zero, suc, ◌≤◌, ◌<◌, ◌≡◌, refl, inl, inr, none, some, List, [], arith, length, take, drop,
  last?, length-perm, ltb, false, Option-cases, length-take, String,
}
use networking_nsx_t.Base.Dict.{Dict}
use networking_nsx_t.Revisions.{Row, revision_tuples, revisions_loop, get_revisions}
use networking_nsx_t.Revisions.Pages.{
  no_last, length-filter_implied, length-filter_split, length-filter_none, length-filter_lt,
  length-filter_le, mem-last, last-le_drop,
}
use networking_nsx_t.Revisions.Queries.{OrdersByCreation}

ltb_of_le : (m n : ℕ) → n ≤ m → ltb m n ≡ false
ltb_of_le m n h = ground arith

module _ {order_by : List Row → List Row} (table : List Row) (limit time : ℕ)
    (database : OrdersByCreation order_by)
    (many : limit ≤ length (filter (λ r. ℕ_discrete r.created_at time) table))
    (pos : 0 < limit) where
  abbrev at_time : (r : Row) → Dec (r.created_at ≡ time)
  at_time r = ℕ_discrete r.created_at time

  abbrev rows_since : ℕ → List Row
  rows_since after = order_by (filter (λ r. dec_le after r.created_at) table)

  enough_rows : (after : ℕ) → after ≤ time → limit ≤ length (filter at_time (rows_since after))
  enough_rows after h = omega (
    arith,
    length-filter_implied at_time (λ r. dec_le after r.created_at) table (λ x e. omega arith),
    length-perm _ _
        (Perm.filter at_time (database.rows-Perm (filter (λ r. dec_le after r.created_at) table))),
  )

  last_in_time :
      (after : ℕ) (z : Row)
      → after ≤ time
      → last? (take limit (rows_since after)) ≡ some z
      → z.created_at ≤ time
  last_in_time after z h last = elim (dec_le z.created_at time) [
    | yes le ↦ le
    | no gt ↦
        let rows = rows_since after in
        absurd (
          omega (
            arith,
            enough_rows after h,
            length-filter_split at_time limit rows,
            length-filter_none at_time (drop limit rows) (λ x m e.
                gt (omega (arith, last-le_drop limit rows z x (database.ordered _) last m))),
            length-filter_lt at_time (take limit rows) z (mem-last z (take limit rows) last)
                (λ e. gt (omega arith)),
            length-take limit rows,
          ))
  ]

  full_page : (after : ℕ) → after ≤ time → limit ≤ length (take limit (rows_since after))
  full_page after h = omega (
    arith,
    enough_rows after h,
    length-filter_le at_time (rows_since after),
    length-take limit (rows_since after),
  )

  loop_stuck :
      (fuel after : ℕ) (rev : Dict String)
      → after ≤ time
      → revisions_loop (revision_tuples order_by table) limit fuel after rev ≡ none
  unfolding revisions_loop revision_tuples
  loop_stuck zero after rev h = refl
  loop_stuck (suc fuel) after rev h = elim (Option-cases (last? (take limit (rows_since after)))) [
    | inl empty ↦
        absurd (omega (arith, full_page after h, no_last (take limit (rows_since after)) empty))
    | inr (z, last) ↦
        rw (ltb_of_le _ _ (full_page after h), last)
          (loop_stuck fuel z.created_at _ (last_in_time after z h last))
  ]

-- If at least as many rows as the limit, and the limit is positive, were created at one time, the
-- loop of `get_revisions` never ends: it returns nothing, whatever the fuel.
pub get_revisions_stuck :
    (order_by : List Row → List Row) (table : List Row) (limit time : ℕ)
    → OrdersByCreation order_by
    → 0 < limit
    → limit ≤ length (filter (λ r. ℕ_discrete r.created_at time) table)
    → (fuel : ℕ) → get_revisions (revision_tuples order_by table) limit fuel ≡ none
unfolding get_revisions
get_revisions_stuck order_by table limit time database pos many fuel =
    loop_stuck table limit time database many pos fuel 0 [] (omega arith)
