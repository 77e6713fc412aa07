-- ===== src/Revisions/Complete.antt =====
-- What `get_revisions` finds, over a database that orders its rows.
use mathlib.Core.List.{Mem, not-mem-nil}
use native.Mathlib.Decide.{dec_le, dec_lt}
use networking_nsx_t.Base.{
  ℕ, zero, suc, ◌+◌, ◌≤◌, ◌<◌, ◌≡◌, ◌≢◌, ◌∙◌, ap, inl, inr, none, some, List, [], arith, length,
  drop, last?, String, str, ltb, ltb→lt, Bool-cases, Option-cases,
}
use networking_nsx_t.Base.Exec.{ok}
use networking_nsx_t.Base.Dict.{Dict, lookup, lookup-nil}
use networking_nsx_t.Revisions.{Row, add_page, revision_tuples, revisions_loop, get_revisions}
use networking_nsx_t.Revisions.Adding.{
  IsKeyed, IsKnown, text_prop, add_page-IsKnown, add_page-IsKnown_new, add_page-absent,
}
use native.Mathlib.Nat.{le_trans}
use networking_nsx_t.Revisions.Pages.{no_last, mem-last, filter-lt, length-filter_le}
use networking_nsx_t.Revisions.Queries.{
  HasRevisions, leb_of_not_ltb, Assumptions, since, page, mem-page, page-or_behind, behind_late,
  short_page, full_page_earlier,
}

module _ {order_by : List Row → List Row} {table : List Row} {limit : ℕ} {revision_of : String → ℕ}
    (a : Assumptions order_by table limit revision_of) where
  -- What the dict holds when all rows before `after` are in it
  record Inv (after : ℕ) (rev : Dict String) : Type 0 where
    earlier : (r : Row) → Mem r table → r.created_at < after → IsKnown revision_of r.id rev
    absent : (k : String) → ((r : Row) → Mem r table → r.id ≢ k) → lookup k rev ≡ none

  page-IsKeyed : (after : ℕ) → IsKeyed revision_of (page a after)
  page-IsKeyed after r m = a.keyed r (mem-page a after r m).0

  absent-page :
      (after : ℕ) (rev : Dict String) (k : String)
      → Inv after rev
      → ((r : Row) → Mem r table → r.id ≢ k)
      → lookup k (add_page (page a after) rev) ≡ none
  absent-page after rev k v none_has =
      add_page-absent (page a after) k rev (λ r m. none_has r (mem-page a after r m).0)
      ∙ v.absent k none_has

  -- After a page every row is known that is before it or in it.
  IsKnown-page :
      (after : ℕ) (rev : Dict String) (r : Row)
      → Inv after rev
      → Mem r table
      → (Mem r (drop limit (order_by (since a after))) → ⊥)
      → IsKnown revision_of r.id (add_page (page a after) rev)
  IsKnown-page after rev r v m not_behind = elim (dec_lt r.created_at after) [
    | yes early ↦
        add_page-IsKnown revision_of (page a after) r.id rev (page-IsKeyed after)
          (v.earlier r m early)
    | no late ↦
        page-or_behind a after r text_prop m (omega arith)
          (add_page-IsKnown_new revision_of (page a after) r rev (page-IsKeyed after))
          (λ behind. absurd (not_behind behind))
  ]

  full_page-Inv :
      (after : ℕ) (rev : Dict String) (z : Row)
      → Inv after rev
      → last? (page a after) ≡ some z
      → Inv z.created_at (add_page (page a after) rev)
  full_page-Inv after rev z v last = record {
    earlier = λ r m early.
        IsKnown-page after rev r v m
          (λ behind. absurd (omega (arith, behind_late a after z r last behind)));
    absent = λ k none_has. absent-page after rev k v none_has;
  }

  -- The next query has fewer rows to choose from.
  since_lt :
      (after : ℕ) (z : Row)
      → limit ≤ length (page a after)
      → last? (page a after) ≡ some z
      → length (since a z.created_at) < length (since a after)
  since_lt after z full last =
      let (x, m, lt) = full_page_earlier a after z full last in
      let (listed, late) = mem-page a after x m in
      let z_late = (mem-page a after z (mem-last z (page a after) last)).1 in
      filter-lt (λ r. dec_le after r.created_at) (λ r. dec_le z.created_at r.created_at) table x
        (λ y h. le_trans z_late h) listed late (λ h. absurd (omega arith))

  -- The loop from `after` returns the dict with the revisions of all rows.
  Finishes : ℕ → ℕ → Dict String → Type 0
  Finishes fuel after rev =
      (rev' : Dict String) × (revisions_loop (revision_tuples order_by table) limit fuel after rev
        ≡ some (ok rev'))
      × HasRevisions table rev'

  short_page-HasRevisions :
      (after : ℕ) (rev : Dict String)
      → Inv after rev
      → length (page a after) < limit
      → HasRevisions table (add_page (page a after) rev)
  short_page-HasRevisions after rev v short = (
    λ r m.
        IsKnown-page after rev r v m
          (λ behind. not-mem-nil (rw (short_page a after short) at behind))
        ∙ ap (λ n. some (str n)) (a.keyed r m),
    λ k none_has. absent-page after rev k v none_has,
  )

  loop-Finishes :
      (fuel after : ℕ) (rev : Dict String)
      → length (since a after) < fuel
      → Inv after rev
      → Finishes fuel after rev
  unfolding revisions_loop Finishes
  loop-Finishes zero after rev enough v = absurd (omega arith)
  loop-Finishes (suc fuel) after rev enough v =
      elim (Bool-cases (ltb (length (page a after)) limit)) [
        | inl short ↦ (
          add_page (page a after) rev,
          rw short,
          short_page-HasRevisions after rev v (ltb→lt _ _ short),
        )
        | inr full ↦ elim (Option-cases (last? (page a after))) [
          | inl empty ↦
              absurd (omega (arith, a.few 0, no_last (page a after) empty, leb_of_not_ltb _ _ full))
          | inr (z, last) ↦
              let fewer = since_lt after z (leb_of_not_ltb _ _ full) last in
              let (rev', e, done) =
                loop-Finishes fuel z.created_at (add_page (page a after) rev) (omega arith)
                  (full_page-Inv after rev z v last) in
              (rev', rw (full, last) e, done)
        ]
      ]

-- With fewer rows of any one time than the limit, `get_revisions` ends after at most one query more
-- than there are rows, and returns a dict that has the revision of every row, as a text, and
-- no other key.
pub get_revisions_complete :
    (order_by : List Row → List Row) (table : List Row) (limit : ℕ) (revision_of : String → ℕ)
    → Assumptions order_by table limit revision_of
    → (rev : Dict String) × (get_revisions (revision_tuples order_by table) limit (length table + 1)
        ≡ some (ok rev))
      × HasRevisions table rev
unfolding get_revisions Finishes
get_revisions_complete order_by table limit revision_of a =
    loop-Finishes a (length table + 1) 0 []
      (omega (arith, length-filter_le (λ (r : Row). dec_le 0 r.created_at) table))
      (record { earlier = λ r m early. absurd (omega arith); absent = λ k _. lookup-nil k })
