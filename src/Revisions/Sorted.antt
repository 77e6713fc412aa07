-- ===== src/Revisions/Sorted.antt =====
-- A database that sorts by insertion orders rows by their creation.
use mathlib.Core.Logic.Or
use mathlib.Core.List.{Perm, mem-cons, not-mem-nil}
use mathlib.Core.List.Perm
use native.Mathlib.Bridge.{le_prop}
use native.Mathlib.Nat.{le_trans}
use networking_nsx_t.Base.{List, [], ◌∷◌, inl, inr, arith, leb, leb→le, Bool-cases, if◌then◌else◌}
use networking_nsx_t.Revisions.{Row}
use networking_nsx_t.Revisions.Pages.{IsOrdered}
use networking_nsx_t.Revisions.Queries.{OrdersByCreation}

abbrev place : Row → List Row → List Row
place r [] = r ∷ []
place r (s ∷ rows) =
    let rest = place r rows in if leb r.created_at s.created_at then r ∷ s ∷ rows else s ∷ rest

abbrev pub sort_rows : List Row → List Row
sort_rows [] = []
sort_rows (r ∷ rows) = place r (sort_rows rows)

place-Perm : (r : Row) (rows : List Row) → Perm (place r rows) (r ∷ rows)
place-Perm r [] = Perm.refl _
place-Perm r (s ∷ rows) = elim (Bool-cases (leb r.created_at s.created_at)) [
  | inl le ↦ rw le (Perm.refl _)
  | inr gt ↦ rw gt (Perm.trans (Perm.cons s (place-Perm r rows)) (Perm.swap r s rows))
]

sort_rows-Perm : (rows : List Row) → Perm (sort_rows rows) rows
sort_rows-Perm [] = Perm.refl []
sort_rows-Perm (r ∷ rows) =
    Perm.trans (place-Perm r (sort_rows rows)) (Perm.cons r (sort_rows-Perm rows))

place-IsOrdered : (r : Row) (rows : List Row) → IsOrdered rows → IsOrdered (place r rows)
place-IsOrdered r [] o = (λ s m. absurd (not-mem-nil m), tt)
place-IsOrdered r (s ∷ rows) o = elim (Bool-cases (leb r.created_at s.created_at)) [
  | inl le ↦ rw le (
    λ x m.
        Or.elim le_prop (mem-cons.0 m) (λ e. rw e (leb→le _ _ le))
          (λ later. le_trans (leb→le _ _ le) (o.0 x later)),
    o,
  )
  | inr gt ↦ rw gt (
    λ x m.
        Or.elim le_prop (mem-cons.0 (Perm.subset (place-Perm r rows) x m))
          (λ e. rw e (ground arith)) (λ later. o.0 x later),
    place-IsOrdered r rows o.1,
  )
]

sort_rows-IsOrdered : (rows : List Row) → IsOrdered (sort_rows rows)
sort_rows-IsOrdered [] = tt
sort_rows-IsOrdered (r ∷ rows) = place-IsOrdered r (sort_rows rows) (sort_rows-IsOrdered rows)

pub sort_rows-OrdersByCreation : OrdersByCreation sort_rows
sort_rows-OrdersByCreation = record { ordered = sort_rows-IsOrdered; rows-Perm = sort_rows-Perm }
