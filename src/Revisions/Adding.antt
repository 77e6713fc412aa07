-- ===== src/Revisions/Adding.antt =====
-- What a page adds to the dict of revisions.
use mathlib.Core.Logic.Or
use mathlib.Core.List.{Mem, mem-cons, mem-cons_self, mem-cons_of_mem, not-mem-nil}
use native.Mathlib.Nat.{ℕ_set}
use networking_nsx_t.Base.{
  ℕ, ◌≡◌, ◌≢◌, refl, sym, ◌∙◌, ap, ◌⊎◌, inl, inr, Option, some, List, [], ◌∷◌, String, str, ◌==◌,
  eq_iff, Bool-cases, option_text_set, true≢false, if◌then◌else◌, Bool, true, false,
}
use networking_nsx_t.Base.Dict.{Dict, lookup, insert, lookup-insert}
use networking_nsx_t.Revisions.{Row, add_page}

-- An id stands for one revision.
abbrev pub IsKeyed : (String → ℕ) → List Row → Type 0
IsKeyed revision_of rows = (r : Row) → Mem r rows → revision_of r.id ≡ r.revision

pub text_prop : {a b : Option String} → IsProp (a ≡ b)
text_prop = option_text_set _ _

module _ (revision_of : String → ℕ) where
  abbrev pub IsKnown : String → Dict String → Type 0
  IsKnown k rev = lookup k rev ≡ some (str (revision_of k))

  or_IsKnown : {k j : String} (rev : Dict String) → (j ≡ k) ⊎ IsKnown k rev → j ≢ k → IsKnown k rev
  or_IsKnown rev (inl e) ne = absurd (ne e)
  or_IsKnown rev (inr h) ne = h

  insert-IsKnown :
      (r : Row) (k : String) (rev : Dict String)
      → revision_of r.id ≡ r.revision
      → (r.id ≡ k) ⊎ IsKnown k rev
      → IsKnown k (insert r.id (str r.revision) rev)
  insert-IsKnown r k rev keyed h = elim (Bool-cases (r.id == k)) [
    | inl same ↦
        let e = (eq_iff r.id k).0 same in
        simp lookup-insert (rw same (ap (λ n. some (str n)) (sym keyed ∙ ap revision_of e)))
    | inr other ↦
        simp lookup-insert
          (rw other (or_IsKnown rev h (λ e. true≢false ((eq_iff r.id k).1 e) other)))
  ]

  pub add_page-IsKnown :
      (rows : List Row) (k : String) (rev : Dict String)
      → IsKeyed revision_of rows
      → IsKnown k rev
      → IsKnown k (add_page rows rev)
  unfolding add_page
  add_page-IsKnown [] k rev keyed h = h
  add_page-IsKnown (r ∷ rows) k rev keyed h =
      add_page-IsKnown rows k _ (λ s m. keyed s (mem-cons_of_mem r m))
        (insert-IsKnown r k rev (keyed r mem-cons_self) (inr h))

  pub add_page-IsKnown_new :
      (rows : List Row) (r : Row) (rev : Dict String)
      → IsKeyed revision_of rows
      → Mem r rows
      → IsKnown r.id (add_page rows rev)
  unfolding add_page
  add_page-IsKnown_new [] r rev keyed m = absurd (not-mem-nil m)
  add_page-IsKnown_new (s ∷ rows) r rev keyed m =
      let tail_keyed = λ (t : Row) (h : Mem t rows). keyed t (mem-cons_of_mem s h) in
      Or.elim text_prop (mem-cons.0 m)
        (λ e.
          add_page-IsKnown rows r.id _ tail_keyed
            (insert-IsKnown s r.id rev (keyed s mem-cons_self) (inl (ap (λ t. t.id) (sym e)))))
        (λ later. add_page-IsKnown_new rows r _ tail_keyed later)

other_key : (b : Bool) (x y : Option String) → b ≢ true → (if b then x else y) ≡ y
other_key true x y h = absurd (h refl)
other_key false x y h = refl

pub add_page-absent :
    (rows : List Row) (k : String) (rev : Dict String)
    → ((r : Row) → Mem r rows → r.id ≢ k)
    → lookup k (add_page rows rev) ≡ lookup k rev
unfolding add_page
add_page-absent [] k rev h = refl
add_page-absent (r ∷ rows) k rev h =
    add_page-absent rows k _ (λ s m. h s (mem-cons_of_mem r m))
    ∙ lookup-insert r.id k (str r.revision) rev
    ∙ other_key _ _ _ (λ e. h r mem-cons_self ((eq_iff r.id k).0 e))

pub IsKeyed-cons :
    (f : String → ℕ) (r : Row) (rows : List Row)
    → f r.id ≡ r.revision
    → IsKeyed f rows
    → IsKeyed f (r ∷ rows)
IsKeyed-cons f r rows h k s m =
    Or.elim (ℕ_set _ _) (mem-cons.0 m) (λ e. ap (λ t. f t.id) e ∙ h ∙ ap (λ t. t.revision) (sym e))
      (k s)
