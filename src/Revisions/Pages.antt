-- ===== src/Revisions/Pages.antt =====
-- Facts about one page of rows.
use mathlib.Core.Path.{subst}
use mathlib.Core.Logic.Or
use mathlib.Core.List.{Mem, filter, mem-cons, mem-cons_self, mem-cons_of_mem, not-mem-nil}
use native.Mathlib.Nat.{le_refl}
use native.Mathlib.Bridge.{le_prop}
use networking_nsx_t.Base.{
  ℕ, zero, suc, ◌+◌, ◌≤◌, ◌<◌, ◌≡◌, refl, ◌⊎◌, inl, inr, none, some, List, [], ◌∷◌, arith, length,
  take, drop, last?, sym, eq_of_some,
}
use networking_nsx_t.Revisions.{Row}

-- The rows are in the order of their creation.
abbrev pub IsOrdered : List Row → Type 0
IsOrdered [] = Unit
IsOrdered (r ∷ rows) = ((s : Row) → Mem s rows → r.created_at ≤ s.created_at) × IsOrdered rows

pub mem_take_or_drop :
    (n : ℕ) (xs : List Row) (x : Row) (P : Type 0)
    → IsProp P
    → Mem x xs
    → (Mem x (take n xs) → P)
    → (Mem x (drop n xs) → P)
    → P
mem_take_or_drop zero xs x P prop m f g = g m
mem_take_or_drop (suc n) [] x P prop m f g = g m
mem_take_or_drop (suc n) (y ∷ ys) x P prop m f g =
    Or.elim prop (mem-cons.0 m) (λ e. f (mem-cons.1 (Or.inl e)))
      (λ later. mem_take_or_drop n ys x P prop later (λ h. f (mem-cons_of_mem y h)) g)

pub mem_of_take : (n : ℕ) (xs : List Row) (x : Row) → Mem x (take n xs) → Mem x xs
mem_of_take zero xs x m = absurd (not-mem-nil m)
mem_of_take (suc n) [] x m = m
mem_of_take (suc n) (y ∷ ys) x m = mem-cons.1 (Or.imp (λ e. e) (mem_of_take n ys x) (mem-cons.0 m))

mem_of_drop : (n : ℕ) (xs : List Row) (x : Row) → Mem x (drop n xs) → Mem x xs
mem_of_drop zero xs x m = m
mem_of_drop (suc n) [] x m = m
mem_of_drop (suc n) (y ∷ ys) x m = mem-cons_of_mem y (mem_of_drop n ys x m)

last-cons :
    (y z : Row) (l : List Row) → last? (y ∷ l) ≡ some z → (l ≡ []) × (y ≡ z) ⊎ (last? l ≡ some z)
last-cons y z [] h = inl (refl, eq_of_some h)
last-cons y z (x ∷ l) h = inr h

pub mem-last : (z : Row) (l : List Row) → last? l ≡ some z → Mem z l
mem-last z [] h = cc
mem-last z (y ∷ l) h = elim (last-cons y z l h) [
  | inl (_, e) ↦ mem-cons.1 (Or.inl (sym e))
  | inr e ↦ mem-cons_of_mem y (mem-last z l e)
]

-- The last row of a page is no later than the rows behind the page
pub last-le_drop :
    (n : ℕ) (xs : List Row) (z x : Row)
    → IsOrdered xs
    → last? (take n xs) ≡ some z
    → Mem x (drop n xs)
    → z.created_at ≤ x.created_at
last-le_drop zero xs z x o h m = cc
last-le_drop (suc n) [] z x o h m = cc
last-le_drop (suc n) (y ∷ ys) z x o h m = elim (last-cons y z (take n ys) h) [
  | inl (_, e) ↦ rw (← e) (o.0 x (mem_of_drop n ys x m))
  | inr e ↦ last-le_drop n ys z x o.1 e m
]

-- and no earlier than the rows of the page.
pub take-le_last :
    (n : ℕ) (xs : List Row) (z x : Row)
    → IsOrdered xs
    → last? (take n xs) ≡ some z
    → Mem x (take n xs)
    → x.created_at ≤ z.created_at
take-le_last zero xs z x o h m = cc
take-le_last (suc n) [] z x o h m = cc
take-le_last (suc n) (y ∷ ys) z x o h m =
    Or.elim le_prop (mem-cons.0 m)
      (λ e. rw e (elim (last-cons y z (take n ys) h) [
        | inl (_, e') ↦ rw e' (le_refl _)
        | inr e' ↦ o.0 z (mem_of_take n ys z (mem-last z (take n ys) e'))
      ]))
      (λ later. elim (last-cons y z (take n ys) h) [
        | inl (none_left, _) ↦ absurd (not-mem-nil (rw none_left at later))
        | inr e' ↦ take-le_last n ys z x o.1 e' later
      ])

module _ {P : Row → Type 0} {Q : Row → Type 0} (p : (r : Row) → Dec (P r))
    (q : (r : Row) → Dec (Q r)) where
  pub filter-le :
      (xs : List Row) → ((x : Row) → Q x → P x) → length (filter q xs) ≤ length (filter p xs)
  filter-le [] f = omega arith
  filter-le (x ∷ xs) f = ground (arith, filter-le xs f, f x)

  filter-lt_head :
      (y : Row) (ys : List Row)
      → ((x : Row) → Q x → P x)
      → P y
      → ¬ Q y
      → length (filter q (y ∷ ys)) < length (filter p (y ∷ ys))
  filter-lt_head y ys f py nq = ground (arith, filter-le ys f)

  pub filter-lt :
      (xs : List Row) (x : Row)
      → ((y : Row) → Q y → P y)
      → Mem x xs
      → P x
      → ¬ Q x
      → length (filter q xs) < length (filter p xs)
  filter-lt [] x f m px nq = absurd (not-mem-nil m)
  filter-lt (y ∷ ys) x f m px nq =
      Or.elim le_prop (mem-cons.0 m)
        (λ e. filter-lt_head y ys f (subst P e px) (subst (λ z. ¬ Q z) e nq))
        (λ later. ground (arith, filter-lt ys x f later px nq, f y))

-- A list of rows that all pass a test is its own selection.
pub length-filter_all :
    {P : Row → Type 0} (p : (r : Row) → Dec (P r)) (xs : List Row)
    → ((x : Row) → Mem x xs → P x)
    → length (filter p xs) ≡ length xs
length-filter_all p [] h = refl
length-filter_all p (x ∷ xs) h =
    ground (arith, length-filter_all p xs (λ y m. h y (mem-cons_of_mem x m)), h x mem-cons_self)

pub length-filter-take :
    {P : Row → Type 0} (p : (r : Row) → Dec (P r)) (n : ℕ) (xs : List Row)
    → length (filter p (take n xs)) ≤ length (filter p xs)
length-filter-take p zero xs = omega arith
length-filter-take p (suc n) [] = omega arith
length-filter-take p (suc n) (x ∷ xs) = ground (arith, length-filter-take p n xs)

pub length-filter-filter :
    {P Q : Row → Type 0} (p : (r : Row) → Dec (P r)) (q : (r : Row) → Dec (Q r)) (xs : List Row)
    → length (filter p (filter q xs)) ≤ length (filter p xs)
length-filter-filter p q [] = omega arith
length-filter-filter p q (x ∷ xs) = ground (arith, length-filter-filter p q xs)

pub length-filter_le :
    {P : Row → Type 0} (p : (r : Row) → Dec (P r)) (xs : List Row)
    → length (filter p xs) ≤ length xs
length-filter_le p [] = omega arith
length-filter_le p (x ∷ xs) = ground (arith, length-filter_le p xs)

-- A test that implies another one selects as many of those that pass the other.
pub length-filter_implied :
    {P Q : Row → Type 0} (p : (r : Row) → Dec (P r)) (q : (r : Row) → Dec (Q r)) (xs : List Row)
    → ((x : Row) → P x → Q x)
    → length (filter p xs) ≤ length (filter p (filter q xs))
length-filter_implied p q [] f = omega arith
length-filter_implied p q (x ∷ xs) f = ground (arith, length-filter_implied p q xs f, f x)

pub length-filter_split :
    {P : Row → Type 0} (p : (r : Row) → Dec (P r)) (n : ℕ) (xs : List Row)
    → length (filter p xs) ≡ length (filter p (take n xs)) + length (filter p (drop n xs))
length-filter_split p zero xs = omega arith
length-filter_split p (suc n) [] = omega arith
length-filter_split p (suc n) (x ∷ xs) = ground (arith, length-filter_split p n xs)

pub length-filter_none :
    {P : Row → Type 0} (p : (r : Row) → Dec (P r)) (xs : List Row)
    → ((x : Row) → Mem x xs → ¬ P x)
    → length (filter p xs) ≡ 0
length-filter_none p [] h = refl
length-filter_none p (x ∷ xs) h =
    ground (arith, length-filter_none p xs (λ y m. h y (mem-cons_of_mem x m)), h x mem-cons_self)

pub length-filter_lt :
    {P : Row → Type 0} (p : (r : Row) → Dec (P r)) (xs : List Row) (x : Row)
    → Mem x xs
    → ¬ P x
    → length (filter p xs) < length xs
length-filter_lt p [] x m h = absurd (not-mem-nil m)
length-filter_lt {P} p (y ∷ ys) x m h =
    Or.elim le_prop (mem-cons.0 m)
      (λ e. let no_y : ¬ P y = subst (λ z. ¬ P z) e h in ground (arith, length-filter_le p ys))
      (λ later. ground (arith, length-filter_lt p ys x later h))

pub no_last : (xs : List Row) → last? xs ≡ none → length xs ≡ 0
no_last [] h = refl
no_last (x ∷ []) h = cc
no_last (x ∷ y ∷ ys) h = absurd (ne (omega (arith, no_last (y ∷ ys) h)))
  where
    ne : suc (length ys) ≡ 0 → ⊥
    ne e = omega arith
