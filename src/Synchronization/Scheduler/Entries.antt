-- ===== src/Synchronization/Scheduler/Entries.antt =====
-- Facts about the entries of a schedule: their places, and the expired ones at the front.
use networking_nsx_t.Base.{
  ℕ, zero, suc, ◌+◌, ◌-◌, ◌≤◌, ◌<◌, ◌≡◌, refl, ◌∙◌, ap, some, List, [], ◌∷◌, ◌++◌, ◌⊎◌, inl, inr,
  arith, length, ltb, Bool-cases, get_elem?, All,
}
use mathlib.Core.Path.{subst}
use networking_nsx_t.Synchronization.Scheduler.{pop_expired}

-- Entries that are `rate` places apart are at least `limit` ticks apart.
abbrev pub IsSpaced : ℕ → ℕ → List ℕ → Type 0
IsSpaced rate limit history =
    (i a b : ℕ)
    → get_elem? history i ≡ some a
    → get_elem? history (i + rate) ≡ some b
    → a + limit ≤ b

pub get_elem?-snoc :
    (xs : List ℕ) (v i : ℕ) {b : ℕ}
    → get_elem? (xs ++ v ∷ []) i ≡ some b
    → (get_elem? xs i ≡ some b) × (i < length xs) ⊎ (i ≡ length xs) × (b ≡ v)
get_elem?-snoc [] v zero h = inr (refl, cc)
get_elem?-snoc [] v (suc i) h = cc
get_elem?-snoc (x ∷ xs) v zero h = inl (h, omega arith)
get_elem?-snoc (x ∷ xs) v (suc i) h = elim (get_elem?-snoc xs v i h) [
  | inl (e, l) ↦ inl (e, omega arith)
  | inr (e, l) ↦ inr (ap suc e, l)
]

pub get_elem?-lt : (xs : List ℕ) (i : ℕ) {b : ℕ} → get_elem? xs i ≡ some b → i < length xs
get_elem?-lt [] i h = cc
get_elem?-lt (x ∷ xs) zero h = omega arith
get_elem?-lt (x ∷ xs) (suc i) h = omega (arith, get_elem?-lt xs i h)

pub IsSpaced-snoc :
    (rate limit v : ℕ) (xs : List ℕ)
    → 0 < rate
    → IsSpaced rate limit xs
    → ((i a : ℕ) → i + rate ≡ length xs → get_elem? xs i ≡ some a → a + limit ≤ v)
    → IsSpaced rate limit (xs ++ v ∷ [])
IsSpaced-snoc rate limit v xs pos h k i a b ha hb = elim (get_elem?-snoc xs v i ha) [
  | inl (ea, _) ↦ elim (get_elem?-snoc xs v (i + rate) hb) [
    | inl (eb, _) ↦ h i a b ea eb
    | inr (at_end, b≡v) ↦ omega (arith, k i a at_end ea)
  ]
  | inr (at_end, _) ↦ elim (get_elem?-snoc xs v (i + rate) hb) [
    | inl (_, inside) ↦ absurd (omega arith)
    | inr (also, _) ↦ absurd (omega arith)
  ]
]

pub get_elem?-append_left :
    (xs ys : List ℕ) (i : ℕ) → i < length xs → get_elem? (xs ++ ys) i ≡ get_elem? xs i
get_elem?-append_left [] ys i h = absurd (omega arith)
get_elem?-append_left (x ∷ xs) ys zero h = refl
get_elem?-append_left (x ∷ xs) ys (suc i) h = get_elem?-append_left xs ys i (omega arith)

pub get_elem?-append_right :
    (xs ys : List ℕ) (i : ℕ) → length xs ≤ i → get_elem? (xs ++ ys) i ≡ get_elem? ys (i - length xs)
get_elem?-append_right [] ys i h = ap (get_elem? ys) (omega arith)
get_elem?-append_right (x ∷ xs) ys zero h = absurd (omega arith)
get_elem?-append_right (x ∷ xs) ys (suc i) h =
    get_elem?-append_right xs ys i (omega arith) ∙ ap (get_elem? ys) (omega arith)

pub All-get_elem? :
    (P : ℕ → Type 0) (xs : List ℕ) (i : ℕ) {a : ℕ} → All P xs → get_elem? xs i ≡ some a → P a
All-get_elem? P [] i h e = cc
All-get_elem? P (x ∷ xs) zero h e = let same : x ≡ _ = cc in subst P same h.0
All-get_elem? P (x ∷ xs) (suc i) h e = All-get_elem? P xs i h.1 e

pub pop_expired-split :
    (limit now : ℕ) (xs : List ℕ)
    → (gone : List ℕ) × (xs ≡ gone ++ pop_expired limit now xs) × All (λ x. x + limit ≤ now) gone
unfolding pop_expired
pop_expired-split limit now [] = ([], refl, tt)
pop_expired-split limit now (x ∷ xs) = elim (Bool-cases (ltb (x + limit) now)) [
  | inl is_old ↦
      let (gone, e, all) = pop_expired-split limit now xs in
      (x ∷ gone, rw is_old (ap (λ l. x ∷ l) e), (ground arith, all))
  | inr is_new ↦ ([], rw is_new, tt)
]

pub All-append {κ} : (P : ℕ → Type κ) (xs ys : List ℕ) → All P xs → All P ys → All P (xs ++ ys)
All-append P [] ys h k = k
All-append P (x ∷ xs) ys h k = (h.0, All-append P xs ys h.1 k)

pub All-map {κ μ} :
    {P : ℕ → Type κ} {Q : ℕ → Type μ} (xs : List ℕ) → ((x : ℕ) → P x → Q x) → All P xs → All Q xs
All-map [] f h = tt
All-map (x ∷ xs) f h = (f x h.0, All-map xs f h.1)
