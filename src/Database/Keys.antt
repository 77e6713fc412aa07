-- ===== src/Database/Keys.antt =====
-- Rows by a key that no two rows of the table share.
use networking_nsx_t.Base.{
  String, Bool, true, false, not, ◌&&◌, Option, none, some, List, [], ◌∷◌, map, ◌≡◌, refl, arith,
  ◌==◌, if◌then◌else◌, keep, any_of, inl, inr, Bool-cases,
}

-- The first row that passes a test
abbrev pub find {ℓ} : {A : Type ℓ} → (A → Bool) → List A → Option A
find p [] = none
find p (a ∷ rows) = let rest = find p rows in if p a then some a else rest

abbrev pub to_list {ℓ} : {A : Type ℓ} → Option A → List A
to_list none = []
to_list (some a) = a ∷ []

abbrev pub are_distinct {ℓ} : {K : Type ℓ} → (K → K → Bool) → List K → Bool
are_distinct eq [] = true
are_distinct eq (k ∷ ks) = not (any_of (λ j. eq j k) ks) && are_distinct eq ks

abbrev pub text_eq : String → String → Bool
text_eq s t = s == t

not_left : (b c : Bool) → (not b && c) ≡ true → b ≡ false
not_left b c h = ground arith

not_right : (b c : Bool) → (not b && c) ≡ true → c ≡ true
not_right b c h = ground arith

module _ {ℓ κ} {A : Type ℓ} {K : Type κ} (eq : K → K → Bool)
    (sound : (j k : K) → eq j k ≡ true → j ≡ k) (key : A → K) where
  keep-absent :
      (k : K) (rows : List A)
      → any_of (λ j. eq j k) (map key rows) ≡ false
      → keep (λ a. eq (key a) k) rows ≡ []
  keep-absent k [] h = refl
  keep-absent k (a ∷ rows) h = ground (arith, keep-absent k rows)

  pub keep-key :
      (k : K) (rows : List A)
      → are_distinct eq (map key rows) ≡ true
      → keep (λ a. eq (key a) k) rows ≡ to_list (find (λ a. eq (key a) k) rows)
  keep-key k [] h = refl
  keep-key k (a ∷ rows) h = elim (Bool-cases (eq (key a) k)) [
    | inl here ↦
        let absent : any_of (λ j. eq j k) (map key rows) ≡ false =
          rw (← sound (key a) k here) (not_left _ _ h) in
        rw (here, keep-absent k rows absent) refl
    | inr there ↦ rw there (keep-key k rows (not_right _ _ h))
  ]
