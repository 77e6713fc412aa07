-- ===== src/Base/Keeps.antt =====
-- Predicates of the state that methods keep, however they end.
use mathlib.Core.Path.{◌≡◌}
use mathlib.Core.Option.{Option, none, some}
use mathlib.Core.Bool.{Bool, true}
use networking_nsx_t.Base.Exec.{
  Exception, Result, ok, raise, Exec, pure, throw, lift, continue, ◌>>=◌,
}

abbrev pub Keeps {ℓ κ μ} : {S : Type ℓ} {A : Type κ} → (S → Type μ) → Exec S A → Type (ℓ ⊔ μ)
Keeps {S = S} P m = (s : S) → P s → P ((m s).1)

module _ {ℓ μ} {S : Type ℓ} where
  pub keeps_pure {κ} : {A : Type κ} (P : S → Type μ) (a : A) → Keeps P (pure a)
  keeps_pure P a s p = p

  pub keeps_throw {κ} : (A : Type κ) (P : S → Type μ) (e : Exception) → Keeps {A = A} P (throw e)
  keeps_throw A P e s p = p

  pub keeps_lift {κ} : {A : Type κ} (P : S → Type μ) (r : Result A) → Keeps P (lift r)
  keeps_lift P r s p = p

  pub keeps_continue {κ ν} :
      {A : Type κ} {B : Type ν} (P : S → Type μ) (r : Result A × S) (f : A → Exec S B)
      → P (r.1)
      → ((a : A) → Keeps P (f a))
      → P ((continue r f).1)
  keeps_continue P (ok a, s) f p k = k a s p
  keeps_continue P (raise e, s) f p k = p

  pub keeps_bind {κ ν} :
      {A : Type κ} {B : Type ν} (P : S → Type μ) (m : Exec S A) (f : A → Exec S B)
      → Keeps P m
      → ((a : A) → Keeps P (f a))
      → Keeps P (m >>= f)
  keeps_bind P m f km kf s p = keeps_continue P (m s) f (km s p) kf

-- What a method returns, where it returns
abbrev pub ReturnsIn {κ μ} : {A : Type κ} → (A → Type μ) → Result A → Type μ
ReturnsIn Q (ok a) = Q a
ReturnsIn Q (raise e) = Unit

abbrev pub Ends {ℓ κ μ} : {S : Type ℓ} {A : Type κ} → (A → Type μ) → Exec S A → Type (ℓ ⊔ μ)
Ends {S = S} Q m = (s : S) → ReturnsIn Q ((m s).0)

-- A value that is found passes the test.
abbrev pub Found {κ} : {A : Type κ} → (A → Bool) → Option A → Type 0
Found p none = Unit
Found p (some a) = p a ≡ true

module _ {ℓ κ ν μ} {S : Type ℓ} {A : Type κ} {B : Type ν} (m : Exec S A) (f : A → Exec S B) where
  continue-Ends :
      (Q : B → Type μ) (o : Result A × S)
      → ((a : A) → Ends Q (f a))
      → ReturnsIn Q ((continue o f).0)
  continue-Ends Q (ok a, s) k = k a s
  continue-Ends Q (raise e, s) k = tt

  -- What `f` returns
  pub bind-Ends : (Q : B → Type μ) → ((a : A) → Ends Q (f a)) → Ends Q (m >>= f)
  bind-Ends Q k s = continue-Ends Q (m s) k

  keeps_continue_when :
      (P : S → Type μ) (Q : A → Type 0) (o : Result A × S)
      → P (o.1)
      → ReturnsIn Q (o.0)
      → ((a : A) → Q a → Keeps P (f a))
      → P ((continue o f).1)
  keeps_continue_when P Q (ok a, s) p q k = k a q s p
  keeps_continue_when P Q (raise e, s) p q k = p

  -- What follows keeps the predicate for the values that `m` returns.
  pub keeps_bind_when :
      (P : S → Type μ) (Q : A → Type 0)
      → Keeps P m
      → Ends Q m
      → ((a : A) → Q a → Keeps P (f a))
      → Keeps P (m >>= f)
  keeps_bind_when P Q km em k s p = keeps_continue_when P Q (m s) (km s p) (em s) k
