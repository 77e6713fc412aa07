-- ===== src/Base/Exec.antt =====
-- Methods that change a state and may raise. What was changed before a raise stays changed, so
-- the state comes back beside the exception too.
use Prim.Native.Nat.{ℕ}
use mathlib.Core.Path.{◌≡◌, refl}
use mathlib.Core.Logic.{◌⊎◌, inl, inr}
use mathlib.Core.Option.{Option, none, some}

-- What the server's message says of an error: nothing, a JSON text with an error code, or a text
-- that is no JSON.
pub data Messages : Type 0 where
  no_messages : Messages
  error_code : ℕ → Messages
  malformed : Messages

-- The exceptions that the program raises or lets through.
pub data Exception : Type 0 where
  key_error value_error type_error index_error attribute_error : Exception
  not_found ambiguous anomaly : Exception
  unauthorized : Messages → Exception
  http_unsuccessful connection_error retries_exhausted sdk_error : Exception
  not_authenticated task_failed other_network_type multiple_results no_such_method recursion_error :
      Exception

pub data Result {ℓ} (A : Type ℓ) : Type ℓ where
  ok : A → Result A
  raise : Exception → Result A

abbrev pub Exec {ℓ κ} : Type ℓ → Type κ → Type (ℓ ⊔ κ)
Exec S A = S → Result A × S

pub Result-cases {ℓ} :
    {A : Type ℓ} (r : Result A) → ((a : A) × (r ≡ ok a)) ⊎ ((e : Exception) × (r ≡ raise e))
Result-cases (ok a) = inl (a, refl)
Result-cases (raise e) = inr (e, refl)

-- Results alone, for code that changes nothing.
abbrev pub and_then {ℓ κ} : {A : Type ℓ} {B : Type κ} → Result A → (A → Result B) → Result B
and_then (ok a) f = f a
and_then (raise e) f = raise e

abbrev pub from_option {ℓ} : {A : Type ℓ} → Exception → Option A → Result A
from_option e none = raise e
from_option e (some a) = ok a

module _ {ℓ κ} {S : Type ℓ} {A : Type κ} where
  abbrev pub pure : A → Exec S A
  pure a s = (ok a, s)

  abbrev pub throw : Exception → Exec S A
  throw e s = (raise e, s)

  abbrev pub lift : Result A → Exec S A
  lift r s = (r, s)

  abbrev pub gets : (S → A) → Exec S A
  gets f s = (ok (f s), s)

module _ {ℓ κ μ} {S : Type ℓ} {A : Type κ} {B : Type μ} where
  abbrev pub continue : Result A × S → (A → Exec S B) → Result B × S
  continue (ok a, s) f = f a s
  continue (raise e, s) f = (raise e, s)

  infixl 10 ◌>>=◌ ◌>>◌
  abbrev pub ◌>>=◌ : Exec S A → (A → Exec S B) → Exec S B
  ◌>>=◌ m f s = continue (m s) f

  abbrev pub ◌>>◌ : Exec S A → Exec S B → Exec S B
  m >> n = m >>= λ _. n
