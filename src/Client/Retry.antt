-- ===== src/Client/Retry.antt =====
-- The retry policy of the client: which attempts are made, and what comes out.
use networking_nsx_t.Base.{
  ℕ, zero, suc, ◌-◌, ◌≤◌, ◌<◌, ◌≡◌, ◌≢◌, refl, ◌∙◌, ap, ◌⊎◌, inl, inr, arith, leb, Bool-cases,
}
use networking_nsx_t.Base.Exec.{
  no_messages, error_code, malformed, Exception, unauthorized, http_unsuccessful, connection_error,
  retries_exhausted, Result, ok, raise, Exec, lift, ◌>>=◌,
}
use networking_nsx_t.Client.Policy.{
  Connection, Response, is_client_error, check_response, handle, retry_loop, sdk_policy,
  rest_policy,
}

module _ {ℓ κ} {W : Type ℓ} {A : Type κ} where
  Pair-cases :
      (p : Result A × W)
      → ((a : A) × (v : W) × (p ≡ (ok a, v))) ⊎ ((e : Exception) × (v : W) × (p ≡ (raise e, v)))
  Pair-cases (ok a, v) = inl (a, v, refl)
  Pair-cases (raise e, v) = inr (e, v, refl)

module _ {ℓ} {W : Type ℓ} where
  Handle-cases :
      (p : Result (Unit {0}) × W)
      → ((v : W) × (p ≡ (ok tt, v))) ⊎ ((e : Exception) × (v : W) × (p ≡ (raise e, v)))
  Handle-cases (ok t, v) = inl (v, refl)
  Handle-cases (raise e, v) = inr (e, v, refl)

module _ {ℓ κ} {W : Type ℓ} {A : Type κ} (connection : Connection W) (func : Exec W A) where
  -- Failed n u v: from the state u, n attempts in a row failed with an error that the policy
  -- handles, each followed by a pause, and the next attempt starts in v.
  pub data Failed : ℕ → W → W → Type (ℓ ⊔ κ) where
    start : (w : W) → Failed 0 w w
    again :
        {n : ℕ} {u v : W} (v' v'' : W) (e : Exception)
        → func u ≡ (raise e, v')
        → handle connection e v' ≡ (ok tt, v'')
        → Failed n (connection.pause v'') v
        → Failed (suc n) u v

  -- The attempt in v ends the call with the outcome o: it returns, or its error is not handled.
  pub data Settles (v : W) : Result A × W → Type (ℓ ⊔ κ) where
    returns : (a : A) (v' : W) → func v ≡ (ok a, v') → Settles v (ok a, v')
    escapes :
        (e e' : Exception) (v' v'' : W)
        → func v ≡ (raise e, v')
        → handle connection e v' ≡ (raise e', v'')
        → Settles v (raise e', v'')

  -- The attempt in v is the last one and fails too.
  pub data Exhausts (v : W) : Result A × W → Type (ℓ ⊔ κ) where
    exhausted :
        (e : Exception) (v' v'' : W)
        → func v ≡ (raise e, v')
        → handle connection e v' ≡ (ok tt, v'')
        → Exhausts v (raise retries_exhausted, v'')

  -- The outcome o of a call in w with `last` attempts after the first.
  abbrev pub Outcome : ℕ → W → Result A × W → Type (ℓ ⊔ κ)
  Outcome last w o =
      ((n : ℕ) × (n ≤ last) × (v : W) × Failed n w v × Settles v o)
      ⊎ ((v : W) × Failed last w v × Exhausts v o)

  retry_loop-Outcome : (last : ℕ) (w : W) → Outcome last w (retry_loop connection last func w)
  unfolding retry_loop
  retry_loop-Outcome zero w = elim (Pair-cases (func w)) [
    | inl (a, v, f) ↦ rw (retry_loop, f) (inl (0, omega arith, w, start w, returns a v f))
    | inr (e, v, f) ↦ elim (Handle-cases (handle connection e v)) [
      | inl (u, h) ↦ rw (retry_loop, f, h) (inr (w, start w, exhausted e v u f h))
      | inr (e', u, h) ↦
          rw (retry_loop, f, h) (inl (0, omega arith, w, start w, escapes e e' v u f h))
    ]
  ]
  retry_loop-Outcome (suc last) w = elim (Pair-cases (func w)) [
    | inl (a, v, f) ↦ rw (retry_loop, f) (inl (0, omega arith, w, start w, returns a v f))
    | inr (e, v, f) ↦ elim (Handle-cases (handle connection e v)) [
      | inr (e', u, h) ↦
          rw (retry_loop, f, h) (inl (0, omega arith, w, start w, escapes e e' v u f h))
      | inl (u, h) ↦
          rw (retry_loop, f, h)
            (elim (retry_loop-Outcome last (connection.pause u)) [
              | inl (n, le, x, fails, s) ↦ inl (suc n, omega arith, x, again v u e f h fails, s)
              | inr (x, fails, s) ↦ inr (x, again v u e f h fails, s)
            ])
    ]
  ]

-- A method under the "sdk" policy makes at most as many attempts as are configured (one, if none
-- are). After some attempts that failed with an error that the policy handles, a pause after each,
-- either an attempt returns and the call returns its value, or an attempt's error is not handled
-- and the call raises what the handler raises, or every attempt has failed and the call raises.
pub sdk_policy-Outcome {ℓ κ} :
    {W : Type ℓ} {A : Type κ} (connection : Connection W) (func : Exec W A) (w : W)
    → Outcome connection func (connection.retry_count - 1) w (sdk_policy connection func w)
unfolding sdk_policy
sdk_policy-Outcome connection func w =
    retry_loop-Outcome connection func (connection.retry_count - 1) w

check_response-lt : (r a : Response) → check_response r ≡ ok a → a.status_code < 300
unfolding check_response
check_response-lt r a h = elim (Bool-cases (is_client_error r.status_code)) [
  | inl bad ↦ let no : raise (unauthorized r.content) ≡ ok a = rw bad at h in absurd cc
  | inr fine ↦ elim (Bool-cases (leb 300 r.status_code)) [
    | inl bad ↦ let no : raise http_unsuccessful ≡ ok a = rw (fine, bad) at h in absurd cc
    | inr low ↦
        let same : ok r ≡ ok a = rw (fine, low) at h in
        let e : r ≡ a = cc in rw (← e) (ground arith)
  ]
]

module _ {ℓ} {W : Type ℓ} where
  abbrev Calm : Connection W → Type ℓ
  Calm connection = (u u' : W) → connection.login u ≢ (raise connection_error, u')

  returned-lt :
      (func : Exec W Response) (v v' : W) (a : Response)
      → (func >>= λ resp. lift (check_response resp)) v ≡ (ok a, v')
      → a.status_code < 300
  returned-lt func v v' a h = elim (Pair-cases (func v)) [
    | inl (r, u, f) ↦
        let g : (check_response r, u) ≡ (ok a, v') = rw f at h in check_response-lt r a cc
    | inr (e, u, f) ↦ let g : (raise e, u) ≡ (ok a, v') = rw f at h in absurd cc
  ]

  handle-Calm :
      (connection : Connection W) (e : Exception) (v v' : W)
      → Calm connection
      → handle connection e v ≢ (raise connection_error, v')
  unfolding handle
  handle-Calm connection connection_error v v' calm h = cc
  handle-Calm connection (unauthorized no_messages) v v' calm h = cc
  handle-Calm connection (unauthorized malformed) v v' calm h = cc
  handle-Calm connection (unauthorized (error_code n)) v v' calm h =
      elim (Bool-cases (is_client_error n)) [
        | inl expired ↦ calm v v' (rw expired at h)
        | inr other ↦
            let no : (raise (unauthorized (error_code n)), v) ≡ (raise connection_error, v') =
              rw other at h in
            cc
      ]
  handle-Calm connection e v v' calm h = cc

  -- What may come out of a "rest" call
  abbrev pub IsRestOutcome : Result Response × W → Type 0
  IsRestOutcome (ok resp, w) = resp.status_code < 300
  IsRestOutcome (raise e, w) = e ≢ connection_error

  Settles-IsRestOutcome :
      (connection : Connection W) (func : Exec W Response) (v : W) (o : Result Response × W)
      → Calm connection
      → Settles connection (func >>= λ resp. lift (check_response resp)) v o
      → IsRestOutcome o
  Settles-IsRestOutcome connection func v o calm (returns a v' f) = returned-lt func v v' a f
  Settles-IsRestOutcome connection func v o calm (escapes e e' v' v'' f h) =
      λ same. handle-Calm connection e v' v'' calm (h ∙ ap (λ x. (raise x, v'')) same)

  Exhausts-IsRestOutcome :
      (connection : Connection W) (func : Exec W Response) (v : W) (o : Result Response × W)
      → Exhausts connection func v o
      → IsRestOutcome o
  Exhausts-IsRestOutcome connection func v o (exhausted e v' v'' f h) = λ same. cc

module _ {ℓ} {W : Type ℓ} (connection : Connection W) (func : Exec W Response) where
  -- An attempt of a "rest" call: the call and the tests on its response
  abbrev pub checked : Exec W Response
  checked = func >>= λ resp. lift (check_response resp)

  -- A response that is returned has a status below 300.
  abbrev pub IsSuccess : Result Response × W → Type 0
  IsSuccess (ok resp, w) = resp.status_code < 300
  IsSuccess (raise e, w) = Unit

  Settles-IsSuccess :
      (v : W) (o : Result Response × W) → Settles connection checked v o → IsSuccess o
  Settles-IsSuccess v o (returns a v' f) = returned-lt func v v' a f
  Settles-IsSuccess v o (escapes e e' v' v'' f h) = tt

  Exhausts-IsSuccess :
      (v : W) (o : Result Response × W) → Exhausts connection checked v o → IsSuccess o
  Exhausts-IsSuccess v o (exhausted e v' v'' f h) = tt

  Outcome-IsSuccess :
      (last : ℕ) (w : W) (o : Result Response × W)
      → Outcome connection checked last w o
      → IsSuccess o
  Outcome-IsSuccess last w o (inl (n, le, v, fails, s)) = Settles-IsSuccess v o s
  Outcome-IsSuccess last w o (inr (v, fails, x)) = Exhausts-IsSuccess v o x

  pub rest_policy-Outcome :
      (w : W)
      → Outcome connection checked (connection.retry_count - 1) w (rest_policy connection func w)
        × IsSuccess (rest_policy connection func w)
  unfolding rest_policy
  rest_policy-Outcome w =
      let o = retry_loop-Outcome connection checked (connection.retry_count - 1) w in
      (o, Outcome-IsSuccess _ w _ o)

-- A "rest" call, whatever the server does and however often it is repeated, returns only responses
-- with a status below 300, and lets no connection error through, if the login lets none through.
pub rest_policy-IsRestOutcome {ℓ} :
    {W : Type ℓ} (connection : Connection W) (func : Exec W Response) (w : W)
    → ((u u' : W) → connection.login u ≢ (raise connection_error, u'))
    → IsRestOutcome (rest_policy connection func w)
unfolding rest_policy
rest_policy-IsRestOutcome connection func w calm =
    let checked = func >>= λ resp. lift (check_response resp) in
    elim (retry_loop-Outcome connection checked (connection.retry_count - 1) w) [
      | inl (n, le, v, fails, s) ↦ Settles-IsRestOutcome connection func v _ calm s
      | inr (v, fails, x) ↦ Exhausts-IsRestOutcome connection checked v _ x
    ]
