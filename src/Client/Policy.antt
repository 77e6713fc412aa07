-- ===== src/Client/Policy.antt =====
-- The decorator connection_retry_policy and NSXv3Client.retry_until_result of
-- networking_nsxv3/plugins/ml2/drivers/nsxv3/agent/nsxv3_client.py.
use networking_nsx_t.Base.{
  ℕ, zero, suc, ◌-◌, Bool, true, false, ◌&&◌, Option, none, some, List, [], ◌∷◌, ltb, leb,
  if◌then◌else◌,
}
use networking_nsx_t.Base.Exec.{
  Messages, no_messages, error_code, malformed, Exception, unauthorized, http_unsuccessful,
  connection_error, value_error, retries_exhausted, Result, ok, raise, Exec, throw, lift, ◌>>=◌,
  ◌>>◌,
}

-- What the policy uses of the client and its configuration. `pause` is the sleep
-- between attempts, and `operation_pause` that of retry_until_result.
pub record Connection {ℓ} (W : Type ℓ) : Type ℓ where
  pub login : Exec W (Unit {0})
  pub pause : W → W
  pub operation_pause : W → W
  pub retry_count : ℕ

-- An HTTP response. `content` is read on errors only.
pub record Response : Type 0 where
  pub status_code : ℕ
  pub content : Messages

-- `n > 400 and n < 500`
abbrev pub is_client_error : ℕ → Bool
is_client_error n = ltb 400 n && ltb n 500

-- The tests on the response of a "rest" call
unfoldable pub check_response : Response → Result Response
check_response resp =
    if is_client_error resp.status_code
    then raise (unauthorized resp.content)
    else if leb 300 resp.status_code
    then raise http_unsuccessful
    else ok resp

module _ {ℓ} {W : Type ℓ} (connection : Connection W) where
  -- The except clauses. They end where the attempt is repeated, and raise where it is not.
  unfoldable pub handle : Exception → Exec W (Unit {0})
  handle connection_error w = (ok tt, w)
  handle (unauthorized no_messages) w = (raise (unauthorized no_messages), w)
  handle (unauthorized (error_code n)) w =
      if is_client_error n then connection.login w else (raise (unauthorized (error_code n)), w)
  handle (unauthorized malformed) w = (raise value_error, w)
  handle e w = (raise e, w)

module _ {ℓ κ} {W : Type ℓ} {A : Type κ} (connection : Connection W) where
  -- One round of the loop; `again` is what follows the except clauses.
  abbrev pub attempt : Exec W A → Result A × W → Result A × W
  attempt again (ok a, w) = (ok a, w)
  attempt again (raise e, w) = (handle connection e >> again) w

  -- The `while True` loop; the first argument is `until - now`, so `now > until` is where it was 0.
  unfoldable pub retry_loop : ℕ → Exec W A → Exec W A
  unfolding handle
  retry_loop zero func w = attempt (throw retries_exhausted) (func w)
  retry_loop (suc left) func w = attempt (λ w'. retry_loop left func (connection.pause w')) (func w)

  -- The policy of an "sdk" method: `now` starts at 1.
  unfoldable pub sdk_policy : Exec W A → Exec W A
  unfolding retry_loop
  sdk_policy func = retry_loop (connection.retry_count - 1) func

-- The policy of a "rest" method
unfoldable pub rest_policy {ℓ} : {W : Type ℓ} → Connection W → Exec W Response → Exec W Response
unfolding retry_loop check_response
rest_policy connection func =
    retry_loop connection (connection.retry_count - 1) (func >>= λ resp. lift (check_response resp))

-- `for _ in range(1, retry_max + 1)`; `resp` starts as None, and a list is false where it is empty.
module _ {ℓ κ} {W : Type ℓ} {A : Type κ} (sleep : W → W) where
  abbrev pub has_result : Option (List A) → Bool
  has_result none = false
  has_result (some []) = false
  has_result (some (a ∷ l)) = true

  unfoldable pub until_loop : ℕ → Exec W (List A) → Option (List A) → Exec W (Option (List A))
  until_loop zero operation resp w = (ok resp, w)
  until_loop (suc left) operation resp w =
      (operation >>= λ l w'.
      let rest = until_loop left operation (some l) (sleep w') in
      if has_result (some l) then (ok (some l), w') else rest)
        w

  unfoldable pub retry_until_result : ℕ → Exec W (List A) → Exec W (Option (List A))
  unfolding until_loop
  retry_until_result retry_max operation = until_loop retry_max operation none
