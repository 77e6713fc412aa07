-- ===== src/Client/Login.antt =====
-- What login does where the server takes or refuses it.
use networking_nsx_t.Base.{ℕ, zero, suc, ◌+◌, ◌-◌, String, true, ◌≡◌, refl, arith}
use networking_nsx_t.Base.Exec.{error_code, recursion_error, ok, raise, lift, ◌>>=◌}
use networking_nsx_t.Client.Policy.{
  Response, is_client_error, check_response, handle, retry_loop, rest_policy,
}
use networking_nsx_t.Client.Session.{
  SessionState, PostData, form, Http, _get_url, connection_with, new_session, post_with, login,
}

-- An answer to a post that refuses it with an error code of the client errors
pub record Refused {ℓ} {W : Type ℓ} (http : Http W) (posts : W → ℕ) (url : String)
    (form_ : PostData) (s : SessionState W) : Type ℓ where
  pub resp : Response
  pub after : SessionState W
  pub code : ℕ
  pub answered : http.session_post url form_ s ≡ (ok resp, after)
  pub status : is_client_error resp.status_code ≡ true
  pub content : resp.content ≡ error_code code
  pub is_refusal : is_client_error code ≡ true
  pub counted : posts after.world ≡ suc (posts s.world)

module _ {ℓ} {W : Type ℓ} (http : Http W) (posts : W → ℕ)
    (refuses : (url : String) (data_ : PostData) (s : SessionState W)
      → Refused http posts url data_ s) where
  -- The end of a login that goes as deep as the interpreter lets it
  abbrev pub RunsOut : ℕ → SessionState W → Type ℓ
  RunsOut depth s =
      (after : SessionState W) × (login http depth s ≡ (raise recursion_error, after))
      × (posts after.world ≡ posts s.world + depth)

  loop-RunsOut :
      (depth left : ℕ) (path : String) (data_ : PostData) (s : SessionState W)
      → ((s' : SessionState W) → RunsOut depth s')
      → (after : SessionState W) × (retry_loop
            (connection_with http (login http depth))
            left
            (http.session_post (_get_url http path) data_ >>= λ resp. lift (check_response resp))
            s
          ≡ (raise recursion_error, after))
        × (posts after.world ≡ posts s.world + suc depth)
  unfolding retry_loop handle check_response
  loop-RunsOut depth zero path data_ s deeper =
      let r = refuses (_get_url http path) data_ s in
      let (after, ran, count) = deeper r.after in
      (
        after,
        rw (r.answered, r.status, r.content, r.is_refusal, ran) refl,
        omega (arith, count, r.counted),
      )
  loop-RunsOut depth (suc left) path data_ s deeper =
      let r = refuses (_get_url http path) data_ s in
      let (after, ran, count) = deeper r.after in
      (
        after,
        rw (r.answered, r.status, r.content, r.is_refusal, ran) refl,
        omega (arith, count, r.counted),
      )

  -- A server that refuses each login with the code of a client error is asked again and again: the
  -- login does not end with the failure of the policy after the configured attempts, but with the
  -- interpreter's RuntimeError, and by then it has posted once for each level of the nesting.
  pub login-RunsOut : (depth : ℕ) (s : SessionState W) → RunsOut depth s
  unfolding login post_with rest_policy
  login-RunsOut zero s = (s, refl, omega arith)
  login-RunsOut (suc depth) s =
      let (after, ran, count) =
        loop-RunsOut depth (http.retry_count - 1) "/api/session/create"
          (form http.nsxv3_login_user http.nsxv3_login_password) (new_session http s)
          (login-RunsOut depth) in
      (after, rw ran refl, count)
