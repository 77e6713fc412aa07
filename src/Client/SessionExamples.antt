-- ===== src/Client/SessionExamples.antt =====
-- Servers that take and refuse a login.
use networking_nsx_t.Base.{
  ℕ, suc, String, true, false, Option, none, some, List, [], ◌∷◌, ◌≡◌, refl,
}
use networking_nsx_t.Base.Dict.{insert, lookup}
use networking_nsx_t.Base.Exec.{error_code, no_messages, Result, ok}
use networking_nsx_t.Client.Policy.{Response, check_response, retry_loop, rest_policy, handle}
use networking_nsx_t.Client.Queries.{results_of}
use networking_nsx_t.Client.Session.{
  SessionState, PostData, Http, check_login, base_url, _get_url, post_with, login, _post, _query,
}
use networking_nsx_t.Client.Login.{Refused, RunsOut, login-RunsOut}

-- The world counts the posts.
abbrev answers : Response → Http ℕ
answers resp = record {
  nsxv3_login_hostname = "nsx";
  nsxv3_login_port = "443";
  nsxv3_login_user = "admin";
  nsxv3_login_password = "secret";
  nsxv3_suppress_ssl_wornings = true;
  retry_count = 10;
  sleep = λ s. s;
  session_post = λ url data_ s. (ok resp, record s { world = suc s.world });
  session_delete = λ url s. (ok resp, s);
  headers_of = λ r. ("Set-Cookie", "c-1") ∷ [];
}

abbrev refusing : Http ℕ
refusing = answers (record { status_code = 403; content = error_code 403 })

abbrev taking : Http ℕ
taking = answers (record { status_code = 200; content = no_messages })

abbrev start : SessionState ℕ
start = record { verify = true; headers = []; stub_config = false; world = 0 }

refuses :
    (url : String) (data_ : PostData) (s : SessionState ℕ) → Refused refusing (λ w. w) url data_ s
refuses url data_ s = record {
  resp = record { status_code = 403; content = error_code 403 };
  after = record s { world = suc s.world };
  code = 403;
  answered = refl;
  status = refl;
  content = refl;
  is_refusal = refl;
  counted = refl;
}

login-RunsOut_example : RunsOut refusing (λ w. w) refuses 1000 start
login-RunsOut_example = login-RunsOut refusing (λ w. w) refuses 1000 start

-- Test: a login that is taken sets the four headers, and None for the header that is missing.
logged_in : login taking 3 start ≡ (
  ok tt,
  record {
    verify = false;
    headers =
        ("Cookie", some "c-1")
        ∷ ("X-XSRF-TOKEN", none)
        ∷ ("Accept", some "application/json")
        ∷ ("Content-Type", some "application/json")
        ∷ [];
    stub_config = true;
    world = 1;
  },
)
unfolding login post_with rest_policy retry_loop check_response check_login handle insert lookup
logged_in = refl

abbrev loads : Response → Result (Option (Option (List String)))
loads resp = ok (some (some ("hit" ∷ [])))

-- Test: a search whose response has one hit
found :
    _query taking 3 loads (λ s. []) "NSGroup" "display_name" ("g-1" ∷ []) [] "" 50 (some 0) start
    ≡ (ok ("hit" ∷ []), record start { world = 1 })
unfolding _query _post post_with rest_policy retry_loop check_response handle results_of
found = refl

url : _get_url taking "/api/session/create" ≡ "https://nsx:443/api/session/create"
unfolding _get_url base_url
url = refl
