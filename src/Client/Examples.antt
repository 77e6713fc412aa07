-- ===== src/Client/Examples.antt =====
-- A server whose search finds a new object two pauses later, and a method that fails twice.
use networking_nsx_t.Base.{
  ℕ, ◌+◌, ◌≡◌, ◌≢◌, refl, String, ◌&&◌, Option, none, some, List, [], ◌∷◌, ◌==◌, leb, ltb, elem,
  if◌then◌else◌,
}
use networking_nsx_t.Base.Exec.{error_code, connection_error, ok, raise, Exec}
use networking_nsx_t.Client.Policy.{
  Connection, Response, handle, retry_loop, sdk_policy, rest_policy, check_response,
}
use networking_nsx_t.Client.Retry.{Outcome, sdk_policy-Outcome}
use networking_nsx_t.Client.Operations.{Service, get, get_body, get_hits}

record Server : Type 0 where
  clock : ℕ
  names : List String

record Model : Type 0 where
  id : Option String
  name : Option String

abbrev connection : Connection Server
connection = record {
  login = λ w. (ok tt, w);
  pause = λ w. record w { clock = w.clock + 1 };
  operation_pause = λ w. record w { clock = w.clock + 1 };
  retry_count = 3;
}

abbrev hits : String → Server → List String
hits name w =
    if name == "twins"
    then "1" ∷ "2" ∷ []
    else if elem name w.names && leb 2 w.clock
    then "7" ∷ []
    else []

abbrev service : Service Server Model
service = record {
  id = λ o. o.id;
  display_name = λ o. o.name;
  as_model = λ model o. o;
  svc_get = λ id w. (ok (record { id = some id; name = some "old" }), w);
  svc_create = λ o w. (ok (record o { id = some "7" }), record w { names = "new" ∷ w.names });
  svc_update = λ id o w. (ok o, w);
  svc_delete = λ id w. (ok tt, w);
  svc_list = λ key value w. (ok [], w);
  query = λ name w. (ok (hits name w), w);
}

abbrev server : ℕ → Server
server t = record { clock = t; names = "old" ∷ [] }

abbrev with_new : ℕ → Server
with_new t = record { clock = t; names = "new" ∷ "old" ∷ [] }

abbrev model : String → Model
model name = record { id = none; name = some name }

abbrev stored : String → String → Model
stored id name = record { id = some id; name = some name }

abbrev Finds : String → Server → Option Model → Server → Type 0
Finds name w o w' = get connection service 5 (model name) w ≡ (ok o, w')

old_there : Finds "old" (server 2) (some (stored "7" "old")) (server 2)
unfolding get get_body get_hits sdk_policy retry_loop
old_there = refl

new_missing : Finds "new" (server 0) none (server 0)
unfolding get get_body get_hits sdk_policy retry_loop
new_missing = refl

-- A call that has no connection before the clock shows 2
abbrev shaky : Exec Server ℕ
shaky w = if ltb w.clock 2 then (raise connection_error, w) else (ok 5, w)

sdk_policy-Outcome_example :
    Outcome connection shaky 2 (server 0) (sdk_policy connection shaky (server 0))
sdk_policy-Outcome_example = sdk_policy-Outcome connection shaky (server 0)

-- Test: the third attempt returns.
third_attempt : sdk_policy connection shaky (server 0) ≡ (ok 5, server 2)
unfolding sdk_policy retry_loop handle
third_attempt = refl

-- A session that has expired before the clock shows 1
abbrev expired : Exec Server Response
expired w =
    (ok (record { status_code = if ltb w.clock 1 then 403 else 200; content = error_code 403 }), w)

login-calm : (u u' : Server) → connection.login u ≢ (raise connection_error, u')
login-calm u u' h = cc

-- Test: the call is repeated after a login.
after_login :
    rest_policy connection expired (server 0)
    ≡ (ok (record { status_code = 200; content = error_code 403 }), server 1)
unfolding rest_policy retry_loop handle check_response
after_login = refl
