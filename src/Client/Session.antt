-- ===== src/Client/Session.antt =====
-- The session of NSXv3ClientImpl: login, _post, _delete, _query, list and batch of
-- networking_nsxv3/plugins/ml2/drivers/nsxv3/agent/nsxv3_client.py.
use networking_nsx_t.Base.{
  ℕ, zero, suc, String, Bool, true, not, Option, some, List, [], ◌+++◌, nat_eq, leb, if◌then◌else◌,
}
use networking_nsx_t.Base.Dict.{Dict, lookup, insert}
use networking_nsx_t.Base.Exec.{
  connection_error, recursion_error, Result, ok, raise, Exec, lift, ◌>>=◌,
}
use networking_nsx_t.Client.Policy.{Connection, Response, rest_policy, sdk_policy}
use networking_nsx_t.Client.Queries.{SearchBody, get_query, results_of}
use networking_nsx_t.Client.Operations.{BatchStatus}

-- `requests.session()` and the configuration of the stubs, beside the world. A header is None
-- where the response had none.
pub record SessionState {ℓ} (W : Type ℓ) : Type ℓ where
  pub verify : Bool
  pub headers : Dict (Option String)
  pub stub_config : Bool
  pub world : W

-- What is posted: the form of the login, or the JSON text of a search
pub data PostData : Type 0 where
  form : String → String → PostData
  search : SearchBody → PostData

-- The options, the HTTP methods of the session, and the headers of a response
pub record Http {ℓ} (W : Type ℓ) : Type ℓ where
  pub nsxv3_login_hostname : String
  pub nsxv3_login_port : String
  pub nsxv3_login_user : String
  pub nsxv3_login_password : String
  pub nsxv3_suppress_ssl_wornings : Bool
  pub retry_count : ℕ
  pub sleep : SessionState W → SessionState W
  pub session_post : String → PostData → Exec (SessionState W) Response
  pub session_delete : String → Exec (SessionState W) Response
  pub headers_of : Response → Dict String

-- `resp.raise_for_status()`, where the code is not 200
unfoldable pub check_login : Response → Result Response
check_login resp =
    if nat_eq resp.status_code 200
    then ok resp
    else if leb 400 resp.status_code
    then raise connection_error
    else ok resp

module _ {ℓ} {W : Type ℓ} (http : Http W) where
  unfoldable pub base_url : String
  base_url = "https://" +++ http.nsxv3_login_hostname +++ ":" +++ http.nsxv3_login_port

  unfoldable pub _get_url : String → String
  unfolding base_url
  _get_url path = base_url +++ path

  -- The policy's connection, which logs in by this method
  abbrev pub connection_with : Exec (SessionState W) (Unit {0}) → Connection (SessionState W)
  connection_with login = record {
    login = login;
    pause = http.sleep;
    operation_pause = http.sleep;
    retry_count = http.retry_count;
  }

  abbrev pub new_session : SessionState W → SessionState W
  new_session s = record s { verify = not http.nsxv3_suppress_ssl_wornings; headers = [] }

  abbrev pub login_headers : Response → Dict (Option String) → Dict (Option String)
  login_headers resp headers = insert "Content-Type" (some "application/json") (
      insert "Accept" (some "application/json") (
        insert "X-XSRF-TOKEN" (lookup "X-XSRF-TOKEN" (http.headers_of resp))
          (insert "Cookie" (lookup "Set-Cookie" (http.headers_of resp)) headers)))

  abbrev pub open_session : Response → Exec (SessionState W) (Unit {0})
  open_session resp s =
      (ok tt, record s { headers = login_headers resp s.headers; stub_config = true })

  -- `_post` under the policy, where a refusal logs in by this method
  unfoldable pub post_with :
      Exec (SessionState W) (Unit {0}) → String → PostData → Exec (SessionState W) Response
  unfolding _get_url
  post_with login path data_ =
      rest_policy (connection_with login) (http.session_post (_get_url path) data_)

  -- login posts through `_post`, whose policy logs in where the server refuses: the number is how
  -- deep the interpreter lets the calls nest, and Python raises RuntimeError beyond it.
  unfoldable pub login : ℕ → Exec (SessionState W) (Unit {0})
  unfolding post_with check_login
  login zero s = (raise recursion_error, s)
  login (suc depth) s =
      (post_with (login depth) "/api/session/create"
            (form http.nsxv3_login_user http.nsxv3_login_password)
          >>= λ resp. lift (check_login resp) >>= open_session)
        (new_session s)

  module _ (depth : ℕ) where
    unfoldable pub _post : String → PostData → Exec (SessionState W) Response
    unfolding login post_with
    _post path data_ = post_with (login depth) path data_

    unfoldable pub _delete : String → Exec (SessionState W) Response
    unfolding login _get_url
    _delete path = rest_policy (connection_with (login depth)) (http.session_delete (_get_url path))

    -- `json.loads(resp.content)` is a parameter: the result and its results, where it has them.
    unfoldable pub _query :
        {Hit : Type 0}
        → (Response → Result (Option (Option (List Hit))))
        → (String → List String)
        → (resource_type key : String) (ands ors : List String) (dsl : String) (size : ℕ)
          (start : Option ℕ)
        → Exec (SessionState W) (List Hit)
    unfolding _post get_query results_of
    _query loads characters resource_type key ands ors dsl size start =
        _post "/nsxapi/rpc/call/SearchFacade"
          (search (get_query characters resource_type key ands ors dsl size start))
        >>= λ resp. lift (loads resp) >>= λ content. lift (results_of content)

    -- `list` and `batch` are one call of a service each.
    unfoldable pub list_objects {κ} :
        {Objs : Type κ} → Exec (SessionState W) Objs → Exec (SessionState W) Objs
    unfolding login
    list_objects svc_list = sdk_policy (connection_with (login depth)) svc_list

    unfoldable pub batch {κ} :
        {Item : Type κ}
        → (Bool → Bool → List Item → Exec (SessionState W) BatchStatus)
        → List Item
        → (continue_on_error atomic : Bool) → Exec (SessionState W) BatchStatus
    unfolding login
    batch create_batch request_items continue_on_error atomic =
        sdk_policy (connection_with (login depth))
          (create_batch continue_on_error atomic request_items)
