-- ===== src/Client/Operations.antt =====
-- The operations of NSXv3ClientImpl: get, get_by_attr, create, update, delete and
-- is_batch_successful of networking_nsxv3/plugins/ml2/drivers/nsxv3/agent/nsxv3_client.py.
use networking_nsx_t.Base.{
  ℕ, String, Bool, not, Option, none, some, List, [], ◌∷◌, ◌==◌, if◌then◌else◌, truthy_text,
}
use networking_nsx_t.Base.Exec.{
  not_found, ambiguous, anomaly, type_error, ok, raise, Exec, pure, throw, ◌>>=◌, ◌>>◌,
}
use networking_nsx_t.Client.Policy.{Connection, sdk_policy, retry_until_result}

-- The SDK's service of one type of objects, and the search by type and name. A hit of the search
-- is the id of the object; `as_model` is `convert_to` where the type is polymorphic.
pub record Service {ℓ κ} (W : Type ℓ) (Obj : Type κ) : Type (ℓ ⊔ κ) where
  pub id : Obj → Option String
  pub display_name : Obj → Option String
  pub as_model : Obj → Obj → Obj
  pub svc_get : String → Exec W Obj
  pub svc_create : Obj → Exec W Obj
  pub svc_update : String → Obj → Exec W Obj
  pub svc_delete : String → Exec W (Unit {0})
  pub svc_list : String → String → Exec W (List Obj)
  pub query : String → Exec W (List String)

-- `str(x)` of a text or None
abbrev pub str_of : Option String → String
str_of none = "None"
str_of (some s) = s

module _ {ℓ κ} {W : Type ℓ} {Obj : Type κ} (connection : Connection W) (service : Service W Obj)
    (operation_retry_count : ℕ) where
  abbrev pub has_id : Obj → Bool
  has_id model = not (str_of (service.id model) == "None")

  -- What `get` does with the hits
  unfoldable pub get_hits : Obj → List String → Exec W (Option Obj)
  get_hits model [] w = (ok none, w)
  get_hits model (hit ∷ []) w =
      (service.svc_get hit >>= λ o. pure (some (service.as_model model o))) w
  get_hits model (hit ∷ hit' ∷ hits) w = (raise ambiguous, w)

  unfoldable pub get_body : Obj → Exec W (Option Obj)
  unfolding get_hits
  get_body model =
      if has_id model
      then (service.svc_get (str_of (service.id model)) >>= λ o.
          pure (some (service.as_model model o)))
      else service.query (str_of (service.display_name model)) >>= get_hits model

  unfoldable pub get : Obj → Exec W (Option Obj)
  unfolding get_body
  get model = sdk_policy connection (get_body model)

  -- `res.results.pop()` takes the only result.
  unfoldable pub one_of : List Obj → Exec W (Option Obj)
  one_of [] w = (ok none, w)
  one_of (o ∷ []) w = (ok (some o), w)
  one_of (o ∷ o' ∷ objs) w = (raise ambiguous, w)

  unfoldable pub get_by_attr : String → String → Exec W (Option Obj)
  unfolding one_of
  get_by_attr attr_key attr_val =
      sdk_policy connection (service.svc_list attr_key attr_val >>= one_of)

  -- The tests on the reverse lookup; `len(None)` is TypeError.
  unfoldable pub confirm : Obj → Obj → Option (List String) → Exec W (Option Obj)
  confirm model o none w = (raise type_error, w)
  confirm model o (some []) w = (ok (some o), w)
  confirm model o (some (hit ∷ [])) w = (ok (some (service.as_model model o)), w)
  confirm model o (some (hit ∷ hit' ∷ hits)) w = (raise anomaly, w)

  abbrev pub create_missing : Obj → Option Obj → Exec W (Option Obj)
  create_missing model (some o) = pure (some o)
  create_missing model none = service.svc_create model >>= λ o.
      retry_until_result connection.operation_pause operation_retry_count
        (service.query (str_of (service.display_name model)))
      >>= confirm model o

  unfoldable pub create : Obj → Exec W (Option Obj)
  create model = sdk_policy connection (get model >>= create_missing model)

  -- `if sdk_obj and sdk_obj.id: sdk_id = sdk_obj.id`
  abbrev pub found_id : Option Obj → Option String
  found_id none = none
  found_id (some o) = if truthy_text (service.id o) then service.id o else none

  abbrev pub update_found : Obj → Option String → Exec W Obj
  update_found model none = throw not_found
  update_found model (some id) = service.svc_update id model

  unfoldable pub update : Obj → Exec W Obj
  update model = sdk_policy connection (
      if has_id model
      then service.svc_update (str_of (service.id model)) model
      else get model >>= λ o. update_found model (found_id o))

  -- `svc.delete`, with the `cascade` or the `detach` that the service has, returns None; a model
  -- that is not found is returned.
  abbrev pub delete_id : String → Exec W (Option Obj)
  delete_id id = service.svc_delete id >> pure none

  abbrev pub delete_found : Obj → Option String → Exec W (Option Obj)
  delete_found model none = pure (some model)
  delete_found model (some id) = delete_id id

  unfoldable pub delete : Obj → Exec W (Option Obj)
  delete model = sdk_policy connection (
      if has_id model
      then delete_id (str_of (service.id model))
      else get model >>= λ o. delete_found model (found_id o))

-- The status of a batch: the answers have a code and a body each.
pub record BatchStatus : Type 0 where
  pub has_errors : Bool
  pub rolled_back : Bool
  pub results : List (ℕ × String)

unfoldable pub is_batch_successful : BatchStatus → Bool
is_batch_successful status = not status.has_errors
