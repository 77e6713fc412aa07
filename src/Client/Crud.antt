-- ===== src/Client/Crud.antt =====
-- What the operations of the client do on objects that are there, are missing, or are slow to
-- appear in the search.
use networking_nsx_t.Base.{
  ℕ, zero, suc, ◌<◌, ◌≡◌, refl, String, false, arith, Option, none, some, List, [], ◌∷◌,
}
use networking_nsx_t.Base.Exec.{Exception, not_found, ambiguous, ok, raise, Exec}
use networking_nsx_t.Client.Policy.{
  Connection, handle, retry_loop, sdk_policy, until_loop, retry_until_result,
}
use networking_nsx_t.Client.Operations.{
  Service, str_of, has_id, get_hits, get_body, get, confirm, create, update, delete,
}

module _ {ℓ κ} {W : Type ℓ} {A : Type κ} (connection : Connection W) (func : Exec W A) where
  loop-ok :
      (left : ℕ) (a : A) (w w' : W)
      → func w ≡ (ok a, w')
      → retry_loop connection left func w ≡ (ok a, w')
  unfolding retry_loop
  loop-ok zero a w w' f = rw (retry_loop, f)
  loop-ok (suc left) a w w' f = rw (retry_loop, f)

  loop-raise :
      (left : ℕ) (e e' : Exception) (w w' w'' : W)
      → func w ≡ (raise e, w')
      → handle connection e w' ≡ (raise e', w'')
      → retry_loop connection left func w ≡ (raise e', w'')
  unfolding retry_loop
  loop-raise zero e e' w w' w'' f h = rw (retry_loop, f, h)
  loop-raise (suc left) e e' w w' w'' f h = rw (retry_loop, f, h)

  pub policy-ok :
      (a : A) (w w' : W) → func w ≡ (ok a, w') → sdk_policy connection func w ≡ (ok a, w')
  unfolding sdk_policy
  policy-ok a w w' f = loop-ok _ a w w' f

  policy-raise :
      (e e' : Exception) (w w' w'' : W)
      → func w ≡ (raise e, w')
      → handle connection e w' ≡ (raise e', w'')
      → sdk_policy connection func w ≡ (raise e', w'')
  unfolding sdk_policy
  policy-raise e e' w w' w'' f h = loop-raise _ e e' w w' w'' f h

module _ {ℓ κ} {W : Type ℓ} {Obj : Type κ} (connection : Connection W) (service : Service W Obj)
    (retries : ℕ) where
  abbrev name_of : Obj → String
  name_of model = str_of (service.display_name model)

  -- Slow n u v: from the state u, n searches for the name found nothing, and the next starts in v.
  pub data Slow (name : String) : ℕ → W → W → Type ℓ where
    now : (w : W) → Slow name 0 w w
    later :
        {n : ℕ} {u v : W} (u' : W)
        → service.query name u ≡ (ok [], u')
        → Slow name n (connection.operation_pause u') v
        → Slow name (suc n) u v

  until-Slow :
      (name hit : String) (tries n : ℕ) (resp : Option (List String)) (u v v' : W)
      → Slow name n u v
      → n < tries
      → service.query name v ≡ (ok (hit ∷ []), v')
      → until_loop connection.operation_pause tries (service.query name) resp u
        ≡ (ok (some (hit ∷ [])), v')
  unfolding until_loop
  until-Slow name hit zero n resp u v v' slow lt found = absurd (omega arith)
  until-Slow name hit (suc tries) _ resp u v v' (now w) lt found = rw (until_loop, found)
  until-Slow name hit (suc tries) _ resp u v v' (later u' empty slow) lt found =
      rw (until_loop, empty) (until-Slow name hit tries _ _ _ v v' slow (omega arith) found)

  -- Creating an object whose name the search finds returns that object and creates nothing: the
  -- state is the one that the search leaves.
  pub create-existing :
      (model o : Obj) (w w' : W)
      → get connection service retries model w ≡ (ok (some o), w')
      → create connection service retries model w ≡ (ok (some o), w')
  unfolding create
  create-existing model o w w' found = policy-ok connection _ (some o) w w' (rw found)

  -- Creating an object that the search does not find creates it once, then searches for its name
  -- until it appears: if it appears, alone, in one of the configured number of searches, the call
  -- returns the created object, in the state that this search leaves.
  pub create-Slow :
      (model o : Obj) (hit : String) (n : ℕ) (w w₁ w₂ w₃ w₄ : W)
      → get connection service retries model w ≡ (ok none, w₁)
      → service.svc_create model w₁ ≡ (ok o, w₂)
      → Slow (str_of (service.display_name model)) n w₂ w₃
      → n < retries
      → service.query (str_of (service.display_name model)) w₃ ≡ (ok (hit ∷ []), w₄)
      → create connection service retries model w ≡ (ok (some (service.as_model model o)), w₄)
  unfolding create retry_until_result confirm
  create-Slow model o hit n w w₁ w₂ w₃ w₄ missing created slow lt found =
      policy-ok connection _ _ w w₄ (
        rw (missing, created, until-Slow (name_of model) hit retries n none w₂ w₃ w₄ slow lt found))

  -- Updating an object with no id whose name the search does not find raises and sends nothing, and
  -- deleting it returns the model and sends nothing.
  pub update-missing :
      (model : Obj) (w w' : W)
      → has_id connection service retries model ≡ false
      → get connection service retries model w ≡ (ok none, w')
      → (update connection service retries model w ≡ (raise not_found, w'))
        × (delete connection service retries model w ≡ (ok (some model), w'))
  unfolding update delete handle
  update-missing model w w' new missing = (
    policy-raise connection _ not_found not_found w w' w' (rw (new, missing)) refl,
    policy-ok connection _ (some model) w w' (rw (new, missing)),
  )

  -- Looking an object up by name when the search finds two objects or more raises, at the first
  -- attempt, and reads none of them.
  pub get-ambiguous :
      (model : Obj) (hit hit' : String) (hits : List String) (w w' : W)
      → has_id connection service retries model ≡ false
      → service.query (str_of (service.display_name model)) w ≡ (ok (hit ∷ hit' ∷ hits), w')
      → get connection service retries model w ≡ (raise ambiguous, w')
  unfolding get get_body get_hits handle
  get-ambiguous model hit hit' hits w w' new found =
      policy-raise connection _ ambiguous ambiguous w w' w' (rw (new, found)) refl
