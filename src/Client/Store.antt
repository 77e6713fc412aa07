-- ===== src/Client/Store.antt =====
-- The client over a server that is a store of objects: what `create` promises its callers.
use mathlib.Core.List.{append-nil}
use networking_nsx_t.Base.{
  ℕ, zero, suc, ◌≤◌, ◌<◌, ◌≡◌, refl, ◌∙◌, ap, ◌⊎◌, String, Bool, true, false, not, arith, none,
  some, List, [], ◌∷◌, ◌++◌, map, ◌==◌, inl, inr, Bool-cases, length, keep, get_elem?, eq_refl,
}
use networking_nsx_t.Base.Exec.{ok}
use networking_nsx_t.Client.Policy.{Connection}
use networking_nsx_t.Client.Operations.{Service, str_of, has_id, get, get_body, get_hits, create}
use networking_nsx_t.Client.Crud.{policy-ok, Slow, now, later, create-existing, create-Slow}

module _ {κ} {A : Type κ} where
  keep-append : (p : A → Bool) (xs ys : List A) → keep p (xs ++ ys) ≡ keep p xs ++ keep p ys
  keep-append p [] ys = refl
  keep-append p (x ∷ xs) ys = elim (Bool-cases (p x)) [
    | inl good ↦ rw (good, keep-append p xs ys)
    | inr bad ↦ rw (bad, keep-append p xs ys)
  ]

  pub at_of_keep :
      (p : A → Bool) (xs : List A) (o : A)
      → keep p xs ≡ o ∷ []
      → (i : ℕ) × (get_elem? xs i ≡ some o)
  at_of_keep p [] o h = cc
  at_of_keep p (x ∷ xs) o h = elim (Bool-cases (p x)) [
    | inl good ↦ let e : x ∷ keep p xs ≡ o ∷ [] = rw good at h in (0, cc)
    | inr bad ↦ let (i, e) = at_of_keep p xs o (rw bad at h) in (suc i, e)
  ]

module _ {ℓ κ} {W : Type ℓ} {Obj : Type κ} (service : Service W Obj) where
  abbrev pub is_named : String → Obj → Bool
  is_named name o = str_of (service.display_name o) == name

  -- The server keeps a list of objects, and the search has an index of them. A search finds the
  -- objects of the index by their name; an object of the list is read by its id.
  pub record IsStore (objects indexed : W → List Obj) : Type (ℓ ⊔ κ) where
    pub ident : Obj → String
    pub searches :
        (name : String) (w : W)
        → service.query name w ≡ (ok (map ident (keep (is_named name) (indexed w))), w)
    pub reads :
        (i : ℕ) (o : Obj) (w : W)
        → get_elem? (objects w) i ≡ some o
        → service.svc_get (ident o) w ≡ (ok o, w)
    pub models : (model o : Obj) → service.as_model model o ≡ o

  -- How the index follows the list: `lag` is the number of pauses after which it is up to date. A
  -- new object keeps its name, is the last of the list, and is in the index after at most `delay`
  -- pauses, before which the index is as it was.
  pub record IsIndexed (objects indexed : W → List Obj) (pause : W → W) (delay : ℕ)
      : Type (ℓ ⊔ κ) where
    pub lag : W → ℕ
    pub up_to_date : (w : W) → lag w ≡ 0 → indexed w ≡ objects w
    pub waits :
        (w : W) (n : ℕ) → lag w ≡ suc n → (lag (pause w) ≡ n) × (objects (pause w) ≡ objects w)
    pub stays : (w : W) (n : ℕ) → lag w ≡ suc (suc n) → indexed (pause w) ≡ indexed w
    pub creates :
        (model : Obj) (w : W)
        → (o : Obj) × (w' : W) × (service.svc_create model w ≡ (ok o, w'))
          × (objects w' ≡ objects w ++ o ∷ [])
          × (service.display_name o ≡ service.display_name model)
          × (lag w' ≤ delay)
          × ((n : ℕ) → lag w' ≡ suc n → indexed w' ≡ indexed w)

  module _ (connection : Connection W) (retries : ℕ) (objects indexed : W → List Obj)
      (s : IsStore objects indexed) where
    abbrev pub name_of : Obj → String
    name_of model = str_of (service.display_name model)

    abbrev pub same_name : Obj → W → List Obj
    same_name model w = keep (is_named (name_of model)) (objects w)

    pub get-none :
        (model : Obj) (w : W)
        → has_id connection service retries model ≡ false
        → indexed w ≡ objects w
        → same_name model w ≡ []
        → get connection service retries model w ≡ (ok none, w)
    unfolding get get_body get_hits
    get-none model w new current empty =
        policy-ok connection _ none w w (rw (new, s.searches (name_of model) w, current, empty))

    pub get-one :
        (model o : Obj) (w : W)
        → has_id connection service retries model ≡ false
        → indexed w ≡ objects w
        → same_name model w ≡ o ∷ []
        → get connection service retries model w ≡ (ok (some o), w)
    unfolding get get_body get_hits
    get-one model o w new current one =
        let (i, at) = at_of_keep (is_named (name_of model)) (objects w) o one in
        policy-ok connection _ (some o) w w
          (rw (new, s.searches (name_of model) w, current, one, s.reads i o w at, s.models model o))

    -- What `create` leaves: the object is the only one of its name, the search is up to date, and
    -- the other objects are as before.
    pub record IsCreated (model : Obj) (w : W) : Type (ℓ ⊔ κ) where
      pub created : Obj
      pub after : W
      pub returned : create connection service retries model w ≡ (ok (some created), after)
      pub only_one : same_name model after ≡ created ∷ []
      pub current : indexed after ≡ objects after
      pub others :
          keep (λ o. not (is_named (name_of model) o)) (objects after)
          ≡ keep (λ o. not (is_named (name_of model) o)) (objects w)

    module _ (delay : ℕ) (x : IsIndexed objects indexed connection.operation_pause delay) where
      -- Searches that find nothing, until the index is up to date
      await-Slow :
          (name : String) (n : ℕ) (w : W)
          → x.lag w ≡ n
          → ((m : ℕ) → n ≡ suc m → keep (is_named name) (indexed w) ≡ [])
          → (v : W) × Slow connection service retries name n w v
            × (x.lag v ≡ 0)
            × (objects v ≡ objects w)
      await-Slow name zero w h empty = (w, now w, h, refl)
      await-Slow name (suc n) w h empty =
          let pause = connection.operation_pause in
          let (shorter, same) = x.waits w n h in
          let (v, slow, done, kept) =
            await-Slow name n (pause w) shorter
              (λ m e. ap (keep (is_named name)) (x.stays w m (h ∙ ap suc e)) ∙ empty n refl) in
          (v, later w (rw (s.searches name w, empty n refl)) slow, done, kept ∙ same)

      create-none :
          (model : Obj) (w : W)
          → has_id connection service retries model ≡ false
          → delay < retries
          → indexed w ≡ objects w
          → same_name model w ≡ []
          → IsCreated model w
      create-none model w new enough current empty =
          let p = is_named (name_of model) in
          let (o, w', made, listed, named, late, lacks) = x.creates model w in
          let (v, slow, done, kept) =
            await-Slow (name_of model) (x.lag w') w' refl
              (λ m e. ap (keep p) (lacks m e ∙ current) ∙ empty) in
          let here : p o ≡ true = rw named (eq_refl (name_of model)) in
          let all : objects v ≡ objects w ++ o ∷ [] = kept ∙ listed in
          let one : same_name model v ≡ o ∷ [] =
            rw (all, keep-append p (objects w) (o ∷ []), empty, here) in
          record {
            created = o;
            after = v;
            returned =
                create-Slow connection service retries model o (s.ident o) (x.lag w') w w w' v v
                  (get-none model w new current empty) made slow (omega arith)
                  (s.searches (name_of model) v
                    ∙ ap (λ l. (ok (map s.ident (keep p l)), v)) (x.up_to_date v done)
                    ∙ ap (λ l. (ok (map s.ident l), v)) one)
                ∙ ap (λ y. (ok (some y), v)) (s.models model o);
            only_one = one;
            current = x.up_to_date v done;
            others = rw (
              all,
              keep-append (λ y. not (is_named (name_of model) y)) (objects w) (o ∷ []),
              here,
              append-nil,
            );
          }

      create-one :
          (model o : Obj) (w : W)
          → has_id connection service retries model ≡ false
          → indexed w ≡ objects w
          → same_name model w ≡ o ∷ []
          → IsCreated model w
      create-one model o w new current one = record {
        created = o;
        after = w;
        returned =
            create-existing connection service retries model o w w
              (get-one model o w new current one);
        only_one = one;
        current = current;
        others = refl;
      }

    pub count-cases : (l : List Obj) → length l ≤ 1 → (l ≡ []) ⊎ ((o : Obj) × (l ≡ o ∷ []))
    count-cases [] h = inl refl
    count-cases (o ∷ []) h = inr (o, refl)
    count-cases (o ∷ x ∷ l) h = absurd (omega arith)

    module _ (delay : ℕ) (x : IsIndexed objects indexed connection.operation_pause delay) where
      -- Over a server that is a store with at most one object of the name, whose search is up to
      -- date at first and finds a new object after some pauses, fewer than the searches that are
      -- configured, `create` of a model with no id returns an object of the name, which is then the
      -- only one, once the search is up to date again, so that it finds the object; the objects of
      -- other names stay as they are.
      pub create-IsCreated :
          (model : Obj) (w : W)
          → has_id connection service retries model ≡ false
          → delay < retries
          → indexed w ≡ objects w
          → length (same_name model w) ≤ 1
          → IsCreated model w
      create-IsCreated model w new enough current few = elim (count-cases (same_name model w) few) [
        | inl empty ↦ create-none delay x model w new enough current empty
        | inr (o, one) ↦ create-one delay x model o w new current one
      ]
