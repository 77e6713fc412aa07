-- ===== src/Client/Deleting.antt =====
-- Deleting objects of a server that is a store.
use networking_nsx_t.Base.{
  ℕ, ◌≤◌, ◌≡◌, refl, ◌⊎◌, Bool, true, false, not, Option, none, some, List, [], ◌∷◌, ◌==◌, inl, inr,
  Bool-cases, length, keep, get_elem?, eq_refl,
}
use networking_nsx_t.Base.Exec.{ok}
use networking_nsx_t.Client.Policy.{Connection}
use networking_nsx_t.Client.Operations.{Service, str_of, has_id, delete}
use networking_nsx_t.Client.Crud.{policy-ok}
use networking_nsx_t.Client.Store.{
  is_named, IsStore, same_name, at_of_keep, get-none, get-one, count-cases,
}

-- Taking off what is the same as the only element that passes a test leaves the elements that do
-- not, if nothing else is the same.
module _ {κ} {A : Type κ} (p same : A → Bool) (o : A) where
  keep-gone :
      (xs : List A)
      → same o ≡ true
      → keep p xs ≡ [] ⊎ (keep p xs ≡ o ∷ [])
      → keep p (keep (λ x. not (same x)) xs) ≡ []
  keep-gone [] h e = refl
  keep-gone (x ∷ xs) h e = elim (Bool-cases (p x)) [
    | inr bad ↦ elim (Bool-cases (same x)) [
      | inl like ↦ rw like (keep-gone xs h (rw bad at e))
      | inr other ↦ rw (other, bad) (keep-gone xs h (rw bad at e))
    ]
    | inl good ↦ elim (rw good at e) [
      | inl none_at ↦ cc
      | inr one ↦
          let here : x ≡ o = cc in
          let rest : keep p xs ≡ [] = cc in rw (here, h) (keep-gone xs h (inl rest))
    ]
  ]

  keep-others :
      (xs : List A)
      → ((x : A) → same x ≡ true → p x ≡ true)
      → keep (λ x. not (p x)) (keep (λ x. not (same x)) xs) ≡ keep (λ x. not (p x)) xs
  keep-others [] h = refl
  keep-others (x ∷ xs) h = elim (Bool-cases (same x)) [
    | inl like ↦ rw (like, h x like) (keep-others xs h)
    | inr other ↦ elim (Bool-cases (p x)) [
      | inl good ↦ rw (other, good) (keep-others xs h)
      | inr bad ↦ rw (other, bad, keep-others xs h)
    ]
  ]

module _ {ℓ κ} {W : Type ℓ} {Obj : Type κ} (service : Service W Obj) (connection : Connection W)
    (retries : ℕ) (objects indexed : W → List Obj) (s : IsStore service objects indexed) where
  -- An object on the list has an id, which is not empty, and deleting it takes what has this id off
  -- the list. Two objects with one id have one name.
  pub record Deletes : Type (ℓ ⊔ κ) where
    pub has_ident :
        (i : ℕ) (o : Obj) (w : W)
        → get_elem? (objects w) i ≡ some o
        → (service.id o ≡ some (s.ident o)) × ((s.ident o == "") ≡ false)
    pub removes :
        (i : ℕ) (o : Obj) (w : W)
        → get_elem? (objects w) i ≡ some o
        → (w' : W) × (service.svc_delete (s.ident o) w ≡ (ok tt, w'))
          × (objects w' ≡ keep (λ x. not (s.ident x == s.ident o)) (objects w))
    pub identifies :
        (o x : Obj)
        → (s.ident x == s.ident o) ≡ true
        → service.display_name x ≡ service.display_name o

  -- What `delete` leaves: no object of the name, and the others as before.
  pub record IsDeleted (model : Obj) (w : W) : Type (ℓ ⊔ κ) where
    pub result : Option Obj
    pub after : W
    pub returned : delete connection service retries model w ≡ (ok result, after)
    pub gone : same_name service connection retries objects indexed s model after ≡ []
    pub others :
        keep (λ o. not (is_named service (str_of (service.display_name model)) o)) (objects after)
        ≡ keep (λ o. not (is_named service (str_of (service.display_name model)) o)) (objects w)

  passes_of_keep : (p : Obj → Bool) (xs : List Obj) (o : Obj) → keep p xs ≡ o ∷ [] → p o ≡ true
  passes_of_keep p [] o h = cc
  passes_of_keep p (x ∷ xs) o h = elim (Bool-cases (p x)) [
    | inl good ↦
        let e : x ∷ keep p xs ≡ o ∷ [] = rw good at h in let here : x ≡ o = cc in rw (← here) good
    | inr bad ↦ passes_of_keep p xs o (rw bad at h)
  ]

  delete-one :
      (d : Deletes) (model o : Obj) (w : W)
      → has_id connection service retries model ≡ false
      → indexed w ≡ objects w
      → same_name service connection retries objects indexed s model w ≡ o ∷ []
      → IsDeleted model w
  unfolding delete
  delete-one d model o w new current one =
      let p : Obj → Bool = is_named service (str_of (service.display_name model)) in
      let (i, at) = at_of_keep p (objects w) o one in
      let (w', sent, left) = d.removes i o w at in
      let like : Obj → Bool = λ x. s.ident x == s.ident o in
      record {
        result = none;
        after = w';
        returned = policy-ok connection _ none w w' (
            rw (
              new,
              get-one service connection retries objects indexed s model o w new current one,
              (d.has_ident i o w at).0,
              (d.has_ident i o w at).1,
              sent,
            ));
        gone = rw left (keep-gone p like o (objects w) (eq_refl (s.ident o)) (inr one));
        others = rw left (
            keep-others p like o (objects w)
              (λ x e. rw (d.identifies o x e) (passes_of_keep p (objects w) o one)));
      }

  delete-none :
      (model : Obj) (w : W)
      → has_id connection service retries model ≡ false
      → indexed w ≡ objects w
      → same_name service connection retries objects indexed s model w ≡ []
      → IsDeleted model w
  unfolding delete
  delete-none model w new current empty = record {
    result = some model;
    after = w;
    returned =
        policy-ok connection _ (some model) w w (
          rw
            (new, get-none service connection retries objects indexed s model w new current empty));
    gone = empty;
    others = refl;
  }

  -- Over a server that is a store with at most one object of the name, whose search is up to date
  -- when the call starts, `delete` of a model with no id returns, and leaves no object of the
  -- name; the objects of other names stay as they are.
  pub delete-IsDeleted :
      (d : Deletes) (model : Obj) (w : W)
      → has_id connection service retries model ≡ false
      → indexed w ≡ objects w
      → length (same_name service connection retries objects indexed s model w) ≤ 1
      → IsDeleted model w
  delete-IsDeleted d model w new current few =
      elim (count-cases service connection retries objects indexed s
        (same_name service connection retries objects indexed s model w) few) [
          | inl empty ↦ delete-none model w new current empty
          | inr (o, one) ↦ delete-one d model o w new current one
        ]
