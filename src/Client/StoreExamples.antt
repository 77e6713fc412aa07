-- ===== src/Client/StoreExamples.antt =====
-- A store in which an object is its name, and whose search is late, and one with deletion.
use networking_nsx_t.Base.{
  ℕ, zero, suc, ◌≡◌, refl, sym, ap, String, not, false, Option, none, some, List, [], ◌∷◌, ◌++◌,
  map, keep, get_elem?, ◌==◌, arith, Bool-cases, inl, inr, eq_iff, codes,
}
use networking_nsx_t.Base.Exec.{ok}
use networking_nsx_t.Client.Policy.{Connection}
use networking_nsx_t.Client.Operations.{Service}
use networking_nsx_t.Client.Store.{IsStore, IsIndexed, IsCreated, create-IsCreated}
use networking_nsx_t.Client.Deleting.{Deletes, IsDeleted, delete-IsDeleted}

abbrev connection {ℓ} : {W : Type ℓ} → (W → W) → Connection W
connection pause = record {
  login = λ w. (ok tt, w);
  pause = λ w. w;
  operation_pause = pause;
  retry_count = 3;
}

-- The objects, and what the search had of them before the last one was created, for so many pauses
record Lagging : Type 0 where
  objects : List String
  before : List String
  lag : ℕ

abbrev indexed_at : ℕ → Lagging → List String
indexed_at zero w = w.objects
indexed_at (suc n) w = w.before

abbrev indexed : Lagging → List String
indexed w = indexed_at w.lag w

abbrev pred : ℕ → ℕ
pred zero = 0
pred (suc n) = n

abbrev pause : Lagging → Lagging
pause w = record w { lag = pred w.lag }

abbrev with_new : String → Lagging → Lagging
with_new o w = record { objects = w.objects ++ o ∷ []; before = indexed w; lag = 2 }

abbrev service : Service Lagging String
service = record {
  id = λ o. none;
  display_name = λ o. some o;
  as_model = λ model o. o;
  svc_get = λ id w. (ok id, w);
  svc_create = λ o w. (ok o, with_new o w);
  svc_update = λ id o w. (ok o, w);
  svc_delete = λ id w. (ok tt, w);
  svc_list = λ key value w. (ok [], w);
  query = λ name w. (ok (map (λ o. o) (keep (λ o. o == name) (indexed w))), w);
}

store : IsStore service (λ w. w.objects) indexed
store = record {
  ident = λ o. o;
  searches = λ name w. refl;
  reads = λ i o w at. refl;
  models = λ model o. refl;
}

current_at : (n : ℕ) (w : Lagging) → n ≡ 0 → indexed_at n w ≡ w.objects
current_at n w h = rw h

waits_at : (m n : ℕ) → m ≡ suc n → pred m ≡ n
waits_at zero n h = absurd (omega arith)
waits_at (suc m) n h = omega arith

stays_at :
    (m n k : ℕ) (w : Lagging)
    → m ≡ suc (suc n)
    → indexed_at (pred m) (record w { lag = k }) ≡ indexed_at m w
stays_at zero n k w h = absurd (omega arith)
stays_at (suc zero) n k w h = absurd (omega arith)
stays_at (suc (suc m)) n k w h = refl

index : IsIndexed service (λ w. w.objects) indexed pause 2
index = record {
  lag = λ w. w.lag;
  up_to_date = λ w h. current_at w.lag w h;
  waits = λ w n h. (waits_at w.lag n h, refl);
  stays = λ w n h. stays_at w.lag n (pred w.lag) w h;
  creates = λ model w. (model, with_new model w, refl, refl, refl, omega arith, λ n h. refl);
}

abbrev old : Lagging
old = record { objects = "old" ∷ []; before = []; lag = 0 }

create-IsCreated_example :
    IsCreated service (connection pause) 5 (λ w. w.objects) indexed store "new" old
create-IsCreated_example =
    create-IsCreated service (connection pause) 5 (λ w. w.objects) indexed store 2 index "new" old
      refl (omega arith) refl (omega arith)

-- A store with deletion. The state is the list of the names; the id of an object is its name with
-- a mark before it.
abbrev marked : String → String
marked o = String.◌∷◌ "#" o

abbrev unmarked : String → String
unmarked String.[] = ""
unmarked (String.◌∷◌ c s) = s

marked-given : (o : String) → (marked o == "") ≡ false
marked-given o = elim (Bool-cases (marked o == "")) [
  | inl same ↦ let e : codes (marked o) ≡ [] = ap codes ((eq_iff (marked o) "").0 same) in absurd cc
  | inr other ↦ other
]

record Model : Type 0 where
  id : Option String
  name : String

abbrev stored : String → Model
stored name = record { id = some (marked name); name = name }

abbrev names : Service (List String) Model
names = record {
  id = λ o. o.id;
  display_name = λ o. some o.name;
  as_model = λ model o. o;
  svc_get = λ id w. (ok (record { id = some id; name = unmarked id }), w);
  svc_create = λ o w. (ok (stored o.name), w ++ o.name ∷ []);
  svc_update = λ id o w. (ok o, w);
  svc_delete = λ id w. (ok tt, keep (λ n. not (marked n == id)) w);
  svc_list = λ key value w. (ok [], w);
  query = λ name w. (ok (map (λ o. marked o.name) (keep (λ o. o.name == name) (map stored w))), w);
}

at-stored :
    (w : List String) (i : ℕ) (o : Model) → get_elem? (map stored w) i ≡ some o → stored o.name ≡ o
at-stored [] i o h = cc
at-stored (n ∷ w) zero o h = let e : stored n ≡ o = cc in rw (← e)
at-stored (n ∷ w) (suc i) o h = at-stored w i o h

map-keep :
    (id : String) (w : List String)
    → map stored (keep (λ n. not (marked n == id)) w)
      ≡ keep (λ o. not (marked o.name == id)) (map stored w)
map-keep id [] = refl
map-keep id (n ∷ w) = elim (Bool-cases (marked n == id)) [
  | inl same ↦ rw (same, map-keep id w)
  | inr other ↦ rw (other, map-keep id w)
]

abbrev names_store : IsStore names (map stored) (map stored)
names_store = record {
  ident = λ o. marked o.name;
  searches = λ name w. refl;
  reads = λ i o w at. ap (λ x. (ok x, w)) (at-stored w i o at);
  models = λ model o. refl;
}

names-Deletes : Deletes names (connection (λ w. w)) 5 (map stored) (map stored) names_store
names-Deletes = record {
  has_ident = λ i o w at. (ap (λ x. x.id) (sym (at-stored w i o at)), marked-given o.name);
  removes =
      λ i o w at. (keep (λ n. not (marked n == marked o.name)) w, refl, map-keep (marked o.name) w);
  identifies = λ o x e. ap (λ s. some (unmarked s)) ((eq_iff (marked x.name) (marked o.name)).0 e);
}

delete-IsDeleted_example :
    IsDeleted names
      (connection (λ w. w))
      5
      (map stored)
      (map stored)
      names_store
      (record { id = none; name = "old" })
      ("old" ∷ "new" ∷ [])
delete-IsDeleted_example =
    delete-IsDeleted names (connection (λ w. w)) 5 (map stored) (map stored) names_store
      names-Deletes (record { id = none; name = "old" }) ("old" ∷ "new" ∷ []) refl refl
      (omega arith)
