-- ===== src/Base/Dict.antt =====
-- Python's dict with text keys, as an association list. A key is written in place, so the list
-- has each key once when it is built from the empty dict. Python 2 leaves the order of
-- iteration open; here it is the order of first insertion.
use Prim.Native.String.{String}
use mathlib.Core.Path.{◌≡◌, refl}
use mathlib.Core.Bool.{Bool, true, ◌&&◌}
use mathlib.Core.Logic.{inl, inr}
use mathlib.Core.Option.{Option, none, some}
use mathlib.Core.List.{List, [], ◌∷◌, map}
use native.Mathlib.Omega.{arith}
use text.Mathlib.TextEquality.{eq_iff}
use networking_nsx_t.Base.Tests.{◌==◌, if◌then◌else◌, is_some, Bool-cases}
use networking_nsx_t.Base.Lists.{elem, all_of}

abbrev pub Dict {ℓ} : Type ℓ → Type ℓ
Dict V = List (String × V)

module _ {ℓ} {V : Type ℓ} where
  -- `d.get(k)`
  unfoldable pub lookup : String → Dict V → Option V
  lookup k [] = none
  lookup k ((j, v) ∷ d) = if j == k then some v else lookup k d

  -- `d[k] = v`
  unfoldable pub insert : String → V → Dict V → Dict V
  insert k v [] = (k, v) ∷ []
  insert k v ((j, w) ∷ d) = let rest = insert k v d in if j == k then (k, v) ∷ d else (j, w) ∷ rest

  -- `del d[k]`, or `d.pop(k, None)`
  unfoldable pub remove : String → Dict V → Dict V
  remove k [] = []
  remove k ((j, v) ∷ d) = let rest = remove k d in if j == k then rest else (j, v) ∷ rest

  -- `k in d`
  abbrev pub has_key : String → Dict V → Bool
  has_key k d = is_some (lookup k d)

  -- `d.keys()` and `d.values()`
  abbrev pub keys : Dict V → List String
  keys d = map (λ e. e.0) d

  abbrev pub values : Dict V → List V
  values d = map (λ e. e.1) d

  pub lookup-insert :
      (k j : String) (v : V) (d : Dict V)
      → lookup j (insert k v d) ≡ (if k == j then some v else lookup j d)
  unfolding lookup insert
  lookup-insert k j v [] = refl
  lookup-insert k j v ((i, w) ∷ d) =
      ground (arith, eq_iff k j, eq_iff i k, eq_iff i j, lookup-insert k j v d)

  pub lookup-remove :
      (k j : String) (d : Dict V) → lookup j (remove k d) ≡ (if k == j then none else lookup j d)
  unfolding lookup remove
  lookup-remove k j [] = ground arith
  lookup-remove k j ((i, w) ∷ d) =
      ground (arith, eq_iff k j, eq_iff i k, eq_iff i j, lookup-remove k j d)

  pub lookup-nil : (k : String) → lookup k [] ≡ none
  unfolding lookup
  lookup-nil k = refl

  -- A key is listed exactly if it has a value.
  pub elem-keys : (k : String) (d : Dict V) → elem k (keys d) ≡ has_key k d
  unfolding lookup
  elem-keys k [] = refl
  elem-keys k ((j, v) ∷ d) = ground (arith, elem-keys k d)

and_left : (a b : Bool) → (a && b) ≡ true → a ≡ true
and_left a b h = ground arith

and_right : (a b : Bool) → (a && b) ≡ true → b ≡ true
and_right a b h = ground arith

module _ {ℓ} {V : Type ℓ} where
  -- What a test says of every entry holds of the entry that is found.
  pub all_of-lookup :
      (p : String × V → Bool) (k : String) (v : V) (d : Dict V)
      → all_of p d ≡ true
      → lookup k d ≡ some v
      → p (k, v) ≡ true
  unfolding lookup
  all_of-lookup p k v [] h e = cc
  all_of-lookup p k v ((j, w) ∷ d) h e = elim (Bool-cases (j == k)) [
    | inl here ↦
        let same = (eq_iff j k).0 here in
        let w≡v : w ≡ v = cc in rw (← same, ← w≡v) (and_left (p (j, w)) _ h)
    | inr there ↦ all_of-lookup p k v d (and_right (p (j, w)) _ h) (rw there at e)
  ]

pub ruleset dict_laws = (lookup-insert, lookup-remove, lookup-nil)
