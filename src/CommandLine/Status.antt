-- ===== src/CommandLine/Status.antt =====
-- What the status says of the runs of a callback.
use networking_nsx_t.Base.{
  ◌≡◌, refl, sym, ◌∙◌, ap, String, Bool, false, ◌||◌, arith, Option, none, some, List, [], ◌∷◌,
  ◌==◌, if◌then◌else◌, any_of,
}
use networking_nsx_t.Base.Dict.{Dict, lookup, insert, lookup-insert}
use networking_nsx_t.Base.Exec.{Exception, Result, Exec}
use networking_nsx_t.CommandLine.{status_of, is_error, execute_loop, execute}

-- The status of an id: that of its last run
abbrev pub last_status :
    (Exception → String)
    → List (String × Result (Unit {0}))
    → String
    → Option String
    → Option String
last_status message [] id before = before
last_status message ((j, r) ∷ results) id before =
    last_status message results id (if j == id then some (status_of message r) else before)

abbrev pub any_error : List (String × Result (Unit {0})) → Bool
any_error results = any_of (λ p. is_error p.1) results

module _ {ℓ} {W : Type ℓ} (callback : String → Exec W (Unit {0})) where
  -- Ran ids u results v: the callback ran for every id in order, from the state u to v, each in the
  -- state that the one before left, whether that one raised or not, with these results.
  pub data Ran : List String → W → List (String × Result (Unit {0})) → W → Type ℓ where
    done : (w : W) → Ran [] w [] w
    ran :
        {ids : List String} {u v : W} {results : List (String × Result (Unit {0}))} (id : String)
        (r : Result (Unit {0})) (u' : W)
        → callback id u ≡ (r, u')
        → Ran ids u' results v
        → Ran (id ∷ ids) u ((id, r) ∷ results) v

module _ {ℓ} {W : Type ℓ} (message : Exception → String)
    (callback : String → Exec W (Unit {0})) where
  abbrev Reports :
      List (String × Result (Unit {0})) → Dict String → Bool → W → (Dict String × Bool) × W → Type ℓ
  Reports results status error v out =
      (out.1 ≡ v)
      × (out.0.1 ≡ (error || any_error results))
      × ((id : String) → lookup id out.0.0 ≡ last_status message results id (lookup id status))

  or_false : (b : Bool) → (b || false) ≡ b
  or_false b = ground arith

  or_assoc : (a b c : Bool) → ((a || b) || c) ≡ (a || (b || c))
  or_assoc a b c = ground arith

  execute_loop-Reports :
      (ids : List String) (status : Dict String) (error : Bool) (u : W)
      (results : List (String × Result (Unit {0}))) (v : W)
      → Ran callback ids u results v
      → Reports results status error v (execute_loop message callback ids status error u)
  unfolding execute_loop
  execute_loop-Reports _ status error _ _ _ (done w) = (refl, sym (or_false error), λ id. refl)
  execute_loop-Reports _ status error u _ v
        (ran {ids = ids} {results = results} id r u' called rest) =
      let (s, e, l) =
        execute_loop-Reports ids (insert id (status_of message r) status) (error || is_error r) u'
          results v rest in
      rw (execute_loop, called)
        (
          s,
          e ∙ or_assoc error (is_error r) (any_error results),
          λ k.
              l k
              ∙ ap (last_status message results k)
                  (lookup-insert id k (status_of message r) status),
        )

  -- A synchronization of some ids by the command line runs the callback for every one of them, in
  -- order, also after one that raised. The error flag is set exactly if one of the runs raised, and
  -- the status of each id is that of its last run, and there is none for other ids.
  pub execute-Ran :
      (ids : List String) (u v : W) (results : List (String × Result (Unit {0})))
      → Ran callback ids u results v
      → ((execute message callback ids u).1 ≡ v)
        × ((execute message callback ids u).0.1 ≡ any_error results)
        × ((id : String)
            → lookup id (execute message callback ids u).0.0 ≡ last_status message results id none)
  unfolding execute lookup
  execute-Ran ids u v results rs = execute_loop-Reports ids [] false u results v rs
