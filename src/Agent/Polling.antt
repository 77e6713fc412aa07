-- ===== src/Agent/Polling.antt =====
-- How often get_all_devices synchronizes.
use networking_nsx_t.Base.{
  ℕ, ◌+◌, ◌-◌, ◌≤◌, ◌<◌, Bool, true, false, Option, none, some, List, [], ◌∷◌, ◌≡◌, refl, ap, ◌∙◌,
  arith, ltb, ltb→lt, inl, inr, ◌⊎◌, Bool-cases, ◌&&◌,
}
use mathlib.Core.Path.{subst}
use networking_nsx_t.Base.Exec.{Exception, Result, ok, raise, Exec}
use networking_nsx_t.Agent.{ManagerState, synced, poll, get_all_devices}

and_right : (a b : Bool) → (a && b) ≡ true → b ≡ true
and_right a b h = ground arith

right_false : (a b : Bool) → a ≡ true → (a && b) ≡ false → b ≡ false
right_false a b h g = ground arith

not_lt : (a b : ℕ) → ltb a b ≡ false → b ≤ a
not_lt a b h = ground arith

module _ {ℓ} {W : Type ℓ} (polling_interval : ℕ) (sync_inventory : Exec W (Unit {0})) where
  -- A call at the times `now` and `later`, with the time of the synchronization that it completed
  pub data Step (now later : ℕ) (s : ManagerState W) : Option ℕ → ManagerState W → Type ℓ where
    no_callbacks : s.rpc ≡ false → Step now later s none s
    early : later - s.last_sync_time ≤ polling_interval → Step now later s none s
    fails :
        (e : Exception) (w : W)
        → polling_interval < later - s.last_sync_time
        → sync_inventory s.world ≡ (raise e, w)
        → Step now later s none (record s { world = w })
    completes :
        (w : W)
        → polling_interval < later - s.last_sync_time
        → sync_inventory s.world ≡ (ok tt, w)
        → Step now later s (some now) (record s { last_sync_time = now; world = w })

  due_step :
      (now later : ℕ) (s : ManagerState W) (o : Result (Unit {0}) × W)
      → sync_inventory s.world ≡ o
      → polling_interval < later - s.last_sync_time
      → (done : Option ℕ) × Step now later s done (synced now s o)
  due_step now later s (ok u, w) e due = (some now, completes w due e)
  due_step now later s (raise x, w) e due = (none, fails x w due e)

  idle_step :
      (now later : ℕ) (s : ManagerState W)
      → (s.rpc ≡ true) ⊎ (s.rpc ≡ false)
      → (s.rpc && ltb polling_interval (later - s.last_sync_time)) ≡ false
      → Step now later s none s
  idle_step now later s (inr absent) h = no_callbacks absent
  idle_step now later s (inl built) h = early (
      not_lt polling_interval (later - s.last_sync_time)
        (right_false s.rpc (ltb polling_interval (later - s.last_sync_time)) built h))

  pub poll-Step :
      (now later : ℕ) (s : ManagerState W)
      → (done : Option ℕ) × Step now later s done (poll polling_interval sync_inventory now later s)
  unfolding poll
  poll-Step now later s =
      elim (Bool-cases (s.rpc && ltb polling_interval (later - s.last_sync_time))) [
        | inl due ↦
            rw (poll, due)
              (due_step now later s (sync_inventory s.world) refl
                (ltb→lt polling_interval (later - s.last_sync_time) (and_right s.rpc _ due)))
        | inr idle ↦ rw (poll, idle) (none, idle_step now later s (Bool-cases s.rpc) idle)
      ]

  -- A run of calls in which the two readings of the clock are at most `delay` apart, with the times of the synchronizations that completed and the state after it
  pub data Run (delay : ℕ) : ManagerState W → List ℕ → ManagerState W → Type ℓ where
    stop : {s : ManagerState W} → Run delay s [] s
    skips :
        {s s' s'' : ManagerState W} {times : List ℕ} (now later : ℕ)
        → later ≤ now + delay
        → Step now later s none s'
        → Run delay s' times s''
        → Run delay s times s''
    syncs :
        {s s' s'' : ManagerState W} {times : List ℕ} (now later done : ℕ)
        → later ≤ now + delay
        → Step now later s (some done) s'
        → Run delay s' times s''
        → Run delay s (done ∷ times) s''

  -- The times are more than the polling interval apart, less the delay between the readings.
  abbrev pub Spaced : ℕ → ℕ → List ℕ → Type 0
  Spaced delay last [] = Unit
  Spaced delay last (t ∷ times) = (polling_interval < (t - last) + delay) × Spaced delay t times

  -- Where the last of the times leaves `last_sync_time`
  abbrev pub last_of : ℕ → List ℕ → ℕ
  last_of last [] = last
  last_of last (t ∷ times) = last_of t times

  none_keeps :
      {s s' : ManagerState W} (now later : ℕ)
      → Step now later s none s'
      → s'.last_sync_time ≡ s.last_sync_time
  none_keeps now later (no_callbacks absent) = refl
  none_keeps now later (early soon) = refl
  none_keeps now later (fails e w due failed) = refl

  some_sets :
      {s s' : ManagerState W} (now later done : ℕ)
      → Step now later s (some done) s'
      → (s'.last_sync_time ≡ done) × (done ≡ now) × (polling_interval < later - s.last_sync_time)
  some_sets now later done (completes w due e) = (refl, refl, due)

  spaced_by :
      (delay now later last : ℕ)
      → later ≤ now + delay
      → polling_interval < later - last
      → polling_interval < (now - last) + delay
  spaced_by delay now later last close due = omega (arith, close, due)

  Run-Spaced :
      (delay : ℕ) {s s' : ManagerState W} {times : List ℕ}
      → Run delay s times s'
      → Spaced delay s.last_sync_time times × (s'.last_sync_time ≡ last_of s.last_sync_time times)
  Run-Spaced delay stop = (tt, refl)
  Run-Spaced delay {times = times} (skips now later close step rest) =
      let (spaced, last) = Run-Spaced delay rest in
      let kept = none_keeps now later step in
      (subst (λ t. Spaced delay t times) kept spaced, last ∙ ap (λ t. last_of t times) kept)
  Run-Spaced delay {s = s} (syncs {times = times} now later done close step rest) =
      let (spaced, last) = Run-Spaced delay rest in
      let (set, same, due) = some_sets now later done step in
      (
        (
          rw same (spaced_by delay now later s.last_sync_time close due),
          subst (λ t. Spaced delay t times) set spaced,
        ),
        last ∙ ap (λ t. last_of t times) set,
      )

  -- A call at each of the readings in turn
  abbrev pub calls : List (ℕ × ℕ) → ManagerState W → ManagerState W
  calls [] s = s
  calls ((now, later) ∷ readings) s =
      calls readings ((get_all_devices polling_interval sync_inventory now later s).1)

  abbrev pub AreClose : ℕ → List (ℕ × ℕ) → Type 0
  AreClose delay [] = Unit
  AreClose delay ((now, later) ∷ readings) = (later ≤ now + delay) × AreClose delay readings

  with_step :
      (delay : ℕ) {s s' s'' : ManagerState W} {times : List ℕ} (now later : ℕ) (done : Option ℕ)
      → later ≤ now + delay
      → Step now later s done s'
      → Run delay s' times s''
      → (all : List ℕ) × Run delay s all s''
  with_step delay {times = times} now later none close step rest =
      (times, skips now later close step rest)
  with_step delay {times = times} now later (some t) close step rest =
      (t ∷ times, syncs now later t close step rest)

  calls-Run :
      (delay : ℕ) (readings : List (ℕ × ℕ)) (s : ManagerState W)
      → AreClose delay readings
      → (times : List ℕ) × Run delay s times (calls readings s)
  unfolding get_all_devices
  calls-Run delay [] s close = ([], stop)
  calls-Run delay ((now, later) ∷ readings) s (here, close) =
      let (done, step) = poll-Step now later s in
      let (times, rest) =
        calls-Run delay readings (poll polling_interval sync_inventory now later s) close in
      with_step delay now later done here step rest

  -- Over a sequence of calls of get_all_devices, each of which reads the clock twice within a delay,
  -- the completed synchronizations are more than the polling
  -- interval apart, less the delay between the two readings of the clock in one call, and the first
  -- comes that long after the last one before the run. last_sync_time is the time of the last
  -- completed one; a call that fails, is early or finds no callbacks leaves it.
  pub calls-Spaced :
      (delay : ℕ) (readings : List (ℕ × ℕ)) (s : ManagerState W)
      → AreClose delay readings
      → (times : List ℕ) × Run delay s times (calls readings s)
        × Spaced delay s.last_sync_time times
        × ((calls readings s).last_sync_time ≡ last_of s.last_sync_time times)
  calls-Spaced delay readings s close =
      let (times, run) = calls-Run delay readings s close in
      let (spaced, last) = Run-Spaced delay run in (times, run, spaced, last)
