-- ===== src/Synchronization/Scheduler/Enter.antt =====
-- The outcomes of `__enter__`.
use networking_nsx_t.Base.{
  ℕ, ◌+◌, ◌-◌, ◌≤◌, ◌<◌, ◌≡◌, refl, Option, none, some, inl, inr, arith, length, get_elem?, ltb,
  ltb→lt, Bool-cases,
}
use networking_nsx_t.Base.Exec.{ok, raise, index_error}
use networking_nsx_t.Synchronization.Scheduler.{Scheduler, Entered, append, enter}

module _ (s : Scheduler) (now : ℕ) where
  -- The entry that is `rate` places before the end of the schedule
  abbrev pub base : Option ℕ
  base = get_elem? s.schedule (length s.schedule - s.rate)

  abbrev pub at_once : Entered
  at_once = record { scheduler = append s now; resumed = now; entry = now }

  abbrev pub delayed : ℕ → Entered
  delayed x = record {
    scheduler = append s (x + s.limit);
    resumed = now + (now + s.limit - x);
    entry = x + s.limit;
  }

  pub enter-short : length s.schedule < s.rate → enter s now ≡ ok at_once
  unfolding enter
  enter-short h = ground arith

  pub enter-delayed :
      (x : ℕ)
      → s.rate ≤ length s.schedule
      → base ≡ some x
      → now < x + s.limit
      → enter s now ≡ ok (delayed x)
  unfolding enter
  enter-delayed x full b early = ground arith

  pub enter-late :
      (x : ℕ)
      → s.rate ≤ length s.schedule
      → base ≡ some x
      → x + s.limit ≤ now
      → enter s now ≡ ok at_once
  unfolding enter
  enter-late x full b late = ground arith

  pub enter-broken : s.rate ≤ length s.schedule → base ≡ none → enter s now ≡ raise index_error
  unfolding enter
  enter-broken full b = ground arith

  -- A call that returns did so at once, with a schedule that is short or whose base is old
  -- enough, or it slept because the base is recent.
  pub data Outcome : Entered → Type 0 where
    short : length s.schedule < s.rate → Outcome at_once
    old : (x : ℕ) → s.rate ≤ length s.schedule → base ≡ some x → x + s.limit ≤ now → Outcome at_once
    recent :
        (x : ℕ)
        → s.rate ≤ length s.schedule
        → base ≡ some x
        → now < x + s.limit
        → Outcome (delayed x)

  enter-Outcome_full :
      (o : Option ℕ) (e : Entered)
      → s.rate ≤ length s.schedule
      → base ≡ o
      → enter s now ≡ ok e
      → Outcome e
  enter-Outcome_full none e full b h = cc (enter-broken full b)
  enter-Outcome_full (some x) e full b h = elim (Bool-cases (ltb now (x + s.limit))) [
    | inl early ↦
        let at_e : delayed x ≡ e = cc (enter-delayed x full b (ltb→lt _ _ early)) in
        rw (← at_e) (recent x full b (ltb→lt _ _ early))
    | inr late ↦
        let at_e : at_once ≡ e = cc (enter-late x full b (ground arith)) in
        rw (← at_e) (old x full b (ground arith))
  ]

  pub enter-Outcome : (e : Entered) → enter s now ≡ ok e → Outcome e
  enter-Outcome e h = elim (Bool-cases (ltb (length s.schedule) s.rate)) [
    | inl few ↦
        let at_e : at_once ≡ e = cc (enter-short (ltb→lt _ _ few)) in
        rw (← at_e) (short (ltb→lt _ _ few))
    | inr full ↦ enter-Outcome_full base e (ground arith) refl h
  ]
