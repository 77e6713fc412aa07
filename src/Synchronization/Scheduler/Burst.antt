-- ===== src/Synchronization/Scheduler/Burst.antt =====
-- When a call of `__enter__` goes on.
use networking_nsx_t.Base.{
  ℕ, zero, suc, ◌+◌, ◌-◌, ◌*◌, ◌≤◌, ◌<◌, ◌≡◌, refl, some, List, [], ◌∷◌, inl, inr, arith, length,
  get_elem?, ltb, ltb→lt, Bool-cases,
}
use networking_nsx_t.Base.Exec.{ok}
use networking_nsx_t.Synchronization.Scheduler.{Scheduler, Entered, enter, exit}
use networking_nsx_t.Synchronization.Scheduler.Enter.{
  base, at_once, delayed, enter-short, enter-delayed, enter-late,
}

has_elem : (xs : List ℕ) (i : ℕ) → i < length xs → (x : ℕ) × (get_elem? xs i ≡ some x)
has_elem [] i h = absurd (omega arith)
has_elem (x ∷ xs) zero h = (x, refl)
has_elem (x ∷ xs) (suc i) h = has_elem xs i (omega arith)

-- What the caller gets: the call returns, not before it was made, and not before `limit` ticks
-- have passed since the entry `rate` places back.
abbrev pub Returns : Scheduler → ℕ → Type 0
Returns s now =
    (e : Entered) × (enter s now ≡ ok e)
    × (now ≤ e.resumed)
    × ((x : ℕ)
        → s.rate ≤ length s.schedule
        → base s now ≡ some x
        → x ≤ now
        → x + s.limit ≤ e.resumed)

enter_full-Returns :
    (s : Scheduler) (now y : ℕ) → s.rate ≤ length s.schedule → base s now ≡ some y → Returns s now
enter_full-Returns s now y full b = elim (Bool-cases (ltb now (y + s.limit))) [
  | inl early ↦ (
    delayed s now y,
    enter-delayed s now y full b (ltb→lt _ _ early),
    omega arith,
    λ x _ b' past. let same : x ≡ y = cc in omega arith,
  )
  | inr late ↦ (
    at_once s now,
    enter-late s now y full b (ground arith),
    omega arith,
    λ x _ b' past. let same : x ≡ y = cc in ground arith,
  )
]

-- With a positive rate a call of `__enter__` never raises: its offset is always in range. It
-- returns no earlier than it was made, and no earlier than `limit` after the entry `rate` places
-- back, if that entry is not in the future.
pub enter-Returns : (s : Scheduler) (now : ℕ) → 0 < s.rate → Returns s now
enter-Returns s now pos = elim (Bool-cases (ltb (length s.schedule) s.rate)) [
  | inl few ↦ (
    at_once s now,
    enter-short s now (ltb→lt _ _ few),
    omega arith,
    λ x full _ _. absurd (ground arith),
  )
  | inr full ↦
      let (y, b) = has_elem s.schedule (length s.schedule - s.rate) (ground arith) in
      enter_full-Returns s now y (ground arith) b
]

-- A scheduler of rate 1 that was entered once, at the time `x`
abbrev pub entered_once : ℕ → ℕ → Scheduler
entered_once limit x = record { schedule = x ∷ []; rate = 1; limit = limit }

-- The wait is computed with the wrong sign. If a second call is made later than half a period
-- after the first, it sleeps too long, and a third call that is made when the second is done does
-- not wait at all: two calls go on at one time, although the rate is one in `limit` ticks.
pub burst :
    (limit x now : ℕ)
    → x < now
    → now < x + limit
    → limit ≤ 2 * (now - x)
    → (second third : Entered) × (enter (entered_once limit x) now ≡ ok second)
      × (enter (exit second.scheduler second.resumed) second.resumed ≡ ok third)
      × (third.resumed ≡ second.resumed)
unfolding enter exit
burst limit x now after early half =
    let second = delayed (entered_once limit x) now x in
    (
      second,
      at_once (exit second.scheduler second.resumed) second.resumed,
      ground arith,
      ground arith,
      refl,
    )
