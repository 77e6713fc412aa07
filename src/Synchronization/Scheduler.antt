-- ===== src/Synchronization/Scheduler.antt =====
-- The class Scheduler of networking_nsxv3/common/synchronization.py.
-- A time is a number of ticks of some fixed size. `_semaphore` bounds how many green threads are
-- between __enter__ and __exit__; here one thread at a time enters and leaves.
mod Enter
pub mod Run
pub mod Entries
pub mod Spacing
pub mod Burst
mod Examples
use networking_nsx_t.Base.{
  ℕ, suc, ◌+◌, ◌-◌, Bool, true, false, Option, none, some, List, [], ◌∷◌, ◌++◌, ltb, leb, nat_eq,
  if◌then◌else◌, length, get_elem?, ◌&&◌,
}
use networking_nsx_t.Base.Exec.{Result, ok, raise, and_then, from_option, value_error, index_error}

pub record Scheduler : Type 0 where
  pub schedule : List ℕ
  pub rate : ℕ
  pub limit : ℕ

-- `__init__`
unfoldable pub init : ℕ → ℕ → Result Scheduler
init rate limit =
    if leb limit 0
    then raise value_error
    else if leb rate 0
    then raise value_error
    else ok (record { schedule = []; rate = rate; limit = limit })

-- What `__enter__` decides at its first reading of the clock: to go on at once, or to sleep with
-- an offset into the schedule that it reads again when it wakes up. The offset is negative, and
-- nothing is read, while the schedule is shorter than the rate.
pub data Decision : Type 0 where
  proceed : Decision
  sleep : (offset sleeptime : ℕ) → Decision

unfoldable pub decide : Scheduler → ℕ → Result Decision
decide s run_time =
    if leb s.rate (length s.schedule)
    then (let offset = length s.schedule - s.rate in
        and_then (from_option index_error (get_elem? s.schedule offset)) λ entry.
          if ltb run_time (entry + s.limit)
          then ok (sleep offset (run_time + s.limit - entry))
          else ok proceed)
    else ok proceed

-- The state after a call of `__enter__`, the time at which it returned, and the last value of its
-- `run_time`, which it appended to the schedule.
pub record Entered : Type 0 where
  pub scheduler : Scheduler
  pub resumed : ℕ
  pub entry : ℕ

abbrev pub append : Scheduler → ℕ → Scheduler
append s run_time = record s { schedule = s.schedule ++ run_time ∷ [] }

-- The end of `__enter__` after a sleep until the time `resumed`.
unfoldable pub wake : Scheduler → ℕ → ℕ → Result Entered
wake s offset resumed = and_then (from_option index_error (get_elem? s.schedule offset)) λ entry.
    let run_time = entry + s.limit in
    ok (record { scheduler = append s run_time; resumed = resumed; entry = run_time })

-- `__enter__` at the time `now`
unfoldable pub enter : Scheduler → ℕ → Result Entered
unfolding decide wake
enter s now = and_then (decide s now) (elim [
  | proceed ↦ ok (record { scheduler = append s now; resumed = now; entry = now })
  | sleep offset sleeptime ↦ wake s offset (now + sleeptime)
])

-- The loop of `__exit__`
unfoldable pub pop_expired : ℕ → ℕ → List ℕ → List ℕ
pop_expired limit now [] = []
pop_expired limit now (t ∷ ts) =
    let rest = pop_expired limit now ts in if ltb (t + limit) now then rest else t ∷ ts

unfoldable pub exit : Scheduler → ℕ → Scheduler
unfolding pop_expired
exit s now = record s { schedule = pop_expired s.limit now s.schedule }
