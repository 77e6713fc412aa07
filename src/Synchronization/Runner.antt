-- ===== src/Synchronization/Runner.antt =====
-- The class Runner of networking_nsxv3/common/synchronization.py.
pub mod Jobs
pub mod Drain
mod Examples
use networking_nsx_t.Base.{
  ℕ, zero, suc, String, Bool, true, false, ◌&&◌, Option, none, some, List, [], ◌∷◌, ◌++◌, map, ltb,
  if◌then◌else◌,
}
use networking_nsx_t.Synchronization.Queue.{Job, PriorityQueue}

pub data Priority : Type 0 where
  highest higher high medium low lower lowest : Priority

-- `priority.value`
unfoldable pub value_of : Priority → ℕ
value_of highest = 0
value_of higher = 1
value_of high = 2
value_of medium = 3
value_of low = 4
value_of lower = 5
value_of lowest = 6

-- `n == Priority.M` of an int and a member of the Enum class: they are never equal.
unfoldable pub int_eq_member : ℕ → Priority → Bool
int_eq_member n member = false

-- `started` are the jobs that were handed to the pool of workers, oldest first.
pub record Runner (Q F : Type 0) : Type 0 where
  pub active : Q
  pub passive : Q
  pub idle : ℕ
  pub started : List (Job F)

abbrev pub item_of : {F : Type 0} → Priority → F → String → Job F
item_of priority fn jid = record { value = value_of priority; id = jid; fn = fn }

module _ {F : Type 0} (pq : PriorityQueue F) where
  open pq use {Queue, qsize, put_nowait, get_nowait}

  -- The body of the loop of `run`. Where the queue is full the job is dropped with a log line.
  unfoldable pub enqueue : Priority → F → Runner Queue F → String → Runner Queue F
  enqueue priority fn r jid =
      let item = item_of priority fn jid in
      if int_eq_member (value_of priority) highest
      then elim (put_nowait r.active item) [ none ↦ r | some q ↦ record r { active = q } ]
      else elim (put_nowait r.passive item) [ none ↦ r | some q ↦ record r { passive = q } ]

  -- `run(priority, ids, fn)`
  unfoldable pub run : Priority → List String → F → Runner Queue F → Runner Queue F
  run priority [] fn r = r
  run priority (jid ∷ ids) fn r = run priority ids fn (enqueue priority fn r jid)

  -- The first `if` of the loop of `_start`, and whether it did not raise. A job that the active
  -- queue has no room for is gone.
  unfoldable pub refill : Runner Queue F → Bool × Runner Queue F
  refill r =
      if ltb (qsize r.active) r.idle && ltb 0 (qsize r.passive)
      then elim (get_nowait r.passive) [
        | none ↦ (false, r)
        | some (job, passive) ↦ elim (put_nowait r.active job) [
          | none ↦ (false, record r { passive = passive })
          | some active ↦ (true, record r { active = active; passive = passive })
        ]
      ]
      else (true, r)

  -- The rest of the loop. A wait that ends with Empty changes nothing.
  unfoldable pub start_next : Runner Queue F → Runner Queue F
  start_next r = elim (get_nowait r.active) [
    | none ↦ r
    | some (job, active) ↦ record r { active = active; started = r.started ++ job ∷ [] }
  ]

  -- One round of `_start`
  unfoldable pub round : Runner Queue F → Runner Queue F
  unfolding refill start_next
  round r = let (go_on, r') = refill r in if go_on then start_next r' else r'

  unfoldable pub rounds : ℕ → Runner Queue F → Runner Queue F
  rounds zero r = r
  rounds (suc n) r = rounds n (round r)
