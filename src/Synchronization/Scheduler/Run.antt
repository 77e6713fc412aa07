-- ===== src/Synchronization/Scheduler/Run.antt =====
-- Sequences of calls of a Scheduler, with what they recorded and when they went on.
use networking_nsx_t.Base.{ℕ, ◌+◌, ◌≡◌, List, [], ◌∷◌, ◌++◌}
use networking_nsx_t.Base.Exec.{ok}
use networking_nsx_t.Synchronization.Scheduler.{Scheduler, Entered, enter, exit}

-- `clock` is the time of the last event. `history` holds every entry that was ever appended to the
-- schedule, in order; the schedule itself forgets the expired ones.
pub record Trace : Type 0 where
  pub scheduler : Scheduler
  pub clock : ℕ
  pub history : List ℕ

pub data Step : Trace → Trace → Type 0 where
  wait : (t : Trace) (n : ℕ) → Step t (record t { clock = t.clock + n })
  entering :
      (t : Trace) (e : Entered)
      → enter t.scheduler t.clock ≡ ok e
      → Step t (record {
        scheduler = e.scheduler;
        clock = e.resumed;
        history = t.history ++ e.entry ∷ [];
      })
  leaving : (t : Trace) → Step t (record t { scheduler = exit t.scheduler t.clock })

pub data Reach (s : Trace) : Trace → Type 0 where
  here : Reach s s
  next : {t u : Trace} → Reach s t → Step t u → Reach s u

abbrev pub start : Scheduler → ℕ → Trace
start s now = record { scheduler = s; clock = now; history = [] }
