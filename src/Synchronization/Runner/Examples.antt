-- ===== src/Synchronization/Runner/Examples.antt =====
-- A runner with one worker, over queues that keep their items in a list. The function of a job is
-- named by a text.
use mathlib.Core.List.{Perm}
use networking_nsx_t.Base.{◌≡◌, refl, String, List, [], ◌∷◌, arith}
use networking_nsx_t.Synchronization.Queue.{Job}
use networking_nsx_t.Synchronization.ListQueue.{list_queue, list_queue-IsUnbounded}
use networking_nsx_t.Synchronization.Runner.{
  highest, high, low, Runner, value_of, int_eq_member, item_of, enqueue, run, round, rounds,
}
use networking_nsx_t.Synchronization.Runner.Jobs.{all_jobs, round-Perm}
use networking_nsx_t.Synchronization.Runner.Drain.{Drained, rounds-Drained}

abbrev fresh : Runner (List (Job String)) String
fresh = record { active = []; passive = []; idle = 1; started = [] }

abbrev waiting : Runner (List (Job String)) String
waiting = record fresh {
  passive = item_of highest "member" "b" ∷ item_of low "port" "p" ∷ item_of high "qos" "q" ∷ [];
}

-- A job of the highest priority waits in the passive queue like any other.
highest_is_passive :
    run (list_queue String) highest ("b" ∷ []) "member" fresh
    ≡ record fresh { passive = item_of highest "member" "b" ∷ [] }
unfolding run enqueue int_eq_member
highest_is_passive = refl

round-Perm_example :
    Perm
      (all_jobs
        (list_queue String)
        (list_queue-IsUnbounded String)
        (round (list_queue String) waiting))
      (all_jobs (list_queue String) (list_queue-IsUnbounded String) waiting)
round-Perm_example = round-Perm (list_queue String) (list_queue-IsUnbounded String) waiting

rounds-Drained_example : Drained (list_queue String) (list_queue-IsUnbounded String) 3 waiting
rounds-Drained_example =
    rounds-Drained (list_queue String) (list_queue-IsUnbounded String) 3 waiting refl refl
      (omega arith)

drain_order :
    (rounds (list_queue String) 3 waiting).started
    ≡ item_of highest "member" "b" ∷ item_of high "qos" "q" ∷ item_of low "port" "p" ∷ []
unfolding rounds round value_of
drain_order = refl
