-- ===== src/Synchronization/Scheduler/Examples.antt =====
-- A scheduler of two calls in ten ticks.
use networking_nsx_t.Base.{◌≡◌, refl, [], ◌∷◌, arith}
use networking_nsx_t.Base.Exec.{ok}
use networking_nsx_t.Synchronization.Scheduler.{Scheduler, Entered, init, enter, exit}
use networking_nsx_t.Synchronization.Scheduler.Run.{Trace, Reach, here, next, entering, wait, start}
use networking_nsx_t.Synchronization.Scheduler.Spacing.{history-IsSpaced}
use networking_nsx_t.Synchronization.Scheduler.Entries.{IsSpaced}
use networking_nsx_t.Synchronization.Scheduler.Burst.{entered_once, burst}

abbrev two_in_ten : Scheduler
two_in_ten = record { schedule = []; rate = 2; limit = 10 }

init-two_in_ten : init 2 10 ≡ ok two_in_ten
unfolding init
init-two_in_ten = refl

abbrev after_two : Trace
after_two = record {
  scheduler = record two_in_ten { schedule = 5 ∷ 7 ∷ [] };
  clock = 7;
  history = 5 ∷ 7 ∷ [];
}

-- The third call, at 7, sleeps until 19 and counts as one at 15.
abbrev after_three : Trace
after_three = record {
  scheduler = record two_in_ten { schedule = 5 ∷ 7 ∷ 15 ∷ [] };
  clock = 19;
  history = 5 ∷ 7 ∷ 15 ∷ [];
}

Reach-three : Reach (start two_in_ten 5) after_three
unfolding enter exit
Reach-three =
    next
      (next
        (next
          (next here (
            entering (start two_in_ten 5)
              (record {
                scheduler = record two_in_ten { schedule = 5 ∷ [] };
                resumed = 5;
                entry = 5;
              })
              refl))
          (wait _ 2))
        (entering _ (record { scheduler = after_two.scheduler; resumed = 7; entry = 7 }) refl))
      (entering after_two (record { scheduler = after_three.scheduler; resumed = 19; entry = 15 })
        refl)

history-IsSpaced_example : IsSpaced 2 10 (5 ∷ 7 ∷ 15 ∷ [])
history-IsSpaced_example =
    history-IsSpaced 2 10 5 two_in_ten after_three init-two_in_ten Reach-three

-- One call in ten ticks: the second, at 6, and the third both go on at 16.
burst_example :
    (second third : Entered) × (enter (entered_once 10 0) 6 ≡ ok second)
    × (enter (exit second.scheduler second.resumed) second.resumed ≡ ok third)
    × (third.resumed ≡ second.resumed)
burst_example = burst 10 0 6 (omega arith) (omega arith) (omega arith)
