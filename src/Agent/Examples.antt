-- ===== src/Agent/Examples.antt =====
-- A manager that polls, and messages about groups.
use networking_nsx_t.Base.{ℕ, zero, suc, String, true, false, List, [], ◌∷◌, ◌≡◌, refl, arith}
use networking_nsx_t.Base.Dict.{Dict}
use networking_nsx_t.Base.Exec.{ok, raise, Exec, http_unsuccessful, Result}
use networking_nsx_t.Synchronization.Queue.{Job}
use networking_nsx_t.Synchronization.Runner.{Runner}
use networking_nsx_t.Agent.{
  ManagerState, manager, get_rpc_callbacks, poll, get_all_devices, Handler, Ids, many,
  sync_security_group,
}
use networking_nsx_t.Agent.Polling.{Run, Spaced, last_of, calls, calls-Spaced}

-- The world counts the attempts. The first one fails.
abbrev attempt : ℕ → Result (Unit {0})
attempt zero = raise http_unsuccessful
attempt (suc n) = ok tt

abbrev sync_inventory : Exec ℕ (Unit {0})
sync_inventory n = (attempt n, suc n)

abbrev readings : List (ℕ × ℕ)
readings = (100, 100) ∷ (103, 104) ∷ (106, 107) ∷ (112, 112) ∷ []

-- Test: the attempt at 100 fails, the one at 103 completes, the call at 106 is early.
polls :
    calls 5 sync_inventory readings (get_rpc_callbacks (manager 0))
    ≡ record { rpc = true; last_sync_time = 112; world = 3 }
unfolding get_rpc_callbacks get_all_devices poll
polls = refl

-- Test: before the callbacks are built nothing is synchronized.
no_callbacks : calls 5 sync_inventory readings (manager 0) ≡ manager 0
unfolding get_all_devices poll
no_callbacks = refl

abbrev built : ManagerState ℕ
built = record { rpc = true; last_sync_time = 0; world = 0 }

calls-Spaced_example :
    (times : List ℕ) × Run 5 sync_inventory 1 built times (calls 5 sync_inventory readings built)
    × Spaced 5 sync_inventory 1 0 times
    × ((calls 5 sync_inventory readings built).last_sync_time ≡ last_of 5 sync_inventory 0 times)
calls-Spaced_example =
    calls-Spaced 5 sync_inventory 1 readings built
      (omega arith, (omega arith, (omega arith, (omega arith, tt))))

abbrev fresh : Runner (List (Job Handler)) Handler
fresh = record { active = []; passive = []; idle = 1; started = [] }

abbrev kwargs : Dict Ids
kwargs = ("security_groups", many ("sg-1" ∷ "sg-2" ∷ [])) ∷ []

-- Test: a synchronization stops at the handler that raises.
abbrev logs : String → String → Exec (List String) (Unit {0})
logs name id calls = (ok tt, name ∷ calls)

abbrev fails : String → Exec (List String) (Unit {0})
fails id calls = (raise http_unsuccessful, "members" ∷ calls)

stops :
    sync_security_group (logs "group") fails (logs "rules") (logs "delete") "sg-1" true []
    ≡ (raise http_unsuccessful, "members" ∷ "group" ∷ [])
unfolding sync_security_group
stops = refl

without_rules :
    sync_security_group
      (logs "group")
      (logs "members")
      (logs "rules")
      (logs "delete")
      "sg-1"
      false
      []
    ≡ (ok tt, "members" ∷ "group" ∷ [])
unfolding sync_security_group
without_rules = refl
