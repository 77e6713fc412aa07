-- ===== src/CommandLine/Examples.antt =====
-- Three ids, of which the second raises.
use networking_nsx_t.Base.{ℕ, ◌+◌, ◌≡◌, refl, String, none, List, [], ◌∷◌, ◌==◌, if◌then◌else◌}
use networking_nsx_t.Base.Dict.{lookup}
use networking_nsx_t.Base.Exec.{Exception, not_found, Result, ok, raise, Exec}
use networking_nsx_t.CommandLine.{execute, execute_loop, cli_sync}
use networking_nsx_t.CommandLine.Status.{done, ran, any_error, last_status, execute-Ran}

-- The state counts the calls.
abbrev callback : String → Exec ℕ (Unit {0})
callback id n = if id == "b" then (raise not_found, n + 1) else (ok tt, n + 1)

abbrev message : Exception → String
message e = "Not found"

abbrev results : List (String × Result (Unit {0}))
results = ("a", ok tt) ∷ ("b", raise not_found) ∷ ("c", ok tt) ∷ []

execute-Ran_example :
    ((execute message callback ("a" ∷ "b" ∷ "c" ∷ []) 0).1 ≡ 3)
    × ((execute message callback ("a" ∷ "b" ∷ "c" ∷ []) 0).0.1 ≡ any_error results)
    × ((id : String)
        → lookup id (execute message callback ("a" ∷ "b" ∷ "c" ∷ []) 0).0.0
          ≡ last_status message results id none)
execute-Ran_example =
    execute-Ran message callback ("a" ∷ "b" ∷ "c" ∷ []) 0 3 results
      (ran "a" (ok tt) 1 refl (ran "b" (raise not_found) 2 refl (ran "c" (ok tt) 3 refl (done 3))))

-- Test: one failure makes the exit code 1.
failure : (cli_sync message callback callback callback ("a" ∷ []) ("b" ∷ []) [] 0).exit_code ≡ 1
unfolding cli_sync execute execute_loop
failure = refl
