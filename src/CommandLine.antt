-- ===== src/CommandLine.antt =====
-- The command line synchronization: cli_sync of
-- networking_nsxv3/plugins/ml2/drivers/nsxv3/agent/nsxv3_agent.py.
pub mod Status
mod Examples
use networking_nsx_t.Base.{ℕ, String, Bool, true, false, ◌||◌, ◌+++◌, List, [], ◌∷◌, if◌then◌else◌}
use networking_nsx_t.Base.Dict.{Dict, insert}
use networking_nsx_t.Base.Exec.{Exception, Result, ok, raise, Exec}

-- An exception ends a call, and the state that it left stays.
-- `message` is str of the exception.
abbrev pub status_of : (Exception → String) → Result (Unit {0}) → String
status_of message (ok t) = "Success"
status_of message (raise e) = "Error: " +++ message e

abbrev pub is_error : Result (Unit {0}) → Bool
is_error (ok t) = false
is_error (raise e) = true

pub record CliResult {ℓ} (W : Type ℓ) : Type ℓ where
  pub ports : Dict String
  pub security_groups : Dict String
  pub qos_policies : Dict String
  pub exit_code : ℕ
  pub final : W

module _ {ℓ} {W : Type ℓ} (message : Exception → String) where
  -- The rest of the loop after a call
  abbrev pub and_continue :
      (Dict String → Bool → W → (Dict String × Bool) × W)
      → String
      → Dict String
      → Bool
      → Result (Unit {0}) × W
      → (Dict String × Bool) × W
  and_continue rest id status error (r, w) =
      rest (insert id (status_of message r) status) (error || is_error r) w

  -- The loop of the inner function `execute`
  unfoldable pub execute_loop :
      (String → Exec W (Unit {0})) → List String → Dict String → Bool → W → (Dict String × Bool) × W
  execute_loop callback [] status error w = ((status, error), w)
  execute_loop callback (id ∷ ids) status error w =
      and_continue (execute_loop callback ids) id status error (callback id w)

  unfoldable pub execute : (String → Exec W (Unit {0})) → List String → W → (Dict String × Bool) × W
  execute callback ids w = execute_loop callback ids [] false w

  -- `sync_port`, `sync_security_group` and `sync_qos` of the agent, in this order
  unfoldable pub cli_sync :
      (sync_port sync_security_group sync_qos : String → Exec W (Unit {0}))
      → (pt_ids sg_ids qs_ids : List String) → W
      → CliResult W
  cli_sync sync_port sync_security_group sync_qos pt_ids sg_ids qs_ids w =
      let pt = execute sync_port pt_ids w in
      let sg = execute sync_security_group sg_ids pt.1 in
      let qs = execute sync_qos qs_ids sg.1 in
      record {
        ports = pt.0.0;
        security_groups = sg.0.0;
        qos_policies = qs.0.0;
        exit_code = if pt.0.1 || sg.0.1 || qs.0.1 then 1 else 0;
        final = qs.1;
      }
