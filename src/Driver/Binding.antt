-- ===== src/Driver/Binding.antt =====
-- When the driver binds a segment.
use text.Mathlib.Text.{starts_with}
use networking_nsx_t.Base.{◌≡◌, refl, Bool, true, false, not, ◌&&◌, ◌==◌, if◌then◌else◌}
use networking_nsx_t.Base.Exec.{Result, ok, raise, Exec, pure, ◌>>=◌}
use networking_nsx_t.Driver.{
  Agent, Current, Bridge, DriverApi, same_host, is_given, details_of, bind_with,
  try_to_bind_segment_for_agent,
}

-- The port is that of an instance on the agent's host, and the agent is of this driver, enabled
-- and alive.
abbrev pub is_eligible {ℓ} : {W : Type ℓ} → DriverApi W → Current → Agent → Bool
is_eligible api current agent =
    starts_with current.device_owner "compute"
    && agent.admin_state_up
    && agent.alive
    && (api.lower agent.agent_type == api.lower api.agent_type)
    && same_host agent.host current.binding_host

-- Five early returns are one test.
guards {ℓ} :
    {W : Type ℓ} (a b c d e : Bool) (m : Exec W Bool) (w : W)
    → (if not a
          then pure false
          else if not b
          then pure false
          else if not c
          then pure false
          else if not d
          then pure false
          else if not e
          then pure false
          else m)
        w
      ≡ (if a && b && c && d && e then m w else (ok false, w))
guards false b c d e m w = refl
guards true false c d e m w = refl
guards true true false d e m w = refl
guards true true true false e m w = refl
guards true true true true false m w = refl
guards true true true true true m w = refl

module _ {ℓ} {W : Type ℓ} (api : DriverApi W) (current : Current) (agent : Agent) where
  bind-eligible :
      (w : W)
      → try_to_bind_segment_for_agent api current agent w
        ≡ (if is_eligible api current agent then (api.ask >>= bind_with api) w else (ok false, w))
  unfolding try_to_bind_segment_for_agent
  bind-eligible w = guards _ agent.admin_state_up agent.alive _ _ (api.ask >>= bind_with api) w

  -- The outcome of the attempt, given the answer of the agent and the state after it
  abbrev pub answered : Result Bridge → W → Result Bool × W
  answered (raise e) w = (raise e, w)
  answered (ok bridge) w =
      if is_given bridge.logical_switch_id
      then (ok true, api.set_binding (details_of api bridge) w)
      else (ok false, w)

  -- The driver asks the agent for the bridge of a segment exactly if the port is that of an
  -- instance on the agent's host and the agent is of this driver's type, enabled and alive; if not,
  -- it answers False and does nothing. It binds the segment, once, and answers True exactly if the
  -- agent gives the id of a switch; an exception of the question goes on, with no binding.
  pub try_to_bind-answered :
      (r : Result Bridge) (w w' : W)
      → api.ask w ≡ (r, w')
      → try_to_bind_segment_for_agent api current agent w
        ≡ (if is_eligible api current agent then answered r w' else (ok false, w))
  unfolding bind_with
  try_to_bind-answered (raise e) w w' asked = rw (bind-eligible w, asked)
  try_to_bind-answered (ok bridge) w w' asked = rw (bind-eligible w, asked)
