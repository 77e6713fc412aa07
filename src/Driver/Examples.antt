-- ===== src/Driver/Examples.antt =====
-- A port of an instance, and an agent that gives the id of a switch.
use networking_nsx_t.Base.{ℕ, ◌+◌, ◌≡◌, refl, true, some}
use networking_nsx_t.Base.Exec.{ok}
use networking_nsx_t.Driver.{
  Agent, Current, Bridge, DriverApi, same_host, try_to_bind_segment_for_agent,
}
use networking_nsx_t.Driver.Binding.{try_to_bind-answered}

abbrev bridge : Bridge
bridge = record { logical_switch_id = some "ls"; segmentation_id = some "7" }

-- The state counts the bindings.
abbrev api : DriverApi ℕ
api = record {
  agent_type = "NSXv3 Agent";
  lower = λ s. s;
  ask = λ n. (ok bridge, n);
  set_binding = λ details n. n + 1;
}

abbrev current : Current
current = record { device_owner = "compute:nova"; binding_host = some "here" }

abbrev agent : Agent
agent = record {
  admin_state_up = true;
  alive = true;
  agent_type = "NSXv3 Agent";
  host = some "here";
}

try_to_bind-answered_example : try_to_bind_segment_for_agent api current agent 0 ≡ (ok true, 1)
unfolding same_host
try_to_bind-answered_example = try_to_bind-answered api current agent (ok bridge) 0 0 refl
