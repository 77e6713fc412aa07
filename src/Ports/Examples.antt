-- ===== src/Ports/Examples.antt =====
-- A port with one address, a pair that is a network, and a QoS policy.
use networking_nsx_t.Base.{◌≡◌, String, none, some, List, [], ◌∷◌, ◌==◌, if◌then◌else◌, str}
use networking_nsx_t.Base.Exec.{ok}
use networking_nsx_t.Base.Dict.{insert}
use networking_nsx_t.Inventory.{no_revisions, visit}
use networking_nsx_t.Ports.Facada.{LogicalPort, PortsApi, tags_of, profiles_with}
use networking_nsx_t.Ports.Agent.{PortRow, Settings}
use networking_nsx_t.Ports.Bindings.{found_port, visit-written}

record Server : Type 0 where
  port : LogicalPort
  updated : List String

abbrev api : PortsApi Server
api = record {
  agent_id = "agent-1";
  qos_key = "QosSwitchingProfile";
  default_switching_profile_ids = record { key = "SpoofGuard"; value = some "s1" } ∷ [];
  get_port = λ id w. (ok (if id == "port" then some w.port else none), w);
  get_qos = λ name w. (ok (some (some "q1")), w);
  update_port = λ lp w. (ok tt, record w { port = lp });
  delete_port = λ lp w. (ok tt, w);
}

abbrev settings : Settings
settings = record { vnic_normal = "normal"; vif_type_ovs = "ovs"; host = "here" }

abbrev old : LogicalPort
old = record { id = "lp"; tags = []; switching_profile_ids = []; address_bindings = [] }

abbrev server : LogicalPort → List String → Server
server lp updated = record { port = lp; updated = updated }

abbrev add : String → Server → Server
add mac w = server w.port (mac ∷ w.updated)

abbrev row_at : String → PortRow
row_at host = record {
  id = "port";
  mac = "m";
  qos_id = some "gold";
  revision = 5;
  binding_host = host;
}

abbrev written : LogicalPort
written = record {
  id = "lp";
  tags = tags_of api 5 ("g" ∷ []);
  switching_profile_ids = profiles_with api (some (some "q1"));
  address_bindings = record { ip_address = "10.0.0.1"; mac_address = "m" } ∷ [];
}

visit-written_example :
    visit "LogicalPort" "agent-1" (found_port api "lp" "port" 5 ("g" ∷ [])) no_revisions
    ≡ ok (record {
      name_rev = insert "port" (str 5) [];
      name_id = insert "port" "lp" [];
      metadata = [];
    })
visit-written_example = visit-written api "lp" "port" 5 ("g" ∷ []) no_revisions
