-- ===== src/Syncing/Examples.antt =====
-- A port and a policy of a small database, synchronized over messages.
use networking_nsx_t.Base.{ℕ, true, String, Option, none, some, List, [], ◌∷◌, str, ◌≡◌, refl}
use networking_nsx_t.Base.Exec.{no_messages, Result, ok, raise, sdk_error}
use networking_nsx_t.Database.{QosPolicy, StandardAttribute, PortDetails}
use networking_nsx_t.Database.Lookups.{HasUniqueKeys}
use networking_nsx_t.Database.Examples.{db}
use networking_nsx_t.Ports.Facada.{LogicalPort, PortsApi}
use networking_nsx_t.Ports.Agent.{Settings}
use networking_nsx_t.Ports.Bindings.{agent_api}
use networking_nsx_t.Qos.{Profile, QosApi}
use networking_nsx_t.Qos.Put.{spec_of, IsSent}
use networking_nsx_t.Rpc.Examples.{ones, count-ones, server}
use networking_nsx_t.Syncing.{sync_port_by_id, sync_qos_by_id}
use networking_nsx_t.Syncing.Ports.{logical_port, sync_port_by_id-written}
use networking_nsx_t.Syncing.Policies.{rules_of, sync_qos_by_id-put}

-- NSX-T has one port, and the devices that were updated are kept.
record Nsx : Type 0 where
  port : LogicalPort
  updated : List String

abbrev api : PortsApi Nsx
api = record {
  agent_id = "agent";
  qos_key = "QosSwitchingProfile";
  default_switching_profile_ids = [];
  get_port = λ id w. (ok (some w.port), w);
  get_qos = λ name w. (ok (some (some "p1")), w);
  update_port = λ lp w. (ok tt, record w { port = lp });
  delete_port = λ lp w. (ok tt, w);
}

abbrev settings : Settings
settings = record { vnic_normal = "normal"; vif_type_ovs = "ovs"; host = "h-1" }

abbrev old : LogicalPort
old = record { id = "lp"; tags = []; switching_profile_ids = []; address_bindings = [] }

abbrev nsx : Nsx
nsx = record { port = old; updated = [] }

abbrev add : String → Nsx → Nsx
add mac w = record w { updated = mac ∷ w.updated }

abbrev loads : String → Result (Option ℕ)
loads s = ok none

keys : HasUniqueKeys db
keys = record { ports = refl; attributes = refl; policy_bindings = refl; policies = refl }

abbrev details : PortDetails
details = record {
  id = "p-1";
  mac_address = "fa:16";
  admin_state_up = true;
  status = "ACTIVE";
  qos_policy_id = some "q-1";
  revision_number = 5;
  host = "h-1";
  vif_details = "{}";
}

sync_port_by_id-written_example :
    sync_port_by_id server ones "h-1" (agent_api api settings add) loads "p-1" nsx ≡ (
      ok tt,
      record {
        port = logical_port server ones count-ones keys api details old (some (some "p1"));
        updated = "fa:16" ∷ [];
      },
    )
sync_port_by_id-written_example =
    sync_port_by_id-written server ones count-ones keys api settings add loads details none old
      (some (some "p1")) nsx nsx nsx refl refl refl refl refl

-- Test: what the port has then
written : logical_port server ones count-ones keys api details old (some (some "p1")) ≡ record {
  id = "lp";
  tags =
      record { scope = "security_group"; tag = "g-1" }
      ∷ record { scope = "revision_number"; tag = str 5 }
      ∷ record { scope = "agent_id"; tag = "agent" }
      ∷ [];
  switching_profile_ids = record { key = "QosSwitchingProfile"; value = some "p1" } ∷ [];
  address_bindings =
      record { ip_address = "10.0.0.1"; mac_address = "fa:16" }
      ∷ record { ip_address = "10.0.0.9"; mac_address = "fa:17" }
      ∷ [];
}
written = refl

-- An NSX-T that has the profile, and refuses to create it again
abbrev profile : Profile
profile = record {
  id = "p1";
  display_name = "q-1";
  resource_type = "QosSwitchingProfile";
  revision = 3;
}

abbrev qos_api : QosApi (List String)
qos_api = record {
  base_url = "https://nsx";
  connection = record {
    login = λ w. (ok tt, w);
    pause = λ w. w;
    operation_pause = λ w. w;
    retry_count = 3;
  };
  get_profile = λ name w. (ok (some profile), w);
  create_profile = λ name tags w. (raise sdk_error, w);
  delete_profile = λ qos w. (ok tt, w);
  session_put = λ url body w. (ok (record { status_code = 200; content = no_messages }), url ∷ w);
  dumps = λ spec. "{}";
  dumps_text = λ s. s;
}

abbrev policy : QosPolicy
policy = record { id = "q-1"; name = "gold"; standard_attr_id = 3 }

abbrev attributes : StandardAttribute
attributes = record { id = 3; revision_number = 7; created_at = 300 }

sync_qos_by_id-put_example :
    IsSent qos_api
      (spec_of 7 (rules_of db "q-1") profile)
      []
      (sync_qos_by_id server ones "h-1" qos_api "q-1" [])
sync_qos_by_id-put_example =
    sync_qos_by_id-put server ones count-ones "h-1" qos_api "q-1" policy attributes
      (raise sdk_error) profile [] [] [] refl refl refl refl
