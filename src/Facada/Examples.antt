-- ===== src/Facada/Examples.antt =====
-- The setup and the switches at a server that keeps the names of its switches, and a port without
-- setup.
use networking_nsx_t.Base.{
  ℕ, zero, suc, ◌≤◌, ◌≢◌, String, Bool, true, false, if◌then◌else◌, Option, none, some, List, [],
  ◌∷◌, ◌++◌, map, keep, get_elem?, length, ◌≡◌, refl, eq_of_some, ap, ◌==◌, arith, str, ◌+++◌,
}
use networking_nsx_t.Base.Exec.{Exception, attribute_error, Result, ok, raise}
use networking_nsx_t.Client.Policy.{Connection, sdk_policy, retry_loop, handle}
use networking_nsx_t.Client.Operations.{Service, str_of, get, get_body, get_hits, create}
use networking_nsx_t.Client.Store.{IsStore, IsIndexed}
use networking_nsx_t.Ports.Facada.{PortsApi}
use networking_nsx_t.Ports.Agent.{AgentApi, PortRow}
use networking_nsx_t.CommandLine.{execute}
use networking_nsx_t.Facada.{
  FacadaConfig, no_attributes, TransportZone, spoof_guard, SwitchingProfile, LogicalSwitch, sw_name,
  spoof_guard_entries, setup, port_update_with,
}
use networking_nsx_t.Facada.Switches.{asks, same_switch, get_switch_id_for_segmentation_id-once}
use networking_nsx_t.Facada.Unset.{execute-unset, sync_row}

-- A switch by its name; its id is the name with a mark, or empty where it has none.
abbrev marked : Option String → String
marked none = ""
marked (some name) = String.◌∷◌ "#" name

abbrev unmarked : String → Option String
unmarked String.[] = none
unmarked (String.◌∷◌ c name) = some name

abbrev stored : Option String → LogicalSwitch
stored name = record {
  id = some (marked name);
  display_name = name;
  admin_state = "UP";
  transport_zone_id = some "tz-1";
  replication_mode = "MTEP";
  vni = none;
  vlan = 10;
}

-- The names of the switches, and whether the search still lacks the last one of them
record Names : Type 0 where
  names : List (Option String)
  before : List (Option String)
  late : Bool

abbrev objects : Names → List LogicalSwitch
objects w = map stored w.names

abbrev indexed : Names → List LogicalSwitch
indexed w = map stored (if w.late then w.before else w.names)

abbrev pause : Names → Names
pause w = record w { late = false }

abbrev connection {ℓ} : {W : Type ℓ} → (W → W) → Connection W
connection pause = record {
  login = λ w. (ok tt, w);
  pause = λ w. w;
  operation_pause = pause;
  retry_count = 3;
}

abbrev ident : LogicalSwitch → String
ident ls = marked ls.display_name

abbrev switches : Service Names LogicalSwitch
switches = record {
  id = λ ls. ls.id;
  display_name = λ ls. ls.display_name;
  as_model = λ model ls. ls;
  svc_get = λ id w. (ok (stored (unmarked id)), w);
  svc_create = λ ls w. (
    ok (stored ls.display_name),
    record {
      names = w.names ++ ls.display_name ∷ [];
      before = if w.late then w.before else w.names;
      late = true;
    },
  );
  svc_update = λ id ls w. (ok ls, w);
  svc_delete = λ id w. (ok tt, w);
  svc_list = λ key value w. (ok [], w);
  query = λ name w. (ok (map ident (keep (λ ls. str_of ls.display_name == name) (indexed w))), w);
}

stored-unmarked : (name : Option String) → stored (unmarked (marked name)) ≡ stored name
stored-unmarked none = refl
stored-unmarked (some name) = refl

stored_at :
    (i : ℕ) (ls : LogicalSwitch) (w : List (Option String))
    → get_elem? (map stored w) i ≡ some ls
    → stored (unmarked (ident ls)) ≡ ls
stored_at i ls [] h = cc
stored_at zero ls (name ∷ w) h =
    let e : stored name ≡ ls = eq_of_some h in rw (← e) (stored-unmarked name)
stored_at (suc i) ls (name ∷ w) h = stored_at i ls w h

stored-append :
    (w : List (Option String)) (name : Option String)
    → map stored (w ++ name ∷ []) ≡ map stored w ++ stored name ∷ []
stored-append [] name = refl
stored-append (n ∷ w) name = rw (stored-append w name) refl

store : IsStore switches objects indexed
store = record {
  ident = ident;
  searches = λ name w. refl;
  reads = λ i ls w at. ap (λ x. (ok x, w)) (stored_at i ls w.names at);
  models = λ model ls. refl;
}

abbrev lag_of : Bool → ℕ
lag_of true = 1
lag_of false = 0

current_at :
    (late : Bool) (before names : List (Option String))
    → lag_of late ≡ 0
    → map stored (if late then before else names) ≡ map stored names
current_at true before names h = absurd (omega arith)
current_at false before names h = refl

lag_at : (late : Bool) (n : ℕ) → lag_of late ≡ suc n → 0 ≡ n
lag_at true n h = omega arith
lag_at false n h = absurd (omega arith)

short_at : (late : Bool) (n : ℕ) → lag_of late ≢ suc (suc n)
short_at true n h = omega arith
short_at false n h = omega arith

index : IsIndexed switches objects indexed pause 1
index = record {
  lag = λ w. lag_of w.late;
  up_to_date = λ w h. current_at w.late w.before w.names h;
  waits = λ w n h. (lag_at w.late n h, refl);
  stays = λ w n h. absurd (short_at w.late n h);
  creates = λ model w. (
    stored model.display_name,
    record {
      names = w.names ++ model.display_name ∷ [];
      before = if w.late then w.before else w.names;
      late = true;
    },
    refl,
    stored-append w.names model.display_name,
    refl,
    omega arith,
    λ n h. refl,
  );
}

abbrev one_switch : Names
one_switch = record { names = some "zone-1" ∷ []; before = []; late = false }

abbrev config : FacadaConfig
config = record {
  nsxv3_transport_zone_name = "zone";
  agent_id = "agent";
  nsxv3_enable_spoof_guard = true;
  ip_discovery_key = "IpDiscovery";
  spoof_guard_key = "SpoofGuard";
  white_list_lport_bindings = "LPORT_BINDINGS";
}

abbrev same : Names → List LogicalSwitch
same w =
    same_switch (connection pause) 5 config switches objects indexed store 1 index (λ ls. refl)
      (some "tz-1") 10 w

abbrev asked : Names → Result (Option String) × Names
asked w =
    asks (connection pause) 5 config switches objects indexed store 1 index (λ ls. refl)
      (some "tz-1") 10 w

few_switches : length (same one_switch) ≤ 1
unfolding sw_name str
few_switches = omega arith

get_switch_id_for_segmentation_id-once_example :
    (ls : LogicalSwitch) × (after : Names) × (same after ≡ ls ∷ [])
    × (asked one_switch ≡ (ok ls.id, after))
    × (asked after ≡ (ok ls.id, after))
get_switch_id_for_segmentation_id-once_example =
    get_switch_id_for_segmentation_id-once (connection pause) 5 config switches objects indexed
      store 1 index (λ ls. refl) (some "tz-1") 10 one_switch (omega arith) refl few_switches

-- A server without its transport zone, and one that has it and creates what it is asked for
abbrev zones : List String → Service (Unit {0}) TransportZone
zones hits = record {
  id = λ zone. zone.id;
  display_name = λ zone. zone.display_name;
  as_model = λ model zone. zone;
  svc_get = λ id w. (ok (record { id = some id; display_name = some "zone" }), w);
  svc_create = λ zone w. (ok zone, w);
  svc_update = λ id zone w. (ok zone, w);
  svc_delete = λ id w. (ok tt, w);
  svc_list = λ key value w. (ok [], w);
  query = λ name w. (ok hits, w);
}

abbrev profiles : Service (Unit {0}) SwitchingProfile
profiles = record {
  id = λ profile. profile.id;
  display_name = λ profile. profile.display_name;
  as_model = λ model profile. record model { id = profile.id };
  svc_get = λ id w. (ok (record { id = some id; display_name = none; spec = spoof_guard [] }), w);
  svc_create = λ profile w. (ok profile, w);
  svc_update = λ id profile w. (ok profile, w);
  svc_delete = λ id w. (ok tt, w);
  svc_list = λ key value w. (ok [], w);
  query = λ name w. (ok (("id of " +++ name) ∷ []), w);
}

no_zone : setup (connection (λ w. w)) 5 config (zones []) profiles tt ≡ (raise attribute_error, tt)
unfolding setup get get_body get_hits sdk_policy retry_loop handle
no_zone = refl

set_up : setup (connection (λ w. w)) 5 config (zones ("tz-1" ∷ [])) profiles tt ≡ (
  ok (record {
    tz_id = some (some "tz-1");
    agent_id = some "agent";
    default_switching_profile_ids = some (
        record { key = "IpDiscovery"; value = some "id of zone-default-IpDiscovery" }
        ∷ record { key = "SpoofGuard"; value = some "id of zone-default-SpoofGuard" }
        ∷ []);
  }),
  tt,
)
unfolding setup get get_body get_hits sdk_policy retry_loop handle create spoof_guard_entries
set_up = refl

-- Ports that NSX-T has, one of them of this host
abbrev api : PortsApi (Unit {0})
api = record {
  agent_id = "";
  qos_key = "QosSwitchingProfile";
  default_switching_profile_ids = [];
  get_port = λ id w. (
    ok (some (record { id = id; tags = []; switching_profile_ids = []; address_bindings = [] })),
    w,
  );
  get_qos = λ name w. (ok none, w);
  update_port = λ lp w. (ok tt, w);
  delete_port = λ lp w. (ok tt, w);
}

abbrev agent : AgentApi (Unit {0})
agent = record {
  settings = record { vnic_normal = "normal"; vif_type_ovs = "ovs"; host = "h-1" };
  update = port_update_with api no_attributes;
  delete = λ id w. (ok tt, w);
  add_updated_device = λ mac w. w;
}

abbrev row : String → PortRow
row id = record {
  id = id;
  mac = "fa:16";
  qos_id = none;
  revision = 5;
  binding_host = if id == "p-2" then "h-1" else "h-2";
}

abbrev message : Exception → String
message e = "AttributeError"

execute-unset_example :
    (execute message
      (sync_row agent api
        (λ id revision groups bindings qos_name. refl)
        row
        (λ id. [])
        (λ id. [])
        (λ id. []))
      ("p-1" ∷ "p-2" ∷ [])
      tt).0.1
    ≡ true
execute-unset_example =
    execute-unset agent api (λ id revision groups bindings qos_name. refl) row (λ id. []) (λ id. [])
      (λ id. []) message ("p-1" ∷ "p-2" ∷ []) tt refl
