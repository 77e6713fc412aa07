-- ===== src/Migration/Examples.antt =====
-- A migration at a concrete vCenter, and the theorems on it.
use networking_nsx_t.Base.{
  ℕ, suc, zero, true, false, Option, none, some, List, [], ◌∷◌, ◌≡◌, refl, ◌&&◌, All,
}
use networking_nsx_t.Base.Exec.{Result, ok, raise, Exec, pure, ambiguous}
use networking_nsx_t.Inventory.{Tag}
use networking_nsx_t.Vsphere.{
  Session, Filter, VsphereState, edited_nic, first_update, state_of, first_named, first_nic,
}
use networking_nsx_t.Vsphere.Methods.{
  attach_vm_to_network, attach_to, wait_for_task, connection_retry_policy, _get_conn, _connect,
  await_task, see_changes, get_managed_object, get_vm_nic_by_mac,
}
use networking_nsx_t.Vsphere.Filters.{Created}
use networking_nsx_t.Migration.{
  MigratedPort, UpdateArgs, MigrationTarget, migrated_nic, has_override, is_assigned,
  migration_scope, vm_tags, scope_tags, _get_port_tags, opaque_network, attach_nic, migrate_nic,
  migrate_vm, _migrate_port, migrator,
}
use networking_nsx_t.Migration.Attaching.{IsOfPort, MigrationLaws, _migrate_port-Keeps}
use networking_nsx_t.Migration.Forwarding.{migrator-Forwarded}
use networking_nsx_t.Vsphere.Examples.{
  Hall, hall, config, vcenter, succeeding, card, server, net, net_backing,
}

abbrev tags : List Tag
tags =
    record { scope = migration_scope; tag = "nvds" } ∷ record { scope = "other"; tag = "dvs" } ∷ []

abbrev target : MigrationTarget Hall
target = record {
  config = config;
  vcenter = vcenter succeeding;
  virtual_machine = record {
    view = λ session w. (ok (server ∷ []), w);
    name = λ vm. some "server (d-1)";
  };
  network = record { view = λ session w. (ok (net ∷ []), w); name = λ o. some "zone-10" };
  host = "agent-1";
  get_switch_id_for_segmentation_id = λ segmentation_id. pure "ls-10";
  get_switch = λ id. pure (some (some "zone-10"));
  list_virtual_machines = λ id. pure (some tags ∷ []);
}

abbrev port : MigratedPort
port = record {
  id = some "p-1";
  binding_host_id = some "agent-1";
  vif_details = some (("nsx-logical-switch-id", "ls-10") ∷ []);
  device_id = some "d-1";
  mac_address = some "fa:16:3e:00:00:01";
}

abbrev start : VsphereState Hall
start = record { connection = none; world = hall }

abbrev attached : VsphereState Hall
attached = record {
  connection = some 1;
  world = record { opened = 0; submitted = edited_nic (migrated_nic port card) net_backing ∷ [] };
}

port_tags : _get_port_tags target port "ignored" hall ≡ (ok ("nvds" ∷ []), hall)
unfolding _get_port_tags vm_tags scope_tags
port_tags = refl

two_vms : vm_tags (none ∷ none ∷ []) ≡ raise ambiguous
unfolding vm_tags
two_vms = refl

migrates_card : _migrate_port target (some port) 10 start ≡ (ok tt, attached)
unfolding _migrate_port migrate_vm migrate_nic attach_nic opaque_network attach_vm_to_network
    attach_to wait_for_task connection_retry_policy _get_conn _connect await_task first_update
    see_changes state_of get_managed_object first_named get_vm_nic_by_mac first_nic edited_nic
migrates_card = refl

-- What was submitted is of the port.
abbrev OfPort : Hall → Type 0
OfPort w = All (IsOfPort port) w.submitted

abbrev new_filter : Session → Hall → Result (Option Filter) × Hall
new_filter session w = (vcenter succeeding).create_filter session 3 w

new_filter-OfPort :
    (session : Session) (w : Hall) → OfPort w → Created OfPort OfPort (new_filter session w)
new_filter-OfPort zero w p = p
new_filter-OfPort (suc session) w p = p

laws : MigrationLaws target port OfPort
laws = record {
  filters = record {
    connects = λ args w p. p;
    creates = λ session task w p. new_filter-OfPort session w p;
    waits = λ session w p. p;
    errs = λ task w p. p;
    destroys = λ pcfilter w p. p;
    waits_without = λ session w p. p;
    errs_without = λ task w p. p;
  };
  views = λ session w p. p;
  network_views = λ session w p. p;
  switch_ids = λ segmentation_id w p. p;
  switches = λ id w p. p;
  reconfigures = λ vm nic of_port w p. (of_port, p);
}

_migrate_port-Keeps_example : OfPort ((_migrate_port target (some port) 10 start).1.world)
_migrate_port-Keeps_example = _migrate_port-Keeps target port OfPort laws 10 start tt

abbrev args : UpdateArgs
args = record { context = true; port = some port; segmentation_id = 10 }

abbrev handler : UpdateArgs → Exec (VsphereState Hall) ℕ
handler a = pure 4

migrator-Forwarded_example :
    (before : VsphereState Hall) × (migrator target "port_update" handler (λ u. true) args start
      ≡ handler args before)
    × OfPort before.world
    × (((true && (has_override "port_update" && true)) && is_assigned "agent-1" (some "agent-1")
          ≡ false)
        → before ≡ start)
migrator-Forwarded_example =
    migrator-Forwarded target "port_update" handler args start true OfPort port laws refl tt
