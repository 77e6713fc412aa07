-- ===== src/Vsphere/Examples.antt =====
-- A vCenter that counts its open filters and records what it reconfigures, and the theorems on
-- VSphereClient at it.
use networking_nsx_t.Base.{
  ℕ, zero, suc, ◌-◌, String, true, false, Option, none, some, List, [], ◌∷◌, ◌≡◌, refl, arith,
}
use networking_nsx_t.Base.Exec.{not_authenticated, task_failed, Result, ok, raise, Exec}
use networking_nsx_t.Vsphere.{
  Session, Filter, failed, success, task_state, Change, Backing, Nic, ethernet_card, other_device,
  Vm, Network, VimType, VsphereConfig, Vcenter, VsphereState, edited_nic, first_named, state_of,
  first_update,
}
use networking_nsx_t.Vsphere.Methods.{
  get_managed_object, wait_for_task, attach_vm_to_network, attach_to, await_task, see_changes,
  connection_retry_policy, _connect, _get_conn,
}
use networking_nsx_t.Vsphere.Filters.{Created, FilterCount, attach_vm_to_network-Closed}
use networking_nsx_t.Vsphere.Lookup.{
  FirstNamed, get_managed_object-FirstNamed, Connected, Authenticated,
}

pub record Hall : Type 0 where
  pub opened : ℕ
  pub submitted : List Nic

abbrev pub config : VsphereConfig
config = record {
  vsphere_suppress_ssl_wornings = true;
  vsphere_login_hostname = "vcenter";
  vsphere_login_username = "agent";
  vsphere_login_password = "secret";
}

-- Session 0 has expired.
abbrev new_filter : Session → Hall → Result (Option Filter) × Hall
new_filter zero w = (raise not_authenticated, w)
new_filter (suc session) w = (ok (some 7), record w { opened = suc w.opened })

abbrev pub vcenter : List Change → Vcenter Hall
vcenter changes = record {
  smart_connect = λ args w. (ok 1, w);
  create_filter = λ session task w. new_filter session w;
  wait_for_updates = λ session w. (ok ((record { obj = 3; change_set = changes } ∷ []) ∷ []), w);
  destroy = λ pcfilter w. (ok tt, record w { opened = w.opened - 1 });
  task_error = λ task w. (ok task_failed, w);
  reconfig_vm_task = λ vm nic w. (ok 3, record w { submitted = nic ∷ w.submitted });
}

abbrev pub failing : List Change
failing = record { name = "info.state"; val = task_state failed } ∷ []

abbrev pub succeeding : List Change
succeeding = record { name = "info.state"; val = task_state success } ∷ []

abbrev pub card : Nic
card = record {
  key = 4000;
  external_id = none;
  mac_address = "fa:16:3e:00:00:01";
  backing = none;
  wake_on_lan_enabled = true;
  connected = false;
}

abbrev pub server : Vm
server = record { moid = "vm-1"; device = other_device ∷ ethernet_card card ∷ [] }

abbrev pub net_backing : Backing
net_backing = record { opaque_network_type = "nsx.LogicalSwitch"; opaque_network_id = "ls-10" }

abbrev pub net : Network
net = record { moid = "network-1"; summary = some net_backing }

abbrev pub hall : Hall
hall = record { opened = 0; submitted = [] }

abbrev expired : VsphereState Hall
expired = record { connection = some 0; world = hall }

new_filter_counts :
    (session : Session) (n : ℕ) (w : Hall)
    → w.opened ≡ n
    → Created (λ v. v.opened ≡ n) (λ v. v.opened ≡ suc n) (new_filter session w)
new_filter_counts zero n w h = h
new_filter_counts (suc session) n w h = omega (arith, h)

pub hall_count : (changes : List Change) → FilterCount (vcenter changes) (λ w. w.opened)
hall_count changes = record {
  laws = λ n. record {
    connects = λ args w h. h;
    creates = λ session task w h. new_filter_counts session n w h;
    waits = λ session w h. h;
    errs = λ task w h. h;
    destroys = λ pcfilter w h. omega (arith, h);
    waits_without = λ session w h. h;
    errs_without = λ task w h. h;
  };
  reconfigures = λ vm nic n w h. h;
}

-- The task fails in the second attempt, after the session of the first has expired.
attach_fails : attach_vm_to_network config (vcenter failing) server card net expired ≡ (
  raise task_failed,
  record {
    connection = some 1;
    world = record { opened = 0; submitted = edited_nic card net_backing ∷ [] };
  },
)
unfolding attach_vm_to_network attach_to wait_for_task connection_retry_policy _get_conn _connect
    await_task first_update see_changes state_of edited_nic
attach_fails = refl

attach_vm_to_network-Closed_example :
    (attach_vm_to_network config (vcenter failing) server card net expired).1.world.opened ≡ 0
attach_vm_to_network-Closed_example =
    attach_vm_to_network-Closed config (vcenter failing) (λ w. w.opened) (hall_count failing) server
      card net expired

-- Two switches of which one name contains the other
abbrev pub networks : VimType Hall (String × Network)
networks = record {
  view = λ session w. (ok (("zone-100", net) ∷ ("zone-10", net) ∷ []), w);
  name = λ o. some (o.0);
}

-- The search for "zone-10" finds the network "zone-100", which is before it in the view.
get_managed_object_prefix :
    get_managed_object config
      (vcenter [])
      networks
      (some "zone-10")
      (record { connection = some 1; world = hall })
    ≡ (ok (some ("zone-100", net)), record { connection = some 1; world = hall })
unfolding get_managed_object connection_retry_policy _get_conn first_named
get_managed_object_prefix = refl

get_managed_object-FirstNamed_example :
    (found : Option (String × Network)) × FirstNamed networks.name
      (some "zone-10")
      found
      (("zone-100", net) ∷ ("zone-10", net) ∷ [])
    × (get_managed_object config
          (vcenter [])
          networks
          (some "zone-10")
          (record { connection = some 1; world = hall })
        ≡ (ok found, record { connection = some 1; world = hall }))
get_managed_object-FirstNamed_example =
    get_managed_object-FirstNamed config (vcenter []) networks (some "zone-10") 1 hall hall
      (("zone-100", net) ∷ ("zone-10", net) ∷ []) refl

-- A method that fails on session 0 only
abbrev probe_on : Option Session → Result ℕ
probe_on (some zero) = raise not_authenticated
probe_on _ = ok 5

abbrev probe : Exec (VsphereState Hall) ℕ
probe s = (probe_on s.connection, s)

abbrev IsLive : VsphereState Hall → Type 0
IsLive s = s.connection ≡ some 1

probe_lives : (s : VsphereState Hall) → IsLive s → Authenticated (probe s)
probe_lives s live = rw live tt

connects : (s : VsphereState Hall) → Connected IsLive (_connect config (vcenter []) s)
unfolding _connect
connects s = refl
