-- ===== src/Inventory/Sync.antt =====
-- The inventory synchronization: sync_inventory, _sync_inventory_full and _sync_inventory_shallow
-- of networking_nsxv3/plugins/ml2/drivers/nsxv3/agent/nsxv3_agent.py.
use networking_nsx_t.Base.{ℕ, String, Bool, true, false, List, [], ◌∷◌, if◌then◌else◌, ltb}
use networking_nsx_t.Base.Dict.{Dict, keys}
use networking_nsx_t.Inventory.{sync_get_content}
use networking_nsx_t.Synchronization.Runner.{Priority, higher, high, medium, low, lower}

-- The methods that are run as jobs
pub data Callback : Type 0 where
  sync_security_group security_group_updated security_group_member_updated : Callback
  security_group_rule_updated sync_security_group_orphaned : Callback
  sync_qos sync_port sync_port_orphaned : Callback

-- One call of `self.runner.run`
pub record Call : Type 0 where
  pub priority : Priority
  pub ids : List String
  pub callback : Callback

-- The revisions that Neutron has and those that NSX-T has, of the three kinds of objects
pub record Content : Type 0 where
  pub security_groups_os : Dict String
  pub security_groups_nsx : Dict String
  pub qos_os : Dict String
  pub qos_nsx : Dict String
  pub ports_os : Dict String
  pub ports_nsx : Dict String

abbrev pub call : Priority → List String → Callback → Call
call priority ids callback = record { priority = priority; ids = ids; callback = callback }

unfoldable pub sync_inventory_full : Content → List Call
sync_inventory_full c =
    call higher (keys c.security_groups_os) sync_security_group
    ∷ call high (keys c.qos_os) sync_qos
    ∷ call medium (keys c.ports_os) sync_port
    ∷ []

unfoldable pub sync_inventory_shallow : Content → List Call
sync_inventory_shallow c =
    let ips = sync_get_content c.security_groups_os c.security_groups_nsx in
    let qos = sync_get_content c.qos_os c.qos_nsx in
    let lps = sync_get_content c.ports_os c.ports_nsx in
    call higher ips.0 security_group_updated
    ∷ call high ips.0 security_group_member_updated
    ∷ call medium ips.0 security_group_rule_updated
    ∷ call low ips.1 sync_security_group_orphaned
    ∷ call lower qos.0 sync_qos
    ∷ call low lps.0 sync_port
    ∷ call low lps.1 sync_port_orphaned
    ∷ []

-- The calls, and whether the timestamp is written. `passive` is the number of jobs that wait.
unfoldable pub sync_inventory : ℕ → Bool → Content → List Call × Bool
unfolding sync_inventory_full sync_inventory_shallow
sync_inventory passive has_expired content =
    if ltb 0 passive
    then ([], false)
    else if has_expired
    then (sync_inventory_full content, true)
    else (sync_inventory_shallow content, false)
