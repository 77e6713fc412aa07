-- ===== src/Agent.antt =====
-- NSXv3Manager, and the RPC methods and synchronizations that hand ids over, of
-- networking_nsxv3/plugins/ml2/drivers/nsxv3/agent/nsxv3_agent.py.
use networking_nsx_t.Base.{
  ℕ, ◌-◌, String, Bool, true, false, ◌&&◌, Option, none, some, List, [], ◌∷◌, ltb, if◌then◌else◌,
}
use networking_nsx_t.Base.Dict.{Dict, lookup}
use networking_nsx_t.Base.Exec.{
  key_error, Result, ok, raise, Exec, pure, from_option, and_then, ◌>>=◌, ◌>>◌,
}
use networking_nsx_t.Synchronization.Queue.{PriorityQueue}
use networking_nsx_t.Synchronization.Runner.{Runner, highest, run}
pub mod Polling
pub mod Entries
mod Examples

-- The manager beside the world. `rpc` is whether the callbacks have been built.
pub record ManagerState {ℓ} (W : Type ℓ) : Type ℓ where
  pub rpc : Bool
  pub last_sync_time : ℕ
  pub world : W

-- `__init__`
abbrev pub manager {ℓ} : {W : Type ℓ} → W → ManagerState W
manager w = record { rpc = false; last_sync_time = 0; world = w }

module _ {ℓ} {W : Type ℓ} where
  -- `get_rpc_callbacks` builds the callbacks where there are none.
  unfoldable pub get_rpc_callbacks : ManagerState W → ManagerState W
  get_rpc_callbacks s = if s.rpc then s else record s { rpc = true }

  -- After `sync_inventory`: the time is kept where it did not raise, and a raise is logged.
  abbrev pub synced : ℕ → ManagerState W → Result (Unit {0}) × W → ManagerState W
  synced now s (ok u, w) = record s { last_sync_time = now; world = w }
  synced now s (raise e, w) = record s { world = w }

module _ {ℓ} {W : Type ℓ} (polling_interval : ℕ) (sync_inventory : Exec W (Unit {0})) where
  -- The body of `get_all_devices`, with its two tests in one. The clock is read twice: `now`, which
  -- is kept, and `later`, which the elapsed time is taken of.
  unfoldable pub poll : ℕ → ℕ → ManagerState W → ManagerState W
  poll now later s =
      if s.rpc && ltb polling_interval (later - s.last_sync_time)
      then synced now s (sync_inventory s.world)
      else s

  -- The set of devices is empty.
  unfoldable pub get_all_devices : ℕ → ℕ → Exec (ManagerState W) (List String)
  unfolding poll
  get_all_devices now later s = (ok [], poll now later s)

-- The options that are reported, in NSXV3 of the configuration
pub data Setting : Type 0 where
  number : ℕ → Setting
  text : String → Setting
  texts : List String → Setting

pub record Nsxv3Options : Type 0 where
  pub nsxv3_connection_retry_count : ℕ
  pub nsxv3_connection_retry_sleep : ℕ
  pub nsxv3_request_timeout : ℕ
  pub nsxv3_login_hostname : String
  pub nsxv3_login_port : ℕ
  pub nsxv3_login_user : String
  pub nsxv3_login_password : String
  pub nsxv3_managed_hosts : List String
  pub nsxv3_transport_zone_name : String

unfoldable pub get_agent_configurations : Nsxv3Options → Dict Setting
get_agent_configurations c =
    ("nsxv3_connection_retry_count", number c.nsxv3_connection_retry_count)
    ∷ ("nsxv3_connection_retry_sleep", number c.nsxv3_connection_retry_sleep)
    ∷ ("nsxv3_request_timeout", number c.nsxv3_request_timeout)
    ∷ ("nsxv3_host", text c.nsxv3_login_hostname)
    ∷ ("nsxv3_port", number c.nsxv3_login_port)
    ∷ ("nsxv3_user", text c.nsxv3_login_user)
    ∷ ("nsxv3_password", text c.nsxv3_login_password)
    ∷ ("nsxv3_managed_hosts", texts c.nsxv3_managed_hosts)
    ∷ ("nsxv3_transport_zone", text c.nsxv3_transport_zone_name)
    ∷ []

-- The functions that a job of the runner may have
pub data Handler : Type 0 where
  member_updated rule_updated : Handler

-- `kwargs["security_groups"]` is a list of ids or one id.
pub data Ids : Type 0 where
  many : List String → Ids
  single : String → Ids

-- `o if isinstance(o, list) else [o]`
abbrev pub list_of : Ids → List String
list_of (many ids) = ids
list_of (single id) = id ∷ []

module _ (pq : PriorityQueue Handler) where
  open pq use {Queue}

  abbrev hand_over : Handler → Dict Ids → Runner Queue Handler → Result (Runner Queue Handler)
  hand_over handler kwargs r =
      and_then (from_option key_error (lookup "security_groups" kwargs))
        (λ o. ok (run pq highest (list_of o) handler r))

  unfoldable pub security_groups_member_updated :
      Dict Ids → Runner Queue Handler → Result (Runner Queue Handler)
  security_groups_member_updated kwargs r = hand_over member_updated kwargs r

  unfoldable pub security_groups_rule_updated :
      Dict Ids → Runner Queue Handler → Result (Runner Queue Handler)
  security_groups_rule_updated kwargs r = hand_over rule_updated kwargs r

-- The synchronizations of one group, by the agent's handlers of a group
module _ {ℓ} {W : Type ℓ}
    (security_group_updated security_group_member_updated security_group_rule_updated
      security_group_delete : String → Exec W (Unit {0})) where
  unfoldable pub sync_security_group : String → Bool → Exec W (Unit {0})
  sync_security_group security_group_id update_rules =
      security_group_updated security_group_id
      >> security_group_member_updated security_group_id
      >> (if update_rules then security_group_rule_updated security_group_id else pure tt)

  unfoldable pub sync_security_group_orphaned : String → Exec W (Unit {0})
  sync_security_group_orphaned security_group_id = security_group_delete security_group_id
