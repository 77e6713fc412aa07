-- ===== src/Locking.antt =====
-- LockManager of networking_nsxv3/common/locking.py, and the name of a segment's lock
-- (networking_nsxv3/plugins/ml2/drivers/nsxv3/agent/nsxv3_utils.py).
use networking_nsx_t.Base.{
  ℕ, String, Bool, true, false, not, Option, none, some, ◌==◌, nat_eq, if◌then◌else◌, str, ◌+++◌,
  truthy_text,
}
use networking_nsx_t.Base.Exec.{attribute_error, Result, ok, raise, Exec, pure, throw, ◌>>=◌, ◌>>◌}
mod Owners
mod Examples

-- What oslo.concurrency and tooz do; locks and coordinators are handles. The Boolean is `external`.
pub record LockApi {ℓ} (W : Type ℓ) : Type ℓ where
  pub lock : String → Bool → Exec W ℕ
  pub get_coordinator : String → String → Exec W ℕ
  pub start : ℕ → Exec W (Unit {0})
  pub get_lock_of : ℕ → String → Exec W ℕ

-- The attributes of the class beside the world
pub record LockState {ℓ} (W : Type ℓ) : Type ℓ where
  pub _coordinator : Option ℕ
  pub _coordinator_pid : Option ℕ
  pub world : W

unfoldable pub get_segmentation_id_lock : ℕ → String
get_segmentation_id_lock segmentation_id = "segmentation_id-" +++ str segmentation_id

module _ {ℓ} {W : Type ℓ} where
  abbrev pub outside_end {κ} : {A : Type κ} → LockState W → Result A × W → Result A × LockState W
  outside_end s (r, w) = (r, record s { world = w })

  abbrev pub outside {κ} : {A : Type κ} → Exec W A → Exec (LockState W) A
  outside call s = outside_end s (call s.world)

  abbrev pub set_pid : ℕ → Exec (LockState W) (Unit {0})
  set_pid pid s = (ok tt, record s { _coordinator_pid = some pid })

  abbrev pub set_coordinator : ℕ → Exec (LockState W) (Unit {0})
  set_coordinator coordinator s = (ok tt, record s { _coordinator = some coordinator })

abbrev pub url_of : Option String → String
url_of none = ""
url_of (some url) = url

-- Whether the coordinator is another process's
abbrev pub is_other : ℕ → Option ℕ → Bool
is_other pid none = true
is_other pid (some owner) = not (nat_eq owner pid)

-- The connect string of the configuration, and the id of the process
module _ {ℓ} {W : Type ℓ} (api : LockApi W) (connect_string : Option String) (pid : ℕ) where
  -- The pid is kept before the coordinator is made and started.
  unfoldable pub new_coordinator : Exec (LockState W) (Unit {0})
  new_coordinator =
      set_pid pid
      >> outside (api.get_coordinator (url_of connect_string) "neutron-nsxv3-plugin")
      >>= λ coordinator. set_coordinator coordinator >> outside (api.start coordinator)

  abbrev pub lock_by : String → Option ℕ → Exec (LockState W) ℕ
  lock_by name none = throw attribute_error
  lock_by name (some coordinator) = outside (api.get_lock_of coordinator name)

  abbrev pub renew : Exec (LockState W) (Unit {0})
  renew s = if is_other pid s._coordinator_pid then new_coordinator s else (ok tt, s)

  unfoldable pub _get_lock_distributed : String → Exec (LockState W) ℕ
  unfolding new_coordinator
  _get_lock_distributed name = renew >> λ s. lock_by name s._coordinator s

  unfoldable pub _get_lock_local : String → Bool → Exec (LockState W) ℕ
  _get_lock_local name external = outside (api.lock name external)

  unfoldable pub get_lock : String → Exec (LockState W) ℕ
  unfolding _get_lock_distributed _get_lock_local
  get_lock name =
      if truthy_text connect_string then _get_lock_distributed name else _get_lock_local name true
