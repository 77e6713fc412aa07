-- ===== src/Locking/Examples.antt =====
-- Processes that take locks, where a coordinator is the id of its process.
use networking_nsx_t.Base.{ℕ, zero, suc, none, some, List, [], ◌∷◌, ◌≡◌, refl, str, eq_of_some}
use networking_nsx_t.Base.Exec.{connection_error, Result, ok, raise}
use networking_nsx_t.Locking.{
  LockApi, LockState, get_segmentation_id_lock, new_coordinator, _get_lock_distributed,
  _get_lock_local, get_lock,
}
use networking_nsx_t.Locking.Owners.{IsOwned, IsTaken, MadeBy, get_lock-IsTaken}

-- The world counts the failures to come, and keeps the coordinators that gave a lock.
record Cluster : Type 0 where
  failures : ℕ
  taken : List ℕ

abbrev connect : ℕ → ℕ → List ℕ → Result ℕ × Cluster
connect pid zero taken = (ok pid, record { failures = 0; taken = taken })
connect pid (suc n) taken = (raise connection_error, record { failures = n; taken = taken })

abbrev api : ℕ → LockApi Cluster
api pid = record {
  lock = λ name external w. (ok 0, w);
  get_coordinator = λ url name w. connect pid w.failures w.taken;
  start = λ coordinator w. (ok tt, w);
  get_lock_of = λ coordinator name w. (ok coordinator, record w { taken = coordinator ∷ w.taken });
}

-- A child, process 2, with the attributes of its parent, process 1
abbrev child : ℕ → LockState Cluster
child failures = record {
  _coordinator = some 1;
  _coordinator_pid = some 1;
  world = record { failures = failures; taken = [] };
}

child-IsOwned : (failures : ℕ) → IsOwned (λ c. c) (child failures)
child-IsOwned failures pid coordinator p c =
    let h : 1 ≡ pid = eq_of_some p in let g : 1 ≡ coordinator = eq_of_some c in cc

connect-MadeBy :
    (pid failures : ℕ) (taken : List ℕ) → MadeBy (λ c. c) pid (connect pid failures taken)
connect-MadeBy pid zero taken = refl
connect-MadeBy pid (suc n) taken = tt

get_lock-IsTaken_example :
    IsTaken
      (api 2)
      (some "etcd://")
      2
      (λ c. c)
      (λ url name w. connect-MadeBy 2 w.failures w.taken)
      "p-1"
      (get_lock (api 2) (some "etcd://") 2 "p-1" (child 0))
get_lock-IsTaken_example =
    get_lock-IsTaken (api 2) (some "etcd://") 2 (λ c. c)
      (λ url name w. connect-MadeBy 2 w.failures w.taken) "p-1" (child 0) refl (child-IsOwned 0)

-- Test: the child takes the lock of its own coordinator.
own_lock : get_lock (api 2) (some "etcd://") 2 "p-1" (child 0) ≡ (
  ok 2,
  record {
    _coordinator = some 2;
    _coordinator_pid = some 2;
    world = record { failures = 0; taken = 2 ∷ [] };
  },
)
unfolding get_lock _get_lock_distributed new_coordinator
own_lock = refl

-- Test: where the child's first attempt cannot connect, its second one takes the lock of the
-- parent's coordinator, since the pid was kept before the failure.
stale_lock :
    get_lock
      (api 2)
      (some "etcd://")
      2
      "p-1"
      ((get_lock (api 2) (some "etcd://") 2 "p-1" (child 1)).1)
    ≡ (
      ok 1,
      record {
        _coordinator = some 1;
        _coordinator_pid = some 2;
        world = record { failures = 0; taken = 1 ∷ [] };
      },
    )
unfolding get_lock _get_lock_distributed new_coordinator
stale_lock = refl

-- Test: without a connect string the lock is a local one.
local_lock : get_lock (api 2) none 2 "p-1" (child 0) ≡ (ok 0, child 0)
unfolding get_lock _get_lock_local
local_lock = refl

segment : get_segmentation_id_lock 10 ≡ "segmentation_id-10"
unfolding get_segmentation_id_lock str
segment = refl
