-- ===== src/Synchronization/Queue.antt =====
-- What synchronization.Runner uses of eventlet.queue.PriorityQueue, with its documented behaviour:
-- a queue is a bag of items, `put_nowait` adds one or raises Full, and `get_nowait` removes an item
-- of least value or raises Empty.
use networking_nsx_t.Base.{ℕ, ◌≤◌, ◌≡◌, Option, none, some, List, [], ◌∷◌, String, length}
use mathlib.Core.List.{Mem, Perm}

-- An item `(priority.value, {"id": id, "fn": fn})`
pub record Job (F : Type 0) : Type 0 where
  pub value : ℕ
  pub id : String
  pub fn : F

pub record PriorityQueue (F : Type 0) : Type 1 where
  pub Queue : Type 0
  pub items : Queue → List (Job F)
  pub qsize : Queue → ℕ
  -- none is the exception Full
  pub put_nowait : Queue → Job F → Option Queue
  -- none is the exception Empty
  pub get_nowait : Queue → Option (Job F × Queue)
  pub qsize-length : (q : Queue) → qsize q ≡ length (items q)
  pub put-Perm :
      (q q' : Queue) (j : Job F) → put_nowait q j ≡ some q' → Perm (items q') (j ∷ items q)
  pub get-none : (q : Queue) → get_nowait q ≡ none → items q ≡ []
  pub get-Perm :
      (q q' : Queue) (j : Job F) → get_nowait q ≡ some (j, q') → Perm (items q) (j ∷ items q')
  pub get-least :
      (q q' : Queue) (j k : Job F)
      → get_nowait q ≡ some (j, q')
      → Mem k (items q')
      → j.value ≤ k.value

-- A queue that was made with a negative `maxsize` is never full.
pub record IsUnbounded {F : Type 0} (pq : PriorityQueue F) : Type 0 where
  pub put-some :
      (q : PriorityQueue.Queue pq) (j : Job F)
      → (q' : PriorityQueue.Queue pq) × (PriorityQueue.put_nowait pq q j ≡ some q')
