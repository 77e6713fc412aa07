-- ===== src/Synchronization/ListQueue.antt =====
-- A queue that keeps its items in a list and selects one of least value: it has the behaviour that
-- the runner relies on.
use mathlib.Core.Logic.Or
use mathlib.Core.Path.{subst}
use native.Mathlib.Nat.{le_trans}
use mathlib.Core.List.{Mem, Perm, mem-cons, not-mem-nil}
use mathlib.Core.List.Perm
use native.Mathlib.Bridge.{le_prop}
use networking_nsx_t.Base.{
  ◌≤◌, ◌≡◌, refl, true, false, Bool, Option, none, some, List, [], ◌∷◌, inl, inr, arith, length,
  leb, Bool-cases, eq_of_some, if◌then◌else◌,
}
use networking_nsx_t.Synchronization.Queue.{Job, PriorityQueue, IsUnbounded}

module _ {F : Type 0} where
  -- The least of a list that is not empty, and the others
  abbrev take_least : Job F → List (Job F) → Job F × List (Job F)
  take_least j [] = (j, [])
  take_least j (k ∷ ks) =
      let (m, rest) = take_least k ks in
      if leb j.value m.value then (j, m ∷ rest) else (m, j ∷ rest)

  abbrev get : List (Job F) → Option (Job F × List (Job F))
  get [] = none
  get (j ∷ js) = some (take_least j js)

  take_least-Perm :
      (j : Job F) (js : List (Job F)) → Perm (j ∷ js) ((take_least j js).0 ∷ (take_least j js).1)
  take_least-Perm j [] = Perm.refl _
  take_least-Perm j (k ∷ ks) =
      let (m, rest) = take_least k ks in
      let ih = Perm.cons j (take_least-Perm k ks) in
      elim (Bool-cases (leb j.value m.value)) [
        | inl le ↦ rw le ih
        | inr gt ↦ rw gt (Perm.trans ih (Perm.swap m j rest))
      ]

  abbrev pick : Bool → Job F → Job F → List (Job F) → Job F × List (Job F)
  pick b j m rest = if b then (j, m ∷ rest) else (m, j ∷ rest)

  pick-least :
      (b : Bool) (j m : Job F) (rest : List (Job F))
      → (b ≡ true → j.value ≤ m.value)
      → (b ≡ false → m.value ≤ j.value)
      → ((k : Job F) → Mem k rest → m.value ≤ k.value)
      → (k : Job F) → Mem k (pick b j m rest).1
      → (pick b j m rest).0.value ≤ k.value
  pick-least true j m rest le gt least k h =
      Or.elim le_prop (mem-cons.0 h) (λ e. rw e (le refl))
        (λ later. le_trans (le refl) (least k later))
  pick-least false j m rest le gt least k h =
      Or.elim le_prop (mem-cons.0 h) (λ e. rw e (gt refl)) (least k)

  take_least-least :
      (j : Job F) (js : List (Job F)) (k : Job F)
      → Mem k (take_least j js).1
      → (take_least j js).0.value ≤ k.value
  take_least-least j [] k h = absurd (not-mem-nil h)
  take_least-least j (i ∷ is) k h =
      let (m, rest) = take_least i is in
      pick-least (leb j.value m.value) j m rest (λ e. ground arith) (λ e. ground arith)
        (take_least-least i is) k h

  pub put_cons : (q q' : List (Job F)) (j : Job F) → some (j ∷ q) ≡ some q' → Perm q' (j ∷ q)
  put_cons q q' j h = subst (λ (p : List (Job F)). Perm p (j ∷ q)) (eq_of_some h) (Perm.refl _)

  pub get-none_lem : (q : List (Job F)) → get q ≡ none → q ≡ []
  get-none_lem [] h = refl
  get-none_lem (j ∷ js) h = cc

  pub get-Perm_lem : (q q' : List (Job F)) (j : Job F) → get q ≡ some (j, q') → Perm q (j ∷ q')
  get-Perm_lem [] q' j h = cc
  get-Perm_lem (i ∷ is) q' j h =
      subst (λ (p : Job F × List (Job F)). Perm (i ∷ is) (p.0 ∷ p.1)) (eq_of_some h)
        (take_least-Perm i is)

  pub get-least_lem :
      (q q' : List (Job F)) (j k : Job F) → get q ≡ some (j, q') → Mem k q' → j.value ≤ k.value
  get-least_lem [] q' j k h = cc
  get-least_lem (i ∷ is) q' j k h =
      subst (λ (p : Job F × List (Job F)). Mem k p.1 → p.0.value ≤ k.value) (eq_of_some h)
        (take_least-least i is k)

abbrev pub list_queue : (F : Type 0) → PriorityQueue F
list_queue F = record {
  Queue = List (Job F);
  items = λ q. q;
  qsize = length;
  put_nowait = λ q j. some (j ∷ q);
  get_nowait = get;
  qsize-length = λ q. refl;
  put-Perm = λ q q' j h. put_cons q q' j h;
  get-none = get-none_lem;
  get-Perm = get-Perm_lem;
  get-least = get-least_lem;
}

pub list_queue-IsUnbounded : (F : Type 0) → IsUnbounded (list_queue F)
list_queue-IsUnbounded F = record { put-some = λ q j. (j ∷ q, refl) }
