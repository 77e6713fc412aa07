-- ===== src/Synchronization/Runner/Jobs.antt =====
-- Where the jobs that were put in are.
use mathlib.Core.List.{Perm, perm_middle, append_assoc}
use mathlib.Core.List.Perm
use networking_nsx_t.Base.{
  Bool-cases, Option-cases, inl, inr, ◌∙◌, ltb, ◌&&◌, ◌≡◌, refl, String, List, [], ◌∷◌, ◌++◌, map,
  some,
}
use networking_nsx_t.Synchronization.Queue.{Job, PriorityQueue, IsUnbounded}
use networking_nsx_t.Synchronization.Runner.{
  Priority, Runner, item_of, enqueue, run, refill, start_next, round, int_eq_member,
}

module _ {F : Type 0} (pq : PriorityQueue F) (unbounded : IsUnbounded pq) where
  open pq use {Queue, items, qsize, put_nowait, get_nowait, put-Perm, get-Perm}

  abbrev pub new_items : Priority → F → List String → List (Job F)
  new_items priority fn ids = map (item_of priority fn) ids

  enqueue-passive :
      (priority : Priority) (fn : F) (r : Runner Queue F) (jid : String)
      → Perm
          (items (enqueue pq priority fn r jid).passive)
          (item_of priority fn jid ∷ items r.passive)
        × ((enqueue pq priority fn r jid).active ≡ r.active)
        × ((enqueue pq priority fn r jid).started ≡ r.started)
  unfolding enqueue int_eq_member
  enqueue-passive priority fn r jid =
      let (q, e) = unbounded.put-some r.passive (item_of priority fn jid) in
      rw e (put-Perm r.passive q _ e, refl, refl)

  abbrev pub Enqueued : Priority → F → List String → Runner Queue F → Runner Queue F → Type 0
  Enqueued priority fn ids r r' =
      Perm (items r'.passive) (new_items priority fn ids ++ items r.passive)
      × (r'.active ≡ r.active)
      × (r'.started ≡ r.started)

  -- `run` puts exactly one job for each id into the passive queue, whatever the priority, the
  -- highest included, and leaves the active queue and the started jobs as they are.
  pub run-Enqueued :
      (priority : Priority) (ids : List String) (fn : F) (r : Runner Queue F)
      → Enqueued priority fn ids r (run pq priority ids fn r)
  unfolding run
  run-Enqueued priority [] fn r = (Perm.refl _, refl, refl)
  run-Enqueued priority (jid ∷ ids) fn r =
      let (p, a, s) = enqueue-passive priority fn r jid in
      let (p', a', s') = run-Enqueued priority ids fn (enqueue pq priority fn r jid) in
      (Perm.trans p' (Perm.trans (Perm.append_left _ p) (perm_middle _ _)), a' ∙ a, s' ∙ s)

  abbrev pub pending : Runner Queue F → List (Job F)
  pending r = items r.active ++ items r.passive

  -- Every job that was submitted and accepted
  abbrev pub all_jobs : Runner Queue F → List (Job F)
  all_jobs r = r.started ++ pending r

  moved-Perm :
      (r : Runner Queue F) (job : Job F) (a p : Queue)
      → get_nowait r.passive ≡ some (job, p)
      → put_nowait r.active job ≡ some a
      → Perm (items a ++ items p) (pending r)
  moved-Perm r job a p got put = Perm.trans (Perm.append_right _ (put-Perm r.active a job put)) (
      Perm.trans (Perm.symm (perm_middle (items r.active) (items p)))
        (Perm.append_left _ (Perm.symm (get-Perm r.passive p job got))))

  abbrev Kept : Runner Queue F → Runner Queue F → Type 0
  Kept r r' = Perm (all_jobs r') (all_jobs r)

  refill-Kept : (r : Runner Queue F) → Kept r (refill pq r).1
  unfolding refill
  refill-Kept r = elim (Bool-cases (ltb (qsize r.active) r.idle && ltb 0 (qsize r.passive))) [
    | inr skip ↦ rw skip (Perm.refl _)
    | inl move ↦ elim (Option-cases (get_nowait r.passive)) [
      | inl empty ↦ rw (move, empty) (Perm.refl _)
      | inr (jp, got) ↦
          let (a, put) = unbounded.put-some r.active jp.0 in
          rw (move, got, put) (Perm.append_left _ (moved-Perm r jp.0 a jp.1 got put))
    ]
  ]

  start_next-Kept : (r : Runner Queue F) → Kept r (start_next pq r)
  unfolding start_next
  start_next-Kept r = elim (Option-cases (get_nowait r.active)) [
    | inl empty ↦ rw (empty, start_next) (Perm.refl _)
    | inr (ja, got) ↦
        rw (got, start_next, append_assoc)
          (Perm.append_left r.started
            (Perm.append_right (items r.passive) (Perm.symm (get-Perm r.active ja.1 ja.0 got))))
  ]

  -- A round of the worker loop neither loses a job nor adds one: what is started or queued after it
  -- is what was started or queued before.
  pub round-Perm : (r : Runner Queue F) → Perm (all_jobs (round pq r)) (all_jobs r)
  unfolding round
  round-Perm r = elim (Bool-cases (refill pq r).0) [
    | inl goes ↦ rw goes (Perm.trans (start_next-Kept (refill pq r).1) (refill-Kept r))
    | inr stops ↦ rw stops (refill-Kept r)
  ]
