-- ===== src/Synchronization/Runner/Drain.antt =====
-- In which order the worker loop starts the jobs.
use mathlib.Core.Logic.Or
use native.Mathlib.Nat.{ℕ_set}
use mathlib.Core.List.{Mem, Perm, append_assoc, append-nil, mem-cons, mem-cons_self, not-mem-nil}
use mathlib.Core.List.Perm
use networking_nsx_t.Base.{
  ℕ, zero, suc, ◌≤◌, ◌<◌, ◌≡◌, ◌≢◌, refl, sym, ◌∙◌, ap, some, List, [], ◌∷◌, ◌++◌, inl, inr, arith,
  length, length-perm, nil_of_length, pos_of_ne, ltb, lt→ltb, ◌&&◌, true, Option-cases,
}
use networking_nsx_t.Synchronization.Queue.{Job, PriorityQueue, IsUnbounded}
use networking_nsx_t.Synchronization.Runner.{Runner, refill, start_next, round, rounds}

-- Each job comes before those of a greater value.
abbrev pub IsByPriority : {F : Type 0} → List (Job F) → Type 0
IsByPriority [] = Unit
IsByPriority (j ∷ js) = ((k : Job _) → Mem k js → j.value ≤ k.value) × IsByPriority js

-- The only member of a list of one element has its value.
value-singleton :
    {F : Type 0} (j k : Job F) (xs : List (Job F)) → xs ≡ [] → Mem k (j ∷ xs) → k.value ≡ j.value
value-singleton j k xs e m =
    Or.elim (ℕ_set _ _) (mem-cons.0 m) (ap (λ x. x.value))
      (λ rest. absurd (not-mem-nil (rw e at rest)))

module _ {F : Type 0} (pq : PriorityQueue F) (unbounded : IsUnbounded pq) where
  open pq use {
    Queue, items, qsize, qsize-length, put_nowait, get_nowait, put-Perm, get-Perm, get-none,
    get-least,
  }

  -- One round from an empty active queue
  record Started (r : Runner Queue F) : Type 0 where
    job : Job F
    active : Queue
    passive : Queue
    emptied : items active ≡ []
    left : Perm (items r.passive) (job ∷ items passive)
    least : (k : Job F) → Mem k (items passive) → job.value ≤ k.value
    after :
        round pq r
        ≡ record r { active = active; passive = passive; started = r.started ++ job ∷ [] }

  -- A job that was moved to the empty active queue is taken out of it again.
  record Moved (r : Runner Queue F) (j : Job F) (a : Queue) : Type 0 where
    job : Job F
    active : Queue
    got : get_nowait a ≡ some (job, active)
    emptied : items active ≡ []
    one : Perm (j ∷ []) (job ∷ [])
    same : job.value ≡ j.value

  moved :
      (r : Runner Queue F) (j : Job F) (a : Queue)
      → items r.active ≡ []
      → put_nowait r.active j ≡ some a
      → Moved r j a
  moved r j a idle_active put = elim (Option-cases (get_nowait a)) [
    | inl empty ↦
        absurd
          (omega (arith, ap length (get-none a empty), length-perm _ _ (put-Perm r.active a j put)))
    | inr (ja, got) ↦
        let held = put-Perm r.active a j put in
        let out = get-Perm a ja.1 ja.0 got in
        let gone : items ja.1 ≡ [] =
          nil_of_length _
            (omega (arith, length-perm _ _ held, length-perm _ _ out, ap length idle_active)) in
        record {
          job = ja.0;
          active = ja.1;
          got = got;
          emptied = gone;
          one = rw (idle_active, gone) at (Perm.trans (Perm.symm held) out);
          same =
              value-singleton j ja.0 _ idle_active
                (Perm.subset (Perm.trans (Perm.symm out) held) ja.0 mem-cons_self);
        }
  ]

  wants_job :
      (r : Runner Queue F)
      → items r.active ≡ []
      → items r.passive ≢ []
      → 0 < r.idle
      → (ltb (qsize r.active) r.idle && ltb 0 (qsize r.passive)) ≡ true
  wants_job r idle_active waiting workers =
      let few : qsize r.active < r.idle =
        omega (arith, qsize-length r.active, ap length idle_active) in
      let some_wait : 0 < qsize r.passive =
        omega (arith, qsize-length r.passive, pos_of_ne (items r.passive) waiting) in
      rw (lt→ltb (qsize r.active) r.idle few, lt→ltb 0 (qsize r.passive) some_wait) refl

  refill-eq :
      (r : Runner Queue F) (job : Job F) (a p : Queue)
      → (ltb (qsize r.active) r.idle && ltb 0 (qsize r.passive)) ≡ true
      → get_nowait r.passive ≡ some (job, p)
      → put_nowait r.active job ≡ some a
      → refill pq r ≡ (true, record r { active = a; passive = p })
  unfolding refill
  refill-eq r job a p wants got put = rw (wants, got, put) refl

  start_next-eq :
      (r : Runner Queue F) (job : Job F) (a : Queue)
      → get_nowait r.active ≡ some (job, a)
      → start_next pq r ≡ record r { active = a; started = r.started ++ job ∷ [] }
  unfolding start_next
  start_next-eq r job a got = rw (got, start_next) refl

  round-eq : (r r' : Runner Queue F) → refill pq r ≡ (true, r') → round pq r ≡ start_next pq r'
  unfolding round
  round-eq r r' e = rw e refl

  round-Started :
      (r : Runner Queue F) → items r.active ≡ [] → items r.passive ≢ [] → 0 < r.idle → Started r
  round-Started r idle_active waiting workers = elim (Option-cases (get_nowait r.passive)) [
    | inl empty ↦ absurd (waiting (get-none r.passive empty))
    | inr (jp, got) ↦
        let (a, put) = unbounded.put-some r.active jp.0 in
        let m = moved r jp.0 a idle_active put in
        record {
          job = m.job;
          active = m.active;
          passive = jp.1;
          emptied = m.emptied;
          left =
              Perm.trans (get-Perm r.passive jp.1 jp.0 got) (Perm.append_right (items jp.1) m.one);
          least = λ k k_in. omega (arith, m.same, get-least r.passive jp.1 jp.0 k got k_in);
          after =
              round-eq r _
                (refill-eq r jp.0 a jp.1 (wants_job r idle_active waiting workers) got put)
              ∙ start_next-eq _ m.job m.active m.got;
        }
  ]

  -- What `n` rounds did
  pub record Drained (n : ℕ) (r : Runner Queue F) : Type 0 where
    pub jobs : List (Job F)
    pub started : (rounds pq n r).started ≡ r.started ++ jobs
    pub all : Perm jobs (items r.passive)
    pub in_order : IsByPriority jobs
    pub active_empty : items (rounds pq n r).active ≡ []
    pub passive_empty : items (rounds pq n r).passive ≡ []

  abbrev successor : (r : Runner Queue F) → Started r → Runner Queue F
  successor r s = record r {
    active = s.active;
    passive = s.passive;
    started = r.started ++ s.job ∷ [];
  }

  rounds-suc :
      (n : ℕ) (r : Runner Queue F) (s : Started r)
      → rounds pq (suc n) r ≡ rounds pq n (successor r s)
  unfolding rounds
  rounds-suc n r s = ap (rounds pq n) s.after

  Drained-suc :
      (n : ℕ) (r : Runner Queue F) (s : Started r) → Drained n (successor r s) → Drained (suc n) r
  Drained-suc n r s d = record {
    jobs = s.job ∷ d.jobs;
    started = ap (λ t. t.started) (rounds-suc n r s) ∙ d.started ∙ append_assoc r.started _ _;
    all = Perm.trans (Perm.cons s.job d.all) (Perm.symm s.left);
    in_order = (λ k k_in. s.least k (Perm.subset d.all k k_in), d.in_order);
    active_empty = ap (λ t. items t.active) (rounds-suc n r s) ∙ d.active_empty;
    passive_empty = ap (λ t. items t.passive) (rounds-suc n r s) ∙ d.passive_empty;
  }

  Drained-zero : (r : Runner Queue F) → items r.passive ≡ [] → items r.active ≡ [] → Drained 0 r
  unfolding rounds
  Drained-zero r none_left idle_active = record {
    jobs = [];
    started = sym (append-nil _);
    all = rw none_left (Perm.refl []);
    in_order = tt;
    active_empty = idle_active;
    passive_empty = none_left;
  }

  -- From an empty active queue and with at least one worker, as many rounds as there are passive
  -- jobs start each of them once, in the order of their priorities, and leave both queues empty.
  pub rounds-Drained :
      (n : ℕ) (r : Runner Queue F)
      → length (items r.passive) ≡ n
      → items r.active ≡ []
      → 0 < r.idle
      → Drained n r
  rounds-Drained zero r size idle_active workers =
      Drained-zero r (nil_of_length (items r.passive) size) idle_active
  rounds-Drained (suc n) r size idle_active workers =
      let s = round-Started r idle_active (λ e. absurd (omega (arith, ap length e))) workers in
      Drained-suc n r s
        (rounds-Drained n (successor r s) (omega (arith, length-perm _ _ s.left)) s.emptied workers)
