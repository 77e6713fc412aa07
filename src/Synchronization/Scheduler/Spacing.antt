-- ===== src/Synchronization/Scheduler/Spacing.antt =====
-- How the recorded entries lie in time.
use networking_nsx_t.Base.{
  ℕ, ◌+◌, ◌-◌, ◌≤◌, ◌<◌, ◌≡◌, sym, ◌∙◌, ap, some, List, [], ◌∷◌, ◌++◌, arith, length, length-append,
  get_elem?, All,
}
use mathlib.Core.List.{append_assoc}
use native.Mathlib.Nat.{le_refl}
use networking_nsx_t.Base.Exec.{ok}
use networking_nsx_t.Synchronization.Scheduler.{Scheduler, Entered, append, init, exit}
use networking_nsx_t.Synchronization.Scheduler.Enter.{
  Outcome, short, old, recent, base, enter-Outcome,
}
use networking_nsx_t.Synchronization.Scheduler.Run.{
  Trace, Step, wait, entering, leaving, Reach, here, next, start,
}
use networking_nsx_t.Synchronization.Scheduler.Entries.{
  IsSpaced, IsSpaced-snoc, get_elem?-append_left, get_elem?-append_right, All-get_elem?,
  pop_expired-split, All-append, All-map,
}

record Inv (rate limit : ℕ) (t : Trace) : Type 0 where
  pruned : List ℕ
  rate_is : t.scheduler.rate ≡ rate
  limit_is : t.scheduler.limit ≡ limit
  split : t.history ≡ pruned ++ t.scheduler.schedule
  gone : All (λ x. x + limit ≤ t.clock) pruned
  spaced : IsSpaced rate limit t.history

-- What a new entry has to keep clear of
abbrev IsClear : ℕ → ℕ → Trace → ℕ → Type 0
IsClear rate limit t entry =
    (i a : ℕ) → i + rate ≡ length t.history → get_elem? t.history i ≡ some a → a + limit ≤ entry

module _ {rate limit : ℕ} where
  wait-Inv :
      (t : Trace) (n : ℕ) → Inv rate limit t → Inv rate limit (record t { clock = t.clock + n })
  wait-Inv t n v = record {
    pruned = v.pruned;
    rate_is = v.rate_is;
    limit_is = v.limit_is;
    split = v.split;
    gone = All-map v.pruned (λ x h. omega arith) v.gone;
    spaced = v.spaced;
  }

  leaving-Inv :
      (t : Trace)
      → Inv rate limit t
      → Inv rate limit (record t { scheduler = exit t.scheduler t.clock })
  unfolding exit
  leaving-Inv t v =
      let (popped, e, all) = pop_expired-split t.scheduler.limit t.clock t.scheduler.schedule in
      record {
        pruned = v.pruned ++ popped;
        rate_is = v.rate_is;
        limit_is = v.limit_is;
        split = rw append_assoc (v.split ∙ ap (◌++◌ v.pruned) e);
        gone =
            All-append _ v.pruned popped v.gone
              (All-map popped (λ x h. omega (arith, v.limit_is)) all);
        spaced = v.spaced;
      }

  append-Inv :
      (t : Trace) (entry resumed : ℕ)
      → 0 < rate
      → t.clock ≤ resumed
      → IsClear rate limit t entry
      → Inv rate limit t
      → Inv rate limit (record {
        scheduler = append t.scheduler entry;
        clock = resumed;
        history = t.history ++ entry ∷ [];
      })
  append-Inv t entry resumed pos later clear v = record {
    pruned = v.pruned;
    rate_is = v.rate_is;
    limit_is = v.limit_is;
    split = ap (λ h. h ++ entry ∷ []) v.split ∙ append_assoc v.pruned _ _;
    gone = All-map v.pruned (λ x h. omega arith) v.gone;
    spaced = IsSpaced-snoc rate limit entry t.history pos v.spaced clear;
  }

  IsClear-short :
      (t : Trace)
      → length t.scheduler.schedule < t.scheduler.rate
      → Inv rate limit t
      → IsClear rate limit t t.clock
  IsClear-short t few v i a at_end h =
      let size = ap length v.split ∙ length-append v.pruned t.scheduler.schedule in
      let inside : i < length v.pruned = omega (arith, size, v.rate_is) in
      let found : get_elem? v.pruned i ≡ some a =
        sym (get_elem?-append_left v.pruned t.scheduler.schedule i inside) ∙ (rw v.split at h) in
      All-get_elem? (λ x. x + limit ≤ t.clock) v.pruned i v.gone found

  IsClear-full :
      (t : Trace) (x entry : ℕ)
      → t.scheduler.rate ≤ length t.scheduler.schedule
      → base t.scheduler t.clock ≡ some x
      → x + t.scheduler.limit ≤ entry
      → Inv rate limit t
      → IsClear rate limit t entry
  IsClear-full t x entry full b ok_x v i a at_end h =
      let size = ap length v.split ∙ length-append v.pruned t.scheduler.schedule in
      let behind : length v.pruned ≤ i = omega (arith, size, v.rate_is) in
      let place : i - length v.pruned ≡ length t.scheduler.schedule - t.scheduler.rate =
        omega (arith, size, v.rate_is) in
      let found : get_elem? t.scheduler.schedule (i - length v.pruned) ≡ some a =
        sym (get_elem?-append_right v.pruned t.scheduler.schedule i behind) ∙ (rw v.split at h) in
      let same : x ≡ a = cc (ap (get_elem? t.scheduler.schedule) place) in omega (arith, v.limit_is)

  entering-Inv :
      (t : Trace) (e : Entered)
      → 0 < rate
      → Outcome t.scheduler t.clock e
      → Inv rate limit t
      → Inv rate limit (record {
        scheduler = e.scheduler;
        clock = e.resumed;
        history = t.history ++ e.entry ∷ [];
      })
  entering-Inv t _ pos (short few) v =
      append-Inv t t.clock t.clock pos (le_refl _) (IsClear-short t few v) v
  entering-Inv t _ pos (old x full b late) v =
      append-Inv t t.clock t.clock pos (le_refl _) (IsClear-full t x t.clock full b late v) v
  entering-Inv t _ pos (recent x full b early) v =
      append-Inv t (x + t.scheduler.limit) _ pos (omega arith)
        (IsClear-full t x (x + t.scheduler.limit) full b (le_refl _) v) v

  Step-Inv : {t u : Trace} → 0 < rate → Step t u → Inv rate limit t → Inv rate limit u
  Step-Inv pos (wait t n) v = wait-Inv t n v
  Step-Inv pos (entering t e h) v = entering-Inv t e pos (enter-Outcome t.scheduler t.clock e h) v
  Step-Inv pos (leaving t) v = leaving-Inv t v

  Reach-Inv : {s t : Trace} → 0 < rate → Inv rate limit s → Reach s t → Inv rate limit t
  Reach-Inv pos v here = v
  Reach-Inv pos v (next r st) = Step-Inv pos st (Reach-Inv pos v r)

init-fields :
    (rate limit : ℕ) (s : Scheduler)
    → init rate limit ≡ ok s
    → (0 < rate) × (s.rate ≡ rate) × (s.limit ≡ limit) × (s.schedule ≡ [])
unfolding init
init-fields rate limit s h = ground arith

init-Inv :
    (rate limit now : ℕ) (s : Scheduler) → init rate limit ≡ ok s → Inv rate limit (start s now)
init-Inv rate limit now s h =
    let (_, rate_is, limit_is, empty) = init-fields rate limit s h in
    record {
      pruned = [];
      rate_is = rate_is;
      limit_is = limit_is;
      split = sym empty;
      gone = tt;
      spaced = λ i a b ha hb. cc;
    }

-- Whatever sequence of calls and pauses follows the construction of a scheduler, entries that are
-- `rate` places apart in all that it recorded are at least `limit` apart, although `__exit__`
-- forgets entries in between.
pub history-IsSpaced :
    (rate limit now : ℕ) (s : Scheduler) (t : Trace)
    → init rate limit ≡ ok s
    → Reach (start s now) t
    → IsSpaced rate limit t.history
history-IsSpaced rate limit now s t h r =
    (Reach-Inv ((init-fields rate limit s h).0) (init-Inv rate limit now s h) r).spaced
