-- ===== src/Locking/Owners.antt =====
-- In which process the coordinator that gives a lock was made.
use networking_nsx_t.Base.{
  ℕ, String, Bool, true, false, Option, none, some, ◌≡◌, refl, ap, not, sym, ◌∙◌, inl, inr,
  Bool-cases, nat_eq, nat_eq_iff, truthy_text, arith, eq_of_some,
}
use networking_nsx_t.Base.Exec.{Result, ok, raise, continue, ◌>>◌}
use networking_nsx_t.Locking.{
  LockApi, LockState, outside, outside_end, set_coordinator, is_other, url_of, new_coordinator,
  lock_by, renew, _get_lock_distributed, get_lock,
}

-- `owner` is the process in which a coordinator was made. The pid that is kept is that of the
-- coordinator's owner.
abbrev pub IsOwned {ℓ} : {W : Type ℓ} → (ℕ → ℕ) → LockState W → Type 0
IsOwned owner s =
    (pid coordinator : ℕ)
    → s._coordinator_pid ≡ some pid
    → s._coordinator ≡ some coordinator
    → owner coordinator ≡ pid

-- Where a call that made a coordinator succeeded, it is owned by this process.
abbrev pub MadeBy {ℓ} : {W : Type ℓ} → (ℕ → ℕ) → ℕ → Result ℕ × W → Type 0
MadeBy owner pid (ok coordinator, w) = owner coordinator ≡ pid
MadeBy owner pid (raise e, w) = Unit

-- The outcome of a renewal: where it did not raise, the state is owned and of this process.
abbrev pub IsRenewed {ℓ} : {W : Type ℓ} → (ℕ → ℕ) → ℕ → Result (Unit {0}) × LockState W → Type 0
IsRenewed owner pid (ok u, s) = IsOwned owner s × (s._coordinator_pid ≡ some pid)
IsRenewed owner pid (raise e, s) = Unit

not-false : (b : Bool) → not b ≡ false → b ≡ true
not-false b h = ground arith

module _ {ℓ} {W : Type ℓ} (api : LockApi W) (url : Option String) (pid : ℕ) (owner : ℕ → ℕ)
    (makes : (s n : String) (w : W) → MadeBy owner pid (api.get_coordinator s n w)) where
  started-IsRenewed :
      (s : LockState W) (coordinator : ℕ) (o : Result (Unit {0}) × W)
      → owner coordinator ≡ pid
      → s._coordinator ≡ some coordinator
      → s._coordinator_pid ≡ some pid
      → IsRenewed owner pid (outside_end s o)
  started-IsRenewed s coordinator (ok u, w) own here at = (
    λ p c hp hc.
        let same : coordinator ≡ c = eq_of_some (sym here ∙ hc) in
        let process : pid ≡ p = eq_of_some (sym at ∙ hp) in rw (← same, ← process) own,
    at,
  )
  started-IsRenewed s coordinator (raise e, w) own here at = tt

  made-IsRenewed :
      (s : LockState W) (o : Result ℕ × W)
      → MadeBy owner pid o
      → s._coordinator_pid ≡ some pid
      → IsRenewed owner pid
          (continue (outside_end s o) (λ c. set_coordinator c >> outside (api.start c)))
  made-IsRenewed s (ok coordinator, w) own at =
      started-IsRenewed (record s { _coordinator = some coordinator; world = w }) coordinator
        (api.start coordinator w) own refl at
  made-IsRenewed s (raise e, w) own at = tt

  new_coordinator-IsRenewed :
      (s : LockState W) → IsRenewed owner pid (new_coordinator api url pid s)
  unfolding new_coordinator
  new_coordinator-IsRenewed s =
      made-IsRenewed (record s { _coordinator_pid = some pid })
        (api.get_coordinator (url_of url) "neutron-nsxv3-plugin" s.world)
        (makes (url_of url) "neutron-nsxv3-plugin" s.world) refl

  same_pid : (kept : Option ℕ) → is_other pid kept ≡ false → kept ≡ some pid
  same_pid none h = absurd cc
  same_pid (some p) h = ap some ((nat_eq_iff p pid).0 (not-false (nat_eq p pid) h))

  renew-IsRenewed : (s : LockState W) → IsOwned owner s → IsRenewed owner pid (renew api url pid s)
  renew-IsRenewed s own = elim (Bool-cases (is_other pid s._coordinator_pid)) [
    | inl other ↦ rw other (new_coordinator-IsRenewed s)
    | inr same ↦ rw same (own, same_pid s._coordinator_pid same)
  ]

  -- A lock that was taken: it is one of a coordinator of this process, and the state stays owned.
  abbrev pub IsTaken : String → Result ℕ × LockState W → Type ℓ
  IsTaken name (ok lock, s) =
      (coordinator : ℕ) × (w : W) × (owner coordinator ≡ pid)
      × (api.get_lock_of coordinator name w ≡ (ok lock, s.world))
      × IsOwned owner s
  IsTaken name (raise e, s) = Unit

  got-IsTaken :
      (name : String) (s : LockState W) (coordinator : ℕ) (o : Result ℕ × W)
      → api.get_lock_of coordinator name s.world ≡ o
      → owner coordinator ≡ pid
      → IsOwned owner s
      → IsTaken name (outside_end s o)
  got-IsTaken name s coordinator (ok lock, w) e mine own = (coordinator, s.world, mine, e, own)
  got-IsTaken name s coordinator (raise x, w) e mine own = tt

  lock_by-IsTaken :
      (name : String) (s : LockState W) (coordinator : Option ℕ)
      → s._coordinator ≡ coordinator
      → IsOwned owner s
      → s._coordinator_pid ≡ some pid
      → IsTaken name (lock_by api url pid name coordinator s)
  lock_by-IsTaken name s none e own at = tt
  lock_by-IsTaken name s (some coordinator) e own at =
      got-IsTaken name s coordinator (api.get_lock_of coordinator name s.world) refl
        (own pid coordinator at e) own

  continue-IsTaken :
      (name : String) (o : Result (Unit {0}) × LockState W)
      → IsRenewed owner pid o
      → IsTaken name (continue o (λ u s. lock_by api url pid name s._coordinator s))
  continue-IsTaken name (ok u, s) (own, at) = lock_by-IsTaken name s s._coordinator refl own at
  continue-IsTaken name (raise e, s) r = tt

  -- With a connect string, a process that takes a lock takes it of a coordinator that it made
  -- itself, also after a fork, where the attributes are those of the parent: given that the
  -- coordinator that is kept was made by the process that is kept, which holds again after it.
  pub get_lock-IsTaken :
      (name : String) (s : LockState W)
      → truthy_text url ≡ true
      → IsOwned owner s
      → IsTaken name (get_lock api url pid name s)
  unfolding get_lock _get_lock_distributed
  get_lock-IsTaken name s configured own =
      rw (get_lock, configured)
        (continue-IsTaken name (renew api url pid s) (renew-IsRenewed s own))
