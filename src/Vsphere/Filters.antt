-- ===== src/Vsphere/Filters.antt =====
-- The property filters of VSphereClient, that wait_for_task opens and closes.
use networking_nsx_t.Base.{ℕ, suc, Option, none, some, List, [], ◌∷◌, ◌≡◌, refl}
use networking_nsx_t.Base.Exec.{Result, ok, raise, Exec, pure, throw, lift, continue, ◌>>=◌, ◌>>◌}
use networking_nsx_t.Base.Keeps.{Keeps, keeps_lift, keeps_bind}
use networking_nsx_t.Vsphere.{
  Session, Task, Filter, TaskState, queued, running, success, failed, Change, Vm, Nic, Network,
  Backing, VsphereConfig, Vcenter, VsphereState, ConnectArgs, finally, edited_nic, first_update,
  state_of,
}
use networking_nsx_t.Vsphere.Methods.{
  remote, remote_end, _get_conn, check_state, see_changes, await_task, wait_for_task,
  destroy_filter, attach_to, attach_vm_to_network,
}
use networking_nsx_t.Vsphere.Keeps.{
  InWorld, keeps_remote, remote_between, finally_keeps, get_conn_keeps,
  connection_retry_policy-Keeps,
}

-- What a call that creates a filter leaves: Open where there is one, else Shut.
abbrev pub Created {ℓ μ} :
    {W : Type ℓ} → (W → Type μ) → (W → Type μ) → Result (Option Filter) × W → Type μ
Created Shut Open (ok none, w) = Shut w
Created Shut Open (ok (some pcfilter), w) = Open w
Created Shut Open (raise e, w) = Shut w

-- The calls of wait_for_task go from Shut to Open where they create a filter, and back where they
-- destroy it; the others stay where they are.
pub record FilterLaws {ℓ μ} {W : Type ℓ} (vcenter : Vcenter W) (Shut Open : W → Type μ)
    : Type (ℓ ⊔ μ) where
  pub connects : (args : ConnectArgs) → Keeps Shut (vcenter.smart_connect args)
  pub creates :
      (session : Session) (task : Task) (w : W)
      → Shut w
      → Created Shut Open (vcenter.create_filter session task w)
  pub waits : (session : Session) → Keeps Open (vcenter.wait_for_updates session)
  pub errs : (task : Task) → Keeps Open (vcenter.task_error task)
  pub destroys : (pcfilter : Filter) (w : W) → Open w → Shut ((vcenter.destroy pcfilter w).1)
  pub waits_without : (session : Session) → Keeps Shut (vcenter.wait_for_updates session)
  pub errs_without : (task : Task) → Keeps Shut (vcenter.task_error task)

module _ {ℓ μ} {W : Type ℓ} (vcenter : Vcenter W) (P : W → Type μ)
    (waits : (session : Session) → Keeps P (vcenter.wait_for_updates session))
    (errs : (task : Task) → Keeps P (vcenter.task_error task)) where
  check_state_keeps :
      (task : Task) (state : Option TaskState) → Keeps (InWorld P) (check_state vcenter task state)
  check_state_keeps task (some failed) s p =
      keeps_bind (InWorld P) (remote (vcenter.task_error task)) (λ e. throw e)
        (keeps_remote P (vcenter.task_error task) (errs task)) (λ e s p. p) s p
  check_state_keeps task none s p = p
  check_state_keeps task (some queued) s p = p
  check_state_keeps task (some running) s p = p
  check_state_keeps task (some success) s p = p

  see_changes_keeps :
      (task : Task) (changes : List Change) → Keeps (InWorld P) (see_changes vcenter task changes)
  unfolding see_changes
  see_changes_keeps task [] s p = p
  see_changes_keeps task (change ∷ changes) s p =
      keeps_bind (InWorld P) (lift (state_of change))
        (λ state. check_state vcenter task state >> see_changes vcenter task changes)
        (keeps_lift (InWorld P) (state_of change))
        (λ state.
          keeps_bind (InWorld P) (check_state vcenter task state)
            (λ u. see_changes vcenter task changes) (check_state_keeps task state)
            (λ u. see_changes_keeps task changes))
        s p

  await_task_keeps : (session : Session) → Keeps (InWorld P) (await_task vcenter session)
  unfolding await_task
  await_task_keeps session =
      keeps_bind (InWorld P) (remote (vcenter.wait_for_updates session))
        (λ updates. lift (first_update updates) >>= λ update.
          see_changes vcenter update.obj update.change_set >> pure update.obj)
        (keeps_remote P (vcenter.wait_for_updates session) (waits session))
        (λ updates.
          keeps_bind (InWorld P) (lift (first_update updates))
            (λ update. see_changes vcenter update.obj update.change_set >> pure update.obj)
            (keeps_lift (InWorld P) (first_update updates))
            (λ update.
              keeps_bind (InWorld P) (see_changes vcenter update.obj update.change_set)
                (λ u. pure update.obj) (see_changes_keeps update.obj update.change_set)
                (λ u s p. p)))

module _ {ℓ μ} {W : Type ℓ} (config : VsphereConfig) (vcenter : Vcenter W) (Shut Open : W → Type μ)
    (laws : FilterLaws vcenter Shut Open) where
  destroy_filter_shuts :
      (pcfilter : Filter) (s : VsphereState W)
      → Open s.world
      → Shut ((destroy_filter vcenter (some pcfilter) s).1.world)
  destroy_filter_shuts pcfilter =
      remote_between Shut Open (vcenter.destroy pcfilter) (laws.destroys pcfilter)

  -- What follows the creation of the filter
  abbrev awaited : Session → Option Filter → Exec (VsphereState W) Task
  awaited session pcfilter s =
      finally (await_task vcenter session s) (destroy_filter vcenter pcfilter)

  awaited_shuts :
      (session : Session) (connection : Option Session) (o : Result (Option Filter) × W)
      → Created Shut Open o
      → Shut ((continue (remote_end connection o) (awaited session)).1.world)
  awaited_shuts session connection (raise e, w) c = c
  awaited_shuts session connection (ok none, w) c =
      let s : VsphereState W = record { connection = connection; world = w } in
      finally_keeps Shut Shut (await_task vcenter session s) (destroy_filter vcenter none)
        (await_task_keeps vcenter Shut laws.waits_without laws.errs_without session s c) (λ s' p. p)
  awaited_shuts session connection (ok (some pcfilter), w) c =
      let s : VsphereState W = record { connection = connection; world = w } in
      finally_keeps Shut Open (await_task vcenter session s)
        (destroy_filter vcenter (some pcfilter))
        (await_task_keeps vcenter Open laws.waits laws.errs session s c)
        (destroy_filter_shuts pcfilter)

  pub wait_for_task-Keeps : (task : Task) → Keeps (InWorld Shut) (wait_for_task config vcenter task)
  unfolding wait_for_task
  wait_for_task-Keeps task =
      connection_retry_policy-Keeps config vcenter Shut laws.connects
        (_get_conn config vcenter >>= λ session.
          remote (vcenter.create_filter session task) >>= awaited session)
        (keeps_bind (InWorld Shut) (_get_conn config vcenter)
          (λ session. remote (vcenter.create_filter session task) >>= awaited session)
          (get_conn_keeps config vcenter Shut laws.connects)
          (λ session s p.
            awaited_shuts session s.connection (vcenter.create_filter session task s.world)
              (laws.creates session task s.world p)))

  module _ (vm : Vm) (nic : Nic)
      (reconfigures : (backing : Backing)
        → Keeps Shut (vcenter.reconfig_vm_task vm (edited_nic nic backing))) where
    attach_to_keeps :
        (summary : Option Backing) → Keeps (InWorld Shut) (attach_to config vcenter vm nic summary)
    unfolding attach_to
    attach_to_keeps none s p = p
    attach_to_keeps (some backing) s p =
        keeps_bind (InWorld Shut) (remote (vcenter.reconfig_vm_task vm (edited_nic nic backing)))
          (λ task. wait_for_task config vcenter task >> pure tt)
          (keeps_remote Shut (vcenter.reconfig_vm_task vm (edited_nic nic backing))
            (reconfigures backing))
          (λ task.
            keeps_bind (InWorld Shut) (wait_for_task config vcenter task) (λ u. pure tt)
              (wait_for_task-Keeps task) (λ u s p. p))
          s p

    pub attach_vm_to_network-Keeps :
        (network : Network)
        → Keeps (InWorld Shut) (attach_vm_to_network config vcenter vm nic network)
    unfolding attach_vm_to_network
    attach_vm_to_network-Keeps network =
        connection_retry_policy-Keeps config vcenter Shut laws.connects
          (attach_to config vcenter vm nic network.summary) (attach_to_keeps network.summary)

-- A count of the filters that are open, as the server's calls change it
pub record FilterCount {ℓ} {W : Type ℓ} (vcenter : Vcenter W) (count : W → ℕ) : Type ℓ where
  pub laws : (n : ℕ) → FilterLaws vcenter (λ w. count w ≡ n) (λ w. count w ≡ suc n)
  pub reconfigures :
      (vm : Vm) (nic : Nic) (n : ℕ) → Keeps (λ w. count w ≡ n) (vcenter.reconfig_vm_task vm nic)

-- Where creating a property filter opens one, destroying it closes one and no other call of the
-- library changes the number, as many filters are open after attach_vm_to_network as before it,
-- whether it succeeds, the task fails, or the session expires at any point of it.
pub attach_vm_to_network-Closed {ℓ} :
    {W : Type ℓ} (config : VsphereConfig) (vcenter : Vcenter W) (count : W → ℕ)
    → FilterCount vcenter count
    → (vm : Vm) (nic : Nic) (network : Network) (s : VsphereState W)
    → count ((attach_vm_to_network config vcenter vm nic network s).1.world) ≡ count s.world
attach_vm_to_network-Closed config vcenter count counted vm nic network s =
    attach_vm_to_network-Keeps config vcenter (λ w. count w ≡ count s.world)
      (λ w. count w ≡ suc (count s.world)) (counted.laws (count s.world)) vm nic
      (λ backing. counted.reconfigures vm (edited_nic nic backing) (count s.world)) network s refl
