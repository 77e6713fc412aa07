-- ===== src/Vsphere/Methods.antt =====
-- The methods of VSphereClient and the decorator, of
-- networking_nsxv3/plugins/ml2/drivers/nsxv3/agent/vsphere_client.py.
use networking_nsx_t.Base.{String, Option, none, some, List, [], ◌∷◌, if◌then◌else◌}
use networking_nsx_t.Base.Exec.{
  attribute_error, Result, ok, raise, Exec, pure, throw, lift, ◌>>=◌, ◌>>◌,
}
use networking_nsx_t.Vsphere.{
  Session, Task, Filter, TaskState, Change, Backing, Nic, Vm, Network, VimType, ConnectArgs,
  VsphereConfig, Vcenter, VsphereState, first_named, first_nic, state_of, first_update, edited_nic,
  finally, is_not_authenticated, failed, cert_none,
}

module _ {ℓ} {W : Type ℓ} where
  -- A call of the library, which changes the world only
  abbrev pub remote_end {κ} :
      {A : Type κ} → Option Session → Result A × W → Result A × VsphereState W
  remote_end connection (r, w) = (r, record { connection = connection; world = w })

  abbrev pub remote {κ} : {A : Type κ} → Exec W A → Exec (VsphereState W) A
  remote call s = remote_end s.connection (call s.world)

  abbrev pub set_connection : Session → Exec (VsphereState W) (Unit {0})
  set_connection session s = (ok tt, record s { connection = some session })

  -- A connection is true. After `_connect` there is one, or it has raised.
  abbrev pub the_connection : Option Session → Exec (VsphereState W) Session
  the_connection none = throw attribute_error
  the_connection (some session) = pure session

  -- `None.config` raises.
  abbrev pub nic_of : Option String → Option Vm → Exec (VsphereState W) (Option Nic)
  nic_of mac_address none = throw attribute_error
  nic_of mac_address (some vm) = pure (first_nic mac_address vm.device)

unfoldable pub connect_args : VsphereConfig → ConnectArgs
connect_args config = record {
  host = config.vsphere_login_hostname;
  user = config.vsphere_login_username;
  pwd = config.vsphere_login_password;
  ssl_context = if config.vsphere_suppress_ssl_wornings then some cert_none else none;
}

module _ {ℓ} {W : Type ℓ} (vcenter : Vcenter W) where
  abbrev pub check_state : Task → Option TaskState → Exec (VsphereState W) (Unit {0})
  check_state task (some failed) = remote (vcenter.task_error task) >>= λ e. throw e
  check_state task _ = pure tt

  unfoldable pub see_changes : Task → List Change → Exec (VsphereState W) (Unit {0})
  unfolding state_of
  see_changes task [] = pure tt
  see_changes task (change ∷ changes) =
      lift (state_of change) >>= λ state. check_state task state >> see_changes task changes

  abbrev pub destroy_filter : Option Filter → Exec (VsphereState W) (Unit {0})
  destroy_filter none = pure tt
  destroy_filter (some pcfilter) = remote (vcenter.destroy pcfilter)

  -- The body of the `try`
  unfoldable pub await_task : Session → Exec (VsphereState W) Task
  unfolding see_changes first_update
  await_task session = remote (vcenter.wait_for_updates session) >>= λ updates.
      lift (first_update updates) >>= λ update.
      see_changes update.obj update.change_set >> pure update.obj

module _ {ℓ} {W : Type ℓ} (config : VsphereConfig) (vcenter : Vcenter W) where
  unfoldable pub _connect : Exec (VsphereState W) (Unit {0})
  unfolding connect_args
  _connect = remote (vcenter.smart_connect (connect_args config)) >>= set_connection

  abbrev pub conn_of : Option Session → Exec (VsphereState W) Session
  conn_of (some session) = pure session
  conn_of none = _connect >> λ s. the_connection s.connection s

  unfoldable pub _get_conn : Exec (VsphereState W) Session
  unfolding _connect
  _get_conn s = conn_of s.connection s

  -- The except clause: one more call, of which nothing is caught
  abbrev pub retried {κ} :
      {A : Type κ} → Exec (VsphereState W) A → Result A × VsphereState W → Result A × VsphereState W
  retried func (ok a, s) = (ok a, s)
  retried func (raise e, s) = if is_not_authenticated e then (_connect >> func) s else (raise e, s)

  unfoldable pub connection_retry_policy {κ} :
      {A : Type κ} → Exec (VsphereState W) A → Exec (VsphereState W) A
  unfolding _connect
  connection_retry_policy func s = retried func (func s)

  unfoldable pub get_managed_object {κ} :
      {Obj : Type κ} → VimType W Obj → Option String → Exec (VsphereState W) (Option Obj)
  unfolding _get_conn connection_retry_policy
  get_managed_object vimtype name = connection_retry_policy (
      _get_conn >>= λ session.
      remote (vimtype.view session) >>= λ objs. pure (first_named vimtype.name name objs))

  unfoldable pub wait_for_task : Task → Exec (VsphereState W) Task
  unfolding _get_conn connection_retry_policy await_task
  wait_for_task task = connection_retry_policy (
      _get_conn >>= λ session. remote (vcenter.create_filter session task) >>= λ pcfilter s.
      finally (await_task vcenter session s) (destroy_filter vcenter pcfilter))

  -- The summary of a network that is no OpaqueNetwork lacks the attributes.
  unfoldable pub attach_to : Vm → Nic → Option Backing → Exec (VsphereState W) (Unit {0})
  unfolding wait_for_task edited_nic
  attach_to vm nic none = throw attribute_error
  attach_to vm nic (some backing) =
      remote (vcenter.reconfig_vm_task vm (edited_nic nic backing)) >>= λ task.
      wait_for_task task >> pure tt

  unfoldable pub attach_vm_to_network : Vm → Nic → Network → Exec (VsphereState W) (Unit {0})
  unfolding connection_retry_policy attach_to
  attach_vm_to_network vm nic network = connection_retry_policy (attach_to vm nic network.summary)

  unfoldable pub get_vm_nic_by_mac : Option Vm → Option String → Exec (VsphereState W) (Option Nic)
  unfolding connection_retry_policy first_nic
  get_vm_nic_by_mac vm_obj mac_address = connection_retry_policy (nic_of mac_address vm_obj)
