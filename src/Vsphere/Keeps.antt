-- ===== src/Vsphere/Keeps.antt =====
-- What the methods of VSphereClient do to the world, and to its open property filters.
use networking_nsx_t.Base.{
  String, Bool, true, false, Option, none, some, inl, inr, Bool-cases, if◌then◌else◌,
}
use networking_nsx_t.Base.Exec.{Result, ok, raise, Exec, pure, ◌>>=◌}
use networking_nsx_t.Base.Keeps.{Keeps, Ends, ReturnsIn, bind-Ends, keeps_bind}
use networking_nsx_t.Vsphere.{
  Session, Vm, VimType, VsphereConfig, Vcenter, VsphereState, finally, after_finally, first_named,
  ConnectArgs, is_not_authenticated,
}
use networking_nsx_t.Vsphere.Methods.{
  remote, remote_end, connect_args, _connect, _get_conn, connection_retry_policy,
  get_managed_object, conn_of, retried, the_connection, set_connection, get_vm_nic_by_mac, nic_of,
}

-- A choice keeps what both branches keep.
keeps_if {ℓ κ μ} :
    {S : Type ℓ} {A : Type κ} (P : S → Type μ) (b : Bool) (x y : Result A × S)
    → P (x.1)
    → P (y.1)
    → P ((if b then x else y).1)
keeps_if P true x y p q = p
keeps_if P false x y p q = q

abbrev pub InWorld {ℓ μ} : {W : Type ℓ} → (W → Type μ) → VsphereState W → Type μ
InWorld P s = P s.world

module _ {ℓ μ} {W : Type ℓ} (P : W → Type μ) where
  remote_end_keeps {κ} :
      {A : Type κ} (connection : Option Session) (r : Result A × W)
      → P (r.1)
      → InWorld P ((remote_end connection r).1)
  remote_end_keeps connection (r, w) p = p

  pub keeps_remote {κ} :
      {A : Type κ} (call : Exec W A) → Keeps P call → Keeps (InWorld P) (remote call)
  keeps_remote call k s p = remote_end_keeps s.connection (call s.world) (k s.world p)

  -- A call that comes to P where it was in Q
  pub remote_between {κ ν} :
      {A : Type κ} (Q : W → Type ν) (call : Exec W A)
      → ((w : W) → Q w → P ((call w).1))
      → (s : VsphereState W) → Q s.world
      → P ((remote call s).1.world)
  remote_between Q call k s q = remote_end_keeps s.connection (call s.world) (k s.world q)

  after_keeps {κ} :
      {A : Type κ} (r : Result A) (o : Result (Unit {0}) × VsphereState W)
      → P (o.1.world)
      → P ((after_finally r o).1.world)
  after_keeps r (ok u, s) p = p
  after_keeps r (raise e, s) p = p

  pub finally_keeps {κ ν} :
      {A : Type κ} (Q : W → Type ν) (o : Result A × VsphereState W)
      (clause : Exec (VsphereState W) (Unit {0}))
      → Q (o.1.world)
      → ((s : VsphereState W) → Q s.world → P ((clause s).1.world))
      → P ((finally o clause).1.world)
  finally_keeps Q (r, s) clause q k = after_keeps r (clause s) (k s q)

module _ {ℓ μ} {W : Type ℓ} (config : VsphereConfig) (vcenter : Vcenter W) (P : W → Type μ) where
  module _ (connects : (args : ConnectArgs) → Keeps P (vcenter.smart_connect args)) where
    connect_keeps : Keeps (InWorld P) (_connect config vcenter)
    unfolding _connect
    connect_keeps =
        keeps_bind (InWorld P) (remote (vcenter.smart_connect (connect_args config))) set_connection
          (keeps_remote P (vcenter.smart_connect (connect_args config))
            (connects (connect_args config)))
          (λ session s p. p)

    the_connection_keeps :
        (connection : Option Session) → Keeps (InWorld P) (the_connection connection)
    the_connection_keeps none s p = p
    the_connection_keeps (some session) s p = p

    conn_of_keeps :
        (connection : Option Session) → Keeps (InWorld P) (conn_of config vcenter connection)
    conn_of_keeps (some session) s p = p
    conn_of_keeps none s p =
        keeps_bind (InWorld P) (_connect config vcenter) (λ u s'. the_connection s'.connection s')
          connect_keeps (λ u s'. the_connection_keeps s'.connection s') s p

    pub get_conn_keeps : Keeps (InWorld P) (_get_conn config vcenter)
    unfolding _get_conn
    get_conn_keeps s = conn_of_keeps s.connection s

    retried_keeps {κ} :
        {A : Type κ} (func : Exec (VsphereState W) A)
        → Keeps (InWorld P) func
        → (o : Result A × VsphereState W) → P (o.1.world)
        → P ((retried config vcenter func o).1.world)
    retried_keeps func k (ok a, s) p = p
    retried_keeps func k (raise e, s) p =
        keeps_if (InWorld P) (is_not_authenticated e) _ _
          (keeps_bind (InWorld P) (_connect config vcenter) (λ u. func) connect_keeps (λ u. k) s p)
          p

    -- The policy keeps what the method and a login keep.
    pub connection_retry_policy-Keeps {κ} :
        {A : Type κ} (func : Exec (VsphereState W) A)
        → Keeps (InWorld P) func
        → Keeps (InWorld P) (connection_retry_policy config vcenter func)
    unfolding connection_retry_policy
    connection_retry_policy-Keeps func k s p = retried_keeps func k (func s) (k s p)

    -- A search for an object keeps what its view keeps.
    pub get_managed_object-Keeps {κ} :
        {Obj : Type κ} (vimtype : VimType W Obj) (name : Option String)
        → ((session : Session) → Keeps P (vimtype.view session))
        → Keeps (InWorld P) (get_managed_object config vcenter vimtype name)
    unfolding get_managed_object
    get_managed_object-Keeps vimtype name views =
        connection_retry_policy-Keeps
          (_get_conn config vcenter >>= λ session.
            remote (vimtype.view session) >>= λ objs. pure (first_named vimtype.name name objs))
          (keeps_bind (InWorld P) (_get_conn config vcenter)
            (λ session.
              remote (vimtype.view session) >>= λ objs. pure (first_named vimtype.name name objs))
            get_conn_keeps
            (λ session.
              keeps_bind (InWorld P) (remote (vimtype.view session))
                (λ objs. pure (first_named vimtype.name name objs))
                (keeps_remote P (vimtype.view session) (views session)) (λ objs s p. p)))

    nic_of_keeps :
        (mac_address : Option String) (vm : Option Vm) → Keeps (InWorld P) (nic_of mac_address vm)
    nic_of_keeps mac_address none s p = p
    nic_of_keeps mac_address (some vm) s p = p

    pub get_vm_nic_by_mac-Keeps :
        (vm : Option Vm) (mac_address : Option String)
        → Keeps (InWorld P) (get_vm_nic_by_mac config vcenter vm mac_address)
    unfolding get_vm_nic_by_mac
    get_vm_nic_by_mac-Keeps vm mac_address =
        connection_retry_policy-Keeps (nic_of mac_address vm) (nic_of_keeps mac_address vm)

-- What the policy returns, the method returned.
module _ {ℓ κ μ} {W : Type ℓ} {A : Type κ} (config : VsphereConfig) (vcenter : Vcenter W)
    (Q : A → Type μ) (func : Exec (VsphereState W) A) (k : Ends Q func) where
  retried_ends :
      (o : Result A × VsphereState W)
      → ReturnsIn Q (o.0)
      → ReturnsIn Q ((retried config vcenter func o).0)
  retried_ends (ok a, s) q = q
  retried_ends (raise e, s) q = elim (Bool-cases (is_not_authenticated e)) [
    | inl expired ↦ rw expired (bind-Ends (_connect config vcenter) (λ u. func) Q (λ u. k) s)
    | inr other ↦ rw other tt
  ]

  pub connection_retry_policy-Ends : Ends Q (connection_retry_policy config vcenter func)
  unfolding connection_retry_policy
  connection_retry_policy-Ends s = retried_ends (func s) (k s)
