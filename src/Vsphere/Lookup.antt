-- ===== src/Vsphere/Lookup.antt =====
-- What the searches of VSphereClient find, and how often a method is tried.
use networking_nsx_t.Base.{
  String, true, false, Option, none, some, List, [], ◌∷◌, ◌≡◌, inl, inr, refl, Bool-cases,
}
use networking_nsx_t.Base.Exec.{Result, ok, raise, Exec, continue}
use networking_nsx_t.Base.Keeps.{Ends, ReturnsIn, Found}
use networking_nsx_t.Vsphere.Keeps.{connection_retry_policy-Ends}
use networking_nsx_t.Vsphere.{
  has_mac, Device, ethernet_card, other_device, VsphereConfig, Vcenter, VsphereState, is_named,
  first_named, first_nic, Session, VimType, Vm, is_not_authenticated,
}
use networking_nsx_t.Vsphere.Methods.{
  nic_of, _get_conn, get_managed_object, get_vm_nic_by_mac, _connect, connection_retry_policy,
  retried,
}

module _ {ℓ} {Obj : Type ℓ} (name_of : Obj → Option String) (name : Option String) where
  -- The first of a list that is named: the ones before it are not.
  pub data FirstNamed : Option Obj → List Obj → Type ℓ where
    nothing : FirstNamed none []
    here :
        {o : Obj} {objs : List Obj}
        → is_named name (name_of o) ≡ true
        → FirstNamed (some o) (o ∷ objs)
    later :
        {found : Option Obj} {o : Obj} {objs : List Obj}
        → is_named name (name_of o) ≡ false
        → FirstNamed found objs
        → FirstNamed found (o ∷ objs)

  pub first_named-FirstNamed : (objs : List Obj) → FirstNamed (first_named name_of name objs) objs
  unfolding first_named
  first_named-FirstNamed [] = nothing
  first_named-FirstNamed (o ∷ objs) = elim (Bool-cases (is_named name (name_of o))) [
    | inl named ↦ rw (first_named, named) (here named)
    | inr other ↦ rw (first_named, other) (later other (first_named-FirstNamed objs))
  ]

module _ {ℓ κ} {W : Type ℓ} {Obj : Type κ} (config : VsphereConfig) (vcenter : Vcenter W)
    (vimtype : VimType W Obj) where
  -- On a session that has not expired, get_managed_object returns the first object of the view
  -- with a readable name that contains the text, or None where there is none, and only reads.
  pub get_managed_object-FirstNamed :
      (name : Option String) (session : Session) (w v : W) (objs : List Obj)
      → vimtype.view session w ≡ (ok objs, v)
      → (found : Option Obj) × FirstNamed vimtype.name name found objs
        × (get_managed_object config vcenter vimtype name
              (record { connection = some session; world = w })
            ≡ (ok found, record { connection = some session; world = v }))
  unfolding get_managed_object connection_retry_policy _get_conn
  get_managed_object-FirstNamed name session w v objs e =
      (first_named vimtype.name name objs, first_named-FirstNamed vimtype.name name objs, rw e refl)

-- What `_connect` leaves: a session that is live, or an error that does not say "not authenticated"
abbrev pub Connected {ℓ} :
    {W : Type ℓ} → (VsphereState W → Type 0) → Result (Unit {0}) × VsphereState W → Type 0
Connected Live (ok u, s) = Live s
Connected Live (raise e, s) = is_not_authenticated e ≡ false

-- An outcome that is not the error "not authenticated"
abbrev pub Authenticated {ℓ κ} : {W : Type ℓ} {A : Type κ} → Result A × VsphereState W → Type 0
Authenticated (ok a, s) = Unit
Authenticated (raise e, s) = is_not_authenticated e ≡ false

module _ {ℓ κ} {W : Type ℓ} {A : Type κ} (config : VsphereConfig) (vcenter : Vcenter W)
    (func : Exec (VsphereState W) A) (Live : VsphereState W → Type 0)
    (lives : (s : VsphereState W) → Live s → Authenticated (func s)) where
  continue_recovers :
      (o : Result (Unit {0}) × VsphereState W)
      → Connected Live o
      → Authenticated (continue o (λ u. func))
  continue_recovers (ok u, s) c = lives s c
  continue_recovers (raise e, s) c = c

  retried_recovers :
      ((s : VsphereState W) → Connected Live (_connect config vcenter s))
      → (o : Result A × VsphereState W) → Authenticated (retried config vcenter func o)
  retried_recovers connects (ok a, s) = tt
  retried_recovers connects (raise e, s) = elim (Bool-cases (is_not_authenticated e)) [
    | inl expired ↦ rw expired (continue_recovers (_connect config vcenter s) (connects s))
    | inr other ↦ rw other other
  ]

  -- Where a method that runs on a live session does not raise NotAuthenticated, and a login either
  -- gives a live session or raises something else, the method under the policy does not raise
  -- NotAuthenticated, whatever session it starts with.
  pub connection_retry_policy-Authenticated :
      ((s : VsphereState W) → Connected Live (_connect config vcenter s))
      → (s : VsphereState W) → Authenticated (connection_retry_policy config vcenter func s)
  unfolding connection_retry_policy
  connection_retry_policy-Authenticated connects s = retried_recovers connects (func s)

module _ {ℓ} {W : Type ℓ} (config : VsphereConfig) (vcenter : Vcenter W) where
  first_nic-has_mac :
      (mac_address : Option String) (devices : List Device)
      → ReturnsIn (Found (has_mac mac_address)) (ok (first_nic mac_address devices))
  unfolding first_nic
  first_nic-has_mac mac_address [] = tt
  first_nic-has_mac mac_address (other_device ∷ devices) = first_nic-has_mac mac_address devices
  first_nic-has_mac mac_address (ethernet_card nic ∷ devices) =
      elim (Bool-cases (has_mac mac_address nic)) [
        | inl same ↦ rw same same
        | inr other ↦ rw other (first_nic-has_mac mac_address devices)
      ]

  nic_of-has_mac :
      (mac_address : Option String) (vm : Option Vm)
      → Ends {S = VsphereState W} (Found (has_mac mac_address)) (nic_of mac_address vm)
  nic_of-has_mac mac_address none s = tt
  nic_of-has_mac mac_address (some vm) s = first_nic-has_mac mac_address vm.device

  -- A card that get_vm_nic_by_mac returns has the address.
  pub get_vm_nic_by_mac-has_mac :
      (vm : Option Vm) (mac_address : Option String)
      → Ends (Found (has_mac mac_address)) (get_vm_nic_by_mac config vcenter vm mac_address)
  unfolding get_vm_nic_by_mac
  get_vm_nic_by_mac-has_mac vm mac_address =
      connection_retry_policy-Ends config vcenter (Found (has_mac mac_address))
        (nic_of mac_address vm) (nic_of-has_mac mac_address vm)
