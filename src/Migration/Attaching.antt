-- ===== src/Migration/Attaching.antt =====
-- What a migration does at the vCenter to the card of the port.
use networking_nsx_t.Base.{ℕ, String, true, Option, none, some, ◌≡◌, refl, inl, inr, Bool-cases}
use networking_nsx_t.Base.Dict.{lookup}
use networking_nsx_t.Base.Exec.{attribute_error, lift, from_option, ◌>>=◌}
use networking_nsx_t.Base.Keeps.{Keeps, Found, keeps_lift, keeps_bind, keeps_bind_when}
use networking_nsx_t.Vsphere.{Session, Vm, Nic, Network, has_mac, edited_nic}
use networking_nsx_t.Vsphere.Methods.{remote, get_vm_nic_by_mac}
use networking_nsx_t.Vsphere.Keeps.{
  InWorld, keeps_remote, get_managed_object-Keeps, get_vm_nic_by_mac-Keeps,
}
use networking_nsx_t.Vsphere.Filters.{FilterLaws, attach_vm_to_network-Keeps}
use networking_nsx_t.Vsphere.Lookup.{get_vm_nic_by_mac-has_mac}
use networking_nsx_t.Migration.{
  MigratedPort, MigrationTarget, is_assigned, migrated_nic, find_object, opaque_network, attach,
  attach_nic, migrate_nic, migrate_vm, _migrate_port,
}

-- A specification that edits the card of the port: its address is the port's, it is named by the
-- port and connected.
abbrev pub IsOfPort : MigratedPort → Nic → Type 0
IsOfPort port nic =
    (has_mac port.mac_address nic ≡ true) × (nic.external_id ≡ port.id) × (nic.connected ≡ true)

-- A predicate of the world that the calls keep, reconfiguration of the port's card included
pub record MigrationLaws {ℓ μ} {W : Type ℓ} (target : MigrationTarget W) (port : MigratedPort)
    (P : W → Type μ) : Type (ℓ ⊔ μ) where
  pub filters : FilterLaws target.vcenter P P
  pub views : (session : Session) → Keeps P (target.virtual_machine.view session)
  pub network_views : (session : Session) → Keeps P (target.network.view session)
  pub switch_ids :
      (segmentation_id : ℕ) → Keeps P (target.get_switch_id_for_segmentation_id segmentation_id)
  pub switches : (id : Option String) → Keeps P (target.get_switch id)
  pub reconfigures :
      (vm : Vm) (nic : Nic) → IsOfPort port nic → Keeps P (target.vcenter.reconfig_vm_task vm nic)

module _ {ℓ μ} {W : Type ℓ} (target : MigrationTarget W) (port : MigratedPort) (P : W → Type μ)
    (laws : MigrationLaws target port P) where
  attach_keeps :
      (vm : Vm) (nic : Nic) (net : Network)
      → IsOfPort port nic
      → Keeps (InWorld P) (attach target vm nic net)
  unfolding edited_nic
  attach_keeps vm nic net of_port =
      attach_vm_to_network-Keeps target.config target.vcenter P P laws.filters vm nic
        (λ backing. laws.reconfigures vm (edited_nic nic backing) of_port) net

  attach_nic_keeps :
      (vim_vm : Option Vm) (nic : Nic) (display_name : Option String)
      → IsOfPort port nic
      → Keeps (InWorld P) (attach_nic target vim_vm nic display_name)
  unfolding attach_nic
  attach_nic_keeps vim_vm nic display_name of_port =
      keeps_bind (InWorld P) (find_object target target.network display_name)
        (λ vim_net. lift (opaque_network vim_net) >>= λ net.
          lift (from_option attribute_error vim_vm) >>= λ vm. attach target vm nic net)
        (get_managed_object-Keeps target.config target.vcenter P laws.filters.connects
          target.network display_name laws.network_views)
        (λ vim_net.
          keeps_bind (InWorld P) (lift (opaque_network vim_net))
            (λ net. lift (from_option attribute_error vim_vm) >>= λ vm. attach target vm nic net)
            (keeps_lift (InWorld P) (opaque_network vim_net))
            (λ net.
              keeps_bind (InWorld P) (lift (from_option attribute_error vim_vm))
                (λ vm. attach target vm nic net)
                (keeps_lift (InWorld P) (from_option attribute_error vim_vm))
                (λ vm. attach_keeps vm nic net of_port)))

  migrate_nic_keeps :
      (vim_vm : Option Vm) (nsx_ls_id : Option String) (nic : Option Nic)
      → Found (has_mac port.mac_address) nic
      → Keeps (InWorld P) (migrate_nic target port vim_vm nsx_ls_id nic)
  unfolding migrate_nic
  migrate_nic_keeps vim_vm nsx_ls_id none found s p = p
  migrate_nic_keeps vim_vm nsx_ls_id (some nic) found s p =
      keeps_bind (InWorld P) (remote (target.get_switch nsx_ls_id))
        (λ nsx_ls. lift (from_option attribute_error nsx_ls) >>= λ display_name.
          attach_nic target vim_vm (migrated_nic port nic) display_name)
        (keeps_remote P (target.get_switch nsx_ls_id) (laws.switches nsx_ls_id))
        (λ nsx_ls.
          keeps_bind (InWorld P) (lift (from_option attribute_error nsx_ls))
            (λ display_name. attach_nic target vim_vm (migrated_nic port nic) display_name)
            (keeps_lift (InWorld P) (from_option attribute_error nsx_ls))
            (λ display_name.
              attach_nic_keeps vim_vm (migrated_nic port nic) display_name (found, refl, refl)))
        s p

  migrate_vm_keeps :
      (nsx_ls_id : Option String) → Keeps (InWorld P) (migrate_vm target port nsx_ls_id)
  unfolding migrate_vm
  migrate_vm_keeps nsx_ls_id =
      keeps_bind (InWorld P) (find_object target target.virtual_machine port.device_id)
        (λ vim_vm.
          get_vm_nic_by_mac target.config target.vcenter vim_vm port.mac_address >>= λ vim_nic.
          migrate_nic target port vim_vm nsx_ls_id vim_nic)
        (get_managed_object-Keeps target.config target.vcenter P laws.filters.connects
          target.virtual_machine port.device_id laws.views)
        (λ vim_vm.
          keeps_bind_when (get_vm_nic_by_mac target.config target.vcenter vim_vm port.mac_address)
            (λ vim_nic. migrate_nic target port vim_vm nsx_ls_id vim_nic) (InWorld P)
            (Found (has_mac port.mac_address))
            (get_vm_nic_by_mac-Keeps target.config target.vcenter P laws.filters.connects vim_vm
              port.mac_address)
            (get_vm_nic_by_mac-has_mac target.config target.vcenter vim_vm port.mac_address)
            (migrate_nic_keeps vim_vm nsx_ls_id))

  assigned_keeps :
      (segmentation_id : ℕ)
      → Keeps (InWorld P) (
          remote (target.get_switch_id_for_segmentation_id segmentation_id) >>= λ switch_id.
          lift (from_option attribute_error port.vif_details) >>= λ vif_details.
          migrate_vm target port (lookup "nsx-logical-switch-id" vif_details))
  assigned_keeps segmentation_id =
      keeps_bind (InWorld P) (remote (target.get_switch_id_for_segmentation_id segmentation_id))
        (λ switch_id. lift (from_option attribute_error port.vif_details) >>= λ vif_details.
          migrate_vm target port (lookup "nsx-logical-switch-id" vif_details))
        (keeps_remote P (target.get_switch_id_for_segmentation_id segmentation_id)
          (laws.switch_ids segmentation_id))
        (λ switch_id.
          keeps_bind (InWorld P) (lift (from_option attribute_error port.vif_details))
            (λ vif_details. migrate_vm target port (lookup "nsx-logical-switch-id" vif_details))
            (keeps_lift (InWorld P) (from_option attribute_error port.vif_details))
            (λ vif_details. migrate_vm_keeps (lookup "nsx-logical-switch-id" vif_details)))

  -- The migration of a port reconfigures virtual machines with specifications of the port's card
  -- only: each names a card with the port's MAC address, sets its external id to the port's id and
  -- connects it. So a predicate of the world that such a reconfiguration and the searches keep is
  -- kept by the whole migration, wherever it fails and however often the session expires.
  pub _migrate_port-Keeps :
      (segmentation_id : ℕ) → Keeps (InWorld P) (_migrate_port target (some port) segmentation_id)
  unfolding _migrate_port
  _migrate_port-Keeps segmentation_id s p =
      elim (Bool-cases (is_assigned target.host port.binding_host_id)) [
        | inl here ↦ rw (_migrate_port, here) (assigned_keeps segmentation_id s p)
        | inr elsewhere ↦ rw (_migrate_port, elsewhere) p
      ]
