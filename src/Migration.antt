-- ===== src/Migration.antt =====
-- The decorator migrator and NSXv3NVDsMigrator of
-- networking_nsxv3/plugins/ml2/drivers/nsxv3/agent/nsxv3_migration.py.
use networking_nsx_t.Base.{
  ℕ, String, Bool, true, false, ◌&&◌, Option, none, some, List, [], ◌∷◌, ◌==◌, if◌then◌else◌,
  truthy_text,
}
use networking_nsx_t.Base.Dict.{Dict, lookup}
use networking_nsx_t.Base.Exec.{
  type_error, attribute_error, ambiguous, other_network_type, Result, ok, raise, Exec, pure, throw,
  lift, from_option, ◌>>=◌, ◌>>◌,
}
use networking_nsx_t.Inventory.{Tag}
use networking_nsx_t.Vsphere.{Vm, Nic, Network, VimType, Vcenter, VsphereConfig, VsphereState}
use networking_nsx_t.Vsphere.Methods.{
  remote, get_managed_object, get_vm_nic_by_mac, attach_vm_to_network,
}
mod Forwarding
mod Attaching
mod Examples

abbrev pub migration_scope : String
migration_scope = "vswitch_migration_target"

-- The port of the message; a key that is absent or None is none.
pub record MigratedPort : Type 0 where
  pub id : Option String
  pub binding_host_id : Option String
  pub vif_details : Option (Dict String)
  pub device_id : Option String
  pub mac_address : Option String

-- The arguments of the agent's handler port_update; only whether the context is true is read.
pub record UpdateArgs : Type 0 where
  pub context : Bool
  pub port : Option MigratedPort
  pub segmentation_id : ℕ

-- What the migration uses of its target and the configuration: the search for a switch by id
-- gives its display name, and that for virtual machines the tags of each.
pub record MigrationTarget {ℓ} (W : Type ℓ) : Type ℓ where
  pub config : VsphereConfig
  pub vcenter : Vcenter W
  pub virtual_machine : VimType W Vm
  pub network : VimType W Network
  pub host : String
  pub get_switch_id_for_segmentation_id : ℕ → Exec W String
  pub get_switch : Option String → Exec W (Option (Option String))
  pub list_virtual_machines : String → Exec W (List (Option (List Tag)))

unfoldable pub scope_tags : List Tag → List String
scope_tags [] = []
scope_tags (tag ∷ tags) =
    let rest = scope_tags tags in if tag.scope == migration_scope then tag.tag ∷ rest else rest

unfoldable pub vm_tags : List (Option (List Tag)) → Result (List String)
unfolding scope_tags
vm_tags [] = ok []
vm_tags (none ∷ []) = ok []
vm_tags (some tags ∷ []) = ok (scope_tags tags)
vm_tags (vm ∷ vm' ∷ vms) = raise ambiguous

-- `if 'binding:host_id' in port: if not host == …: return`
abbrev pub is_assigned : String → Option String → Bool
is_assigned host none = true
is_assigned host (some binding_host_id) = host == binding_host_id

-- `isinstance(vim_net, vim.OpaqueNetwork)`; None is of no type.
unfoldable pub opaque_network : Option Network → Result Network
opaque_network none = raise other_network_type
opaque_network (some net) = elim net.summary [
  | none ↦ raise other_network_type
  | some summary ↦ ok net
]

abbrev pub migrated_nic : MigratedPort → Nic → Nic
migrated_nic port nic = record nic { external_id = port.id; connected = true }

-- The method that decorates a handler of the agent: of their names, the class has this one.
abbrev pub has_override : String → Bool
has_override func_name = func_name == "port_update"

module _ {ℓ} {W : Type ℓ} (target : MigrationTarget W) where
  unfoldable pub _get_port_tags : MigratedPort → String → Exec W (List String)
  unfolding vm_tags
  _get_port_tags port scope = elim port.device_id [
    | none ↦ pure []
    | some device_id ↦
        if device_id == ""
        then pure []
        else target.list_virtual_machines device_id >>= λ vms. lift (vm_tags vms)
  ]

  abbrev pub find_object {κ} :
      {Obj : Type κ} → VimType W Obj → Option String → Exec (VsphereState W) (Option Obj)
  find_object vimtype name = get_managed_object target.config target.vcenter vimtype name

  abbrev pub attach : Vm → Nic → Network → Exec (VsphereState W) (Unit {0})
  attach vm nic net = attach_vm_to_network target.config target.vcenter vm nic net

  -- From the search for the switch's network on
  unfoldable pub attach_nic : Option Vm → Nic → Option String → Exec (VsphereState W) (Unit {0})
  unfolding opaque_network
  attach_nic vim_vm vim_nic display_name = find_object target.network display_name >>= λ vim_net.
      lift (opaque_network vim_net) >>= λ net.
      lift (from_option attribute_error vim_vm) >>= λ vm. attach vm vim_nic net

  unfoldable pub migrate_nic :
      MigratedPort → Option Vm → Option String → Option Nic → Exec (VsphereState W) (Unit {0})
  unfolding attach_nic
  migrate_nic port vim_vm nsx_ls_id none = throw attribute_error
  migrate_nic port vim_vm nsx_ls_id (some nic) = remote (target.get_switch nsx_ls_id) >>= λ nsx_ls.
      lift (from_option attribute_error nsx_ls) >>= λ display_name.
      attach_nic vim_vm (migrated_nic port nic) display_name

  -- From the lookup of the virtual machine on
  unfoldable pub migrate_vm : MigratedPort → Option String → Exec (VsphereState W) (Unit {0})
  unfolding migrate_nic
  migrate_vm port nsx_ls_id = find_object target.virtual_machine port.device_id >>= λ vim_vm.
      get_vm_nic_by_mac target.config target.vcenter vim_vm port.mac_address >>= λ vim_nic.
      migrate_nic port vim_vm nsx_ls_id vim_nic

  unfoldable pub _migrate_port : Option MigratedPort → ℕ → Exec (VsphereState W) (Unit {0})
  unfolding migrate_vm
  _migrate_port none segmentation_id = throw type_error
  _migrate_port (some port) segmentation_id =
      if is_assigned target.host port.binding_host_id
      then (remote (target.get_switch_id_for_segmentation_id segmentation_id) >>= λ switch_id.
          lift (from_option attribute_error port.vif_details) >>= λ vif_details.
          migrate_vm port (lookup "nsx-logical-switch-id" vif_details))
      else pure tt

  module _ {κ} {A : Type κ} (func_name : String) (func : UpdateArgs → Exec (VsphereState W) A) where
    -- The except clause logs whatever the migration raises.
    unfoldable pub port_update : UpdateArgs → Exec (VsphereState W) A
    unfolding _migrate_port
    port_update args s =
        if args.context
        then func args ((_migrate_port args.port args.segmentation_id s).1)
        else func args s

    unfoldable pub decorate : UpdateArgs → Bool → Exec (VsphereState W) A
    unfolding port_update
    decorate args enabled =
        if enabled && has_override func_name then port_update args else func args

    unfoldable pub migrator : (Unit {0} → Bool) → UpdateArgs → Exec (VsphereState W) A
    unfolding decorate
    migrator is_migration_enabled_callback args = decorate args (is_migration_enabled_callback tt)
