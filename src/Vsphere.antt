-- ===== src/Vsphere.antt =====
-- VSphereClient and its decorator of
-- networking_nsxv3/plugins/ml2/drivers/nsxv3/agent/vsphere_client.py.
use networking_nsx_t.Base.{
  ℕ, String, Bool, true, false, ◌&&◌, Option, none, some, List, [], ◌∷◌, ◌==◌, if◌then◌else◌,
  is_substring,
}
use networking_nsx_t.Base.Exec.{
  Exception, not_authenticated, index_error, attribute_error, Result, ok, raise, Exec, pure, throw,
  lift, continue, ◌>>=◌, ◌>>◌,
}
pub mod Methods
pub mod Keeps
pub mod Filters
pub mod Lookup
pub mod Examples

-- The objects of pyVmomi: sessions, tasks and property filters are handles.
abbrev pub Session : Type 0
Session = ℕ

abbrev pub Task : Type 0
Task = ℕ

abbrev pub Filter : Type 0
Filter = ℕ

pub data TaskState : Type 0 where
  queued running success failed : TaskState

-- The value of a change: a TaskInfo, of which the state is read, a state, or anything else.
pub data Value : Type 0 where
  task_info : TaskState → Value
  task_state : TaskState → Value
  other_value : Value

pub record Change : Type 0 where
  pub name : String
  pub val : Value

pub record ObjectUpdate : Type 0 where
  pub obj : Task
  pub change_set : List Change

pub record Backing : Type 0 where
  pub opaque_network_type : String
  pub opaque_network_id : String

-- A VirtualEthernetCard. `backing` is none where it is not that of an opaque network.
pub record Nic : Type 0 where
  pub key : ℕ
  pub external_id : Option String
  pub mac_address : String
  pub backing : Option Backing
  pub wake_on_lan_enabled : Bool
  pub connected : Bool

pub data Device : Type 0 where
  ethernet_card : Nic → Device
  other_device : Device

pub record Vm : Type 0 where
  pub moid : String
  pub device : List Device

-- A network; only an OpaqueNetwork has the summary that names it.
pub record Network : Type 0 where
  pub moid : String
  pub summary : Option Backing

-- A type of managed objects: the view of all of them in the order of the server, and the name of
-- one, or none where reading it raises.
pub record VimType {ℓ κ} (W : Type ℓ) (Obj : Type κ) : Type (ℓ ⊔ κ) where
  pub view : Session → Exec W (List Obj)
  pub name : Obj → Option String

-- `verify_mode = ssl.CERT_NONE`, on a context
pub data SslContext : Type 0 where
  cert_none : SslContext

pub record ConnectArgs : Type 0 where
  pub host : String
  pub user : String
  pub pwd : String
  pub ssl_context : Option SslContext

pub record VsphereConfig : Type 0 where
  pub vsphere_suppress_ssl_wornings : Bool
  pub vsphere_login_hostname : String
  pub vsphere_login_username : String
  pub vsphere_login_password : String

-- What pyVim and pyVmomi do
pub record Vcenter {ℓ} (W : Type ℓ) : Type ℓ where
  pub smart_connect : ConnectArgs → Exec W Session
  pub create_filter : Session → Task → Exec W (Option Filter)
  pub wait_for_updates : Session → Exec W (List (List ObjectUpdate))
  pub destroy : Filter → Exec W (Unit {0})
  pub task_error : Task → Exec W Exception
  pub reconfig_vm_task : Vm → Nic → Exec W Task

-- The client beside the world it works on
pub record VsphereState {ℓ} (W : Type ℓ) : Type ℓ where
  pub connection : Option Session
  pub world : W

-- `if name in o.name: return o`; an object of which the name cannot be read is passed over, and so
-- is each where `name` is None.
abbrev pub is_named : Option String → Option String → Bool
is_named none _ = false
is_named (some name) none = false
is_named (some name) (some object_name) = is_substring name object_name

-- The loop over the view
unfoldable pub first_named {ℓ} :
    {Obj : Type ℓ} → (Obj → Option String) → Option String → List Obj → Option Obj
first_named name_of name [] = none
first_named name_of name (o ∷ objs) =
    let rest = first_named name_of name objs in if is_named name (name_of o) then some o else rest

abbrev is_mac : Option String → String → Bool
is_mac none mac = false
is_mac (some mac_address) mac = mac == mac_address

abbrev pub has_mac : Option String → Nic → Bool
has_mac mac_address nic = is_mac mac_address nic.mac_address

unfoldable pub first_nic : Option String → List Device → Option Nic
first_nic mac_address [] = none
first_nic mac_address (other_device ∷ devices) = first_nic mac_address devices
first_nic mac_address (ethernet_card nic ∷ devices) =
    let rest = first_nic mac_address devices in if has_mac mac_address nic then some nic else rest

-- The state that a change tells, or none where the loop continues
unfoldable pub state_of : Change → Result (Option TaskState)
state_of change =
    if change.name == "info"
    then elim change.val [ task_info state ↦ ok (some state) | _ ↦ raise attribute_error ]
    else if change.name == "info.state"
    then elim change.val [ task_state state ↦ ok (some state) | _ ↦ ok none ]
    else ok none

-- `filterSet[0].objectSet[0]`
unfoldable pub first_update : List (List ObjectUpdate) → Result ObjectUpdate
first_update [] = raise index_error
first_update ([] ∷ sets) = raise index_error
first_update ((update ∷ updates) ∷ sets) = ok update

-- The device of the specification is the object of the caller, so the caller's is edited too.
unfoldable pub edited_nic : Nic → Backing → Nic
edited_nic nic backing = record nic { backing = some backing }

-- A `finally` clause: what it raises is raised in place of the outcome.
abbrev pub after_finally {ℓ κ} :
    {S : Type ℓ} {A : Type κ} → Result A → Result (Unit {0}) × S → Result A × S
after_finally r (ok u, s) = (r, s)
after_finally r (raise e, s) = (raise e, s)

abbrev pub finally {ℓ κ} :
    {S : Type ℓ} {A : Type κ} → Result A × S → Exec S (Unit {0}) → Result A × S
finally (r, s) clause = after_finally r (clause s)

abbrev pub is_not_authenticated : Exception → Bool
is_not_authenticated not_authenticated = true
is_not_authenticated _ = false
