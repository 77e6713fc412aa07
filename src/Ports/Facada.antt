-- ===== src/Ports/Facada.antt =====
-- NSXv3Facada.port_update and port_delete of
-- networking_nsxv3/plugins/ml2/drivers/nsxv3/agent/nsxv3_facada.py.
use networking_nsx_t.Base.{
  ℕ, String, Option, none, some, List, [], ◌∷◌, ◌++◌, map, ◌==◌, if◌then◌else◌, str, is_substring,
}
use networking_nsx_t.Base.Exec.{not_found, Exec, pure, throw, ◌>>=◌}
use networking_nsx_t.Inventory.{Tag, revision_scope, agent_scope}

abbrev pub security_group_scope : String
security_group_scope = "security_group"

-- An entry of switching_profile_ids: the key is that of the profile's type, and the value its id,
-- which may be None.
pub record ProfileId : Type 0 where
  pub key : String
  pub value : Option String

pub record Binding : Type 0 where
  pub ip_address : String
  pub mac_address : String

pub record LogicalPort : Type 0 where
  pub id : String
  pub tags : List Tag
  pub switching_profile_ids : List ProfileId
  pub address_bindings : List Binding

-- The client's operations at the types that the methods use, and the attributes of the facada;
-- `qos_key` is the SDK's KEY_QOSSWITCHINGPROFILE.
-- `get_port` is the search by attachment id, repeated until it finds the port.
pub record PortsApi {ℓ} (W : Type ℓ) : Type ℓ where
  pub agent_id : String
  pub qos_key : String
  pub default_switching_profile_ids : List ProfileId
  pub get_port : String → Exec W (Option LogicalPort)
  pub get_qos : String → Exec W (Option (Option String))
  pub update_port : LogicalPort → Exec W (Unit {0})
  pub delete_port : LogicalPort → Exec W (Unit {0})

-- The loop over the address bindings: one with a "/" in the address is passed over.
unfoldable pub bindings_of : List (String × String) → List Binding
bindings_of [] = []
bindings_of ((ip, mac) ∷ bindings) =
    let rest = bindings_of bindings in
    if is_substring "/" ip then rest else record { ip_address = ip; mac_address = mac } ∷ rest

module _ {ℓ} {W : Type ℓ} (api : PortsApi W) where
  abbrev pub tags_of : ℕ → List String → List Tag
  tags_of revision security_groups_ids =
      map (λ id. record { scope = security_group_scope; tag = id }) security_groups_ids
      ++ record { scope = revision_scope; tag = str revision }
        ∷ record { scope = agent_scope; tag = api.agent_id }
        ∷ []

  -- `if qos:` after the search for the profile, which gives its id
  abbrev pub profiles_with : Option (Option String) → List ProfileId
  profiles_with none = api.default_switching_profile_ids
  profiles_with (some id) =
      api.default_switching_profile_ids ++ record { key = api.qos_key; value = id } ∷ []

  -- `if qos_name: qos = self.get(…)`
  unfoldable pub find_qos : Option String → Exec W (Option (Option String))
  find_qos none = pure none
  find_qos (some name) = if name == "" then pure none else api.get_qos name

  abbrev pub write_port :
      ℕ
      → List String
      → List (String × String)
      → LogicalPort
      → Option (Option String)
      → Exec W (Unit {0})
  write_port revision security_groups_ids address_bindings lp qos = api.update_port (record lp {
    tags = tags_of revision security_groups_ids;
    switching_profile_ids = profiles_with qos;
    address_bindings = bindings_of address_bindings;
  })

  abbrev pub update_found :
      ℕ
      → List String
      → List (String × String)
      → Option String
      → Option LogicalPort
      → Exec W (Unit {0})
  update_found revision security_groups_ids address_bindings qos_name none = throw not_found
  update_found revision security_groups_ids address_bindings qos_name (some lp) =
      find_qos qos_name >>= write_port revision security_groups_ids address_bindings lp

  unfoldable pub port_update :
      String → ℕ → List String → List (String × String) → Option String → Exec W (Unit {0})
  port_update attachment_id revision security_groups_ids address_bindings qos_name =
      api.get_port attachment_id
      >>= update_found revision security_groups_ids address_bindings qos_name

  -- A port that is not found is only logged.
  abbrev pub delete_found : Option LogicalPort → Exec W (Unit {0})
  delete_found none = pure tt
  delete_found (some lp) = api.delete_port lp

  unfoldable pub port_delete : String → Exec W (Unit {0})
  port_delete attachment_id = api.get_port attachment_id >>= delete_found
