-- ===== src/SecurityGroups/Groups.antt =====
-- The operations on security groups besides the rules: get_or_create_security_group,
-- delete_security_group, update_security_group_members and update_security_group_capabilities of
-- networking_nsxv3/plugins/ml2/drivers/nsxv3/agent/nsxv3_facada.py, and their callers
-- in nsxv3_agent.py beside it.
use networking_nsx_t.Base.{String, Bool, true, false, Option, List, [], ◌∷◌, ◌++◌, ◌==◌, any_of}
use networking_nsx_t.Base.Exec.{attribute_error, Result, Exec, pure, lift, from_option, ◌>>=◌, ◌>>◌}
use networking_nsx_t.SecurityGroups.Sections.{IpSet}

-- A firewall section; the other fields of a new one are constants.
pub record FirewallSection : Type 0 where
  pub id : String
  pub display_name : String
  pub tcp_strict : Bool

-- A value of Python that a list of capabilities may have
pub data Value : Type 0 where
  text : String → Value
  boolean : Bool → Value

abbrev pub capability_tcp_strict : String
capability_tcp_strict = "capability_tcp_strict"

-- `NSXV3_CAPABILITY_TCP_STRICT in capabilities`
unfoldable pub is_tcp_strict : Value → Bool
is_tcp_strict (text s) = s == capability_tcp_strict
is_tcp_strict (boolean b) = false

unfoldable pub has_tcp_strict : List Value → Bool
unfolding is_tcp_strict
has_tcp_strict capabilities = any_of is_tcp_strict capabilities

-- `create`, `get`, `update` and `delete` of the client by the name of the group, the questions to
-- Neutron, and netaddr: `iter_cidrs` is the list of the networks of an IPSet of addresses.
pub record GroupsApi {ℓ} (W : Type ℓ) : Type ℓ where
  pub create_ipset : String → Exec W IpSet
  pub create_nsgroup : String → Exec W String
  pub create_section : String → Exec W FirewallSection
  pub delete_section : String → Exec W (Unit {0})
  pub delete_ipset : String → Exec W (Unit {0})
  pub delete_nsgroup : String → Exec W (Unit {0})
  pub get_ipset : String → Exec W (Option IpSet)
  pub update_ipset : IpSet → Exec W (Unit {0})
  pub get_section : String → Exec W (Option FirewallSection)
  pub update_section : FirewallSection → Exec W (Unit {0})
  pub has_security_group_tag : String → String → Exec W Bool
  pub get_members_ips : String → Exec W (List String)
  pub get_address_bindings_ips : String → Exec W (List String)
  pub iter_cidrs : List String → Result (List String)

module _ {ℓ} {W : Type ℓ} (api : GroupsApi W) where
  unfoldable pub get_or_create_security_group : String → Exec W (IpSet × String × FirewallSection)
  get_or_create_security_group id = api.create_ipset id >>= λ ipset.
      api.create_nsgroup id >>= λ nsg. api.create_section id >>= λ sec. pure (ipset, nsg, sec)

  unfoldable pub delete_security_group : String → Exec W Bool
  delete_security_group id =
      api.delete_section id >> api.delete_ipset id >> api.delete_nsgroup id >> pure true

  unfoldable pub update_security_group_members : String → List String → Exec W (Unit {0})
  update_security_group_members id member_cidrs = api.get_ipset id >>= λ found.
      lift (from_option attribute_error found) >>= λ ips.
      api.update_ipset (record ips { ip_addresses = member_cidrs })

  unfoldable pub update_security_group_capabilities : String → List Value → Exec W (Unit {0})
  unfolding has_tcp_strict
  update_security_group_capabilities id capabilities = api.get_section id >>= λ found.
      lift (from_option attribute_error found) >>= λ fs.
      api.update_section (record fs { tcp_strict = has_tcp_strict capabilities })

  -- The handlers of the agent; each holds the group's lock while it runs.
  unfoldable pub security_group_updated : String → Exec W (Unit {0})
  security_group_updated id =
      get_or_create_security_group id
      >> api.has_security_group_tag id capability_tcp_strict
      >>= λ tcp_strict_enabled.
          update_security_group_capabilities id (boolean tcp_strict_enabled ∷ [])

  unfoldable pub security_group_member_updated : String → Exec W (Unit {0})
  security_group_member_updated id =
      get_or_create_security_group id >> api.get_members_ips id >>= λ ip1.
      api.get_address_bindings_ips id >>= λ ip2.
      lift (api.iter_cidrs (ip1 ++ ip2)) >>= λ members. update_security_group_members id members

  unfoldable pub security_group_delete : String → Exec W Bool
  security_group_delete id = delete_security_group id
