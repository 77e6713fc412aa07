-- ===== src/Database/Examples.antt =====
-- A small Neutron database, and the theorems on the queries at it.
use networking_nsx_t.Base.{
  ℕ, String, true, false, Bool, some, List, [], ◌∷◌, ◌≡◌, refl, ◌==◌, any_of,
}
use networking_nsx_t.Base.Exec.{not_found, multiple_results, ok, raise}
use networking_nsx_t.SecurityGroups.Sections.{IpSet}
use networking_nsx_t.SecurityGroups.Groups.{
  FirewallSection, GroupsApi, get_or_create_security_group, update_security_group_members,
  security_group_member_updated,
}
use networking_nsx_t.Database.{
  Port, Database, join, join_row, outer_join, outer_row, one_or_none, _validate_one,
}
use networking_nsx_t.Database.Queries.{
  port_rows, get_port, has_security_group_tag, get_security_group_revision, get_qos,
  get_port_security_groups, get_port_allowed_pairs, get_port_addresses,
  _get_port_id_by_sec_group_id, get_security_group_members_ips,
  get_security_group_members_address_bindings_ips,
}
use networking_nsx_t.Database.Keys.{find}
use networking_nsx_t.Database.Lookups.{HasUniqueKeys, with_port, get_port-with_port}
use networking_nsx_t.Database.Members.{is_member_address, security_group_member_updated-database}

abbrev port_row : String → ℕ → Port
port_row id attr = record {
  id = id;
  mac_address = "fa:16";
  admin_state_up = true;
  status = "ACTIVE";
  standard_attr_id = attr;
}

abbrev pub db : Database
db = record {
  standard_attributes =
      record { id = 1; revision_number = 5; created_at = 100 }
      ∷ record { id = 2; revision_number = 6; created_at = 200 }
      ∷ record { id = 3; revision_number = 7; created_at = 300 }
      ∷ [];
  ports = port_row "p-1" 1 ∷ port_row "p-2" 2 ∷ [];
  port_bindings =
      record { port_id = "p-1"; host = "h-1"; vif_details = "{}" }
      ∷ record { port_id = "p-2"; host = "h-1"; vif_details = "{}" }
      ∷ record { port_id = "p-2"; host = "h-2"; vif_details = "{}" }
      ∷ [];
  port_binding_levels = record { port_id = "p-1"; host = "h-1"; driver = "nsxv3" } ∷ [];
  qos_port_policy_bindings = record { port_id = "p-1"; policy_id = "q-1" } ∷ [];
  qos_policies = record { id = "q-1"; name = "gold"; standard_attr_id = 3 } ∷ [];
  bandwidth_limit_rules =
      record { qos_policy_id = "q-1"; direction = "ingress"; max_kbps = 4096; max_burst_kbps = 16 }
      ∷ [];
  dscp_marking_rules = record { qos_policy_id = "q-1"; dscp_mark = 7 } ∷ [];
  security_groups = record { id = "g-1"; standard_attr_id = 3 } ∷ [];
  tags = record { standard_attr_id = 3; tag = "capability_tcp_strict" } ∷ [];
  security_group_port_bindings =
      record { port_id = "p-1"; security_group_id = "g-1" }
      ∷ record { port_id = "p-2"; security_group_id = "g-2" }
      ∷ [];
  allowed_address_pairs =
      record { port_id = "p-1"; ip_address = "10.0.0.9"; mac_address = "fa:17" } ∷ [];
  ip_allocations =
      record { port_id = "p-1"; ip_address = "10.0.0.1"; subnet_id = "s-1" }
      ∷ record { port_id = "p-2"; ip_address = "10.0.0.2"; subnet_id = "s-1" }
      ∷ [];
  security_group_rules = [];
}

keys : HasUniqueKeys db
keys = record { ports = refl; attributes = refl; policy_bindings = refl; policies = refl }

-- Test: a port with a policy, one with two bindings, and one that is missing
bound_port :
    get_port db "p-1"
    ≡ ok (record {
      id = "p-1";
      mac_address = "fa:16";
      admin_state_up = true;
      status = "ACTIVE";
      qos_policy_id = some "q-1";
      revision_number = 5;
      host = "h-1";
      vif_details = "{}";
    })
unfolding get_port port_rows join join_row outer_join outer_row one_or_none _validate_one
bound_port = refl

migrating_port : get_port db "p-2" ≡ raise multiple_results
unfolding get_port port_rows join join_row outer_join outer_row one_or_none _validate_one
migrating_port = refl

missing_port : get_port db "p-3" ≡ raise not_found
unfolding get_port port_rows join join_row outer_join outer_row one_or_none _validate_one
missing_port = refl

get_port-with_port_example :
    get_port db "p-1" ≡ with_port db (find (λ port. port.id == "p-1") db.ports)
get_port-with_port_example = get_port-with_port db keys "p-1"

tagged : has_security_group_tag db "g-1" "capability_tcp_strict" ≡ true
unfolding has_security_group_tag join join_row
tagged = refl

revisions :
    (get_security_group_revision db "g-1" ≡ ok ("g-1", 7)) × (get_qos db "q-1" ≡ ok ("gold", 7))
unfolding get_security_group_revision get_qos join join_row one_or_none _validate_one
revisions = (refl, refl)

of_port :
    (get_port_security_groups db "p-1" ≡ "g-1" ∷ [])
    × (get_port_allowed_pairs db "p-1" ≡ ("10.0.0.9", "fa:17") ∷ [])
    × (get_port_addresses db "p-2" ≡ ("10.0.0.2", "s-1") ∷ [])
    × (_get_port_id_by_sec_group_id db "g-2" ≡ "p-2" ∷ [])
unfolding get_port_security_groups get_port_allowed_pairs get_port_addresses
    _get_port_id_by_sec_group_id
of_port = (refl, refl, refl, refl)

-- A server that keeps the addresses of one IPSet, which networks are addresses
abbrev ipset : List String → IpSet
ipset ips = record { id = "i-1"; ip_addresses = ips; tags = [] }

abbrev section : FirewallSection
section = record { id = "f-1"; display_name = "g-1"; tcp_strict = false }

abbrev api : GroupsApi IpSet
api = record {
  create_ipset = λ id w. (ok w, w);
  create_nsgroup = λ id w. (ok "n-1", w);
  create_section = λ id w. (ok section, w);
  delete_section = λ id w. (ok tt, w);
  delete_ipset = λ id w. (ok tt, w);
  delete_nsgroup = λ id w. (ok tt, w);
  get_ipset = λ id w. (ok (some w), w);
  update_ipset = λ ips w. (ok tt, ips);
  get_section = λ id w. (ok (some section), w);
  update_section = λ s w. (ok tt, w);
  has_security_group_tag = λ id tag w. (ok false, w);
  get_members_ips = λ id w. (ok (get_security_group_members_ips db id), w);
  get_address_bindings_ips =
      λ id w. (ok (get_security_group_members_address_bindings_ips db id), w);
  iter_cidrs = λ ips. ok ips;
}

-- Test: the addresses of the group's port, and not of the other
members :
    security_group_member_updated api "g-1" (ipset [])
    ≡ (ok tt, ipset ("10.0.0.1" ∷ "10.0.0.9" ∷ []))
unfolding security_group_member_updated get_or_create_security_group get_security_group_members_ips
    get_security_group_members_address_bindings_ips update_security_group_members join join_row
members = refl

abbrev contains : String → String → Bool
contains c address = c == address

security_group_member_updated-database_example :
    (all : List String) × (security_group_member_updated api "g-1" (ipset [])
      ≡ api.update_ipset (record { id = "i-1"; ip_addresses = all; tags = [] }) (ipset []))
    × ((address : String)
        → any_of (λ c. contains c address) all
          ≡ is_member_address db "g-1" (λ c. contains c address))
unfolding get_or_create_security_group
security_group_member_updated-database_example =
    security_group_member_updated-database api db (λ ips. ips) contains (λ id w. refl)
      (λ id w. refl) (λ ips. refl) (λ ips address. refl) "g-1" (ipset []) (ipset []) "n-1" section
      (ipset []) (ipset []) (ipset []) refl refl
