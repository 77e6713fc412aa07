-- ===== src/SecurityGroups/GroupExamples.antt =====
-- A group with the tag for tcp_strict and two members.
use networking_nsx_t.Base.{◌≡◌, refl, String, true, false, some, List, [], ◌∷◌}
use networking_nsx_t.Base.Exec.{ok}
use networking_nsx_t.SecurityGroups.Sections.{IpSet}
use networking_nsx_t.SecurityGroups.Groups.{
  FirewallSection, GroupsApi, get_or_create_security_group, security_group_updated,
}
use networking_nsx_t.SecurityGroups.Handlers.{security_group_updated-tcp_strict}

record Server : Type 0 where
  ipset : IpSet
  section : FirewallSection

abbrev ipset_with : List String → IpSet
ipset_with ips = record { id = "ips"; ip_addresses = ips; tags = [] }

abbrev section : FirewallSection
section = record { id = "sec"; display_name = "group"; tcp_strict = true }

abbrev server : List String → FirewallSection → Server
server ips sec = record { ipset = ipset_with ips; section = sec }

abbrev api : GroupsApi Server
api = record {
  create_ipset = λ name w. (ok w.ipset, w);
  create_nsgroup = λ name w. (ok "nsg", w);
  create_section = λ name w. (ok w.section, w);
  delete_section = λ name w. (ok tt, w);
  delete_ipset = λ name w. (ok tt, w);
  delete_nsgroup = λ name w. (ok tt, w);
  get_ipset = λ name w. (ok (some w.ipset), w);
  update_ipset = λ ips w. (ok tt, record w { ipset = ips });
  get_section = λ name w. (ok (some w.section), w);
  update_section = λ sec w. (ok tt, record w { section = sec });
  has_security_group_tag = λ name tag w. (ok true, w);
  get_members_ips = λ name w. (ok ("10.0.0.1" ∷ []), w);
  get_address_bindings_ips = λ name w. (ok ("10.0.0.2" ∷ []), w);
  iter_cidrs = λ ips. ok ips;
}

security_group_updated-tcp_strict_example :
    security_group_updated api "group" (server [] section)
    ≡ (ok tt, server [] (record { id = "sec"; display_name = "group"; tcp_strict = false }))
unfolding get_or_create_security_group
security_group_updated-tcp_strict_example =
    security_group_updated-tcp_strict api "group" (ipset_with []) "nsg" section section true
      (server [] section) (server [] section) (server [] section) (server [] section) refl refl refl
