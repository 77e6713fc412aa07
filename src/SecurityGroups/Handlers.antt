-- ===== src/SecurityGroups/Handlers.antt =====
-- What the handlers of a security group write.
use networking_nsx_t.Base.{◌≡◌, String, Bool, false, some, List, ◌++◌}
use networking_nsx_t.Base.Exec.{ok}
use networking_nsx_t.SecurityGroups.Sections.{IpSet}
use networking_nsx_t.SecurityGroups.Groups.{
  FirewallSection, GroupsApi, has_tcp_strict, is_tcp_strict, capability_tcp_strict,
  get_or_create_security_group, update_security_group_capabilities, update_security_group_members,
  security_group_updated, security_group_member_updated,
}

module _ {ℓ} {W : Type ℓ} (api : GroupsApi W) (id : String) where
  -- The update of a group writes its section with tcp_strict off, whether Neutron has the tag for
  -- it or not, if the group's objects, the answer and the section are got.
  pub security_group_updated-tcp_strict :
      (ipset : IpSet) (nsg : String) (sec fs : FirewallSection) (tag : Bool) (w w₁ w₂ w₃ : W)
      → get_or_create_security_group api id w ≡ (ok (ipset, nsg, sec), w₁)
      → api.has_security_group_tag id capability_tcp_strict w₁ ≡ (ok tag, w₂)
      → api.get_section id w₂ ≡ (ok (some fs), w₃)
      → security_group_updated api id w
        ≡ api.update_section
            (record { id = fs.id; display_name = fs.display_name; tcp_strict = false })
            w₃
  unfolding security_group_updated update_security_group_capabilities has_tcp_strict is_tcp_strict
  security_group_updated-tcp_strict ipset nsg sec fs tag w w₁ w₂ w₃ group asked section =
      rw (group, asked, section)

  -- The update of a group's members writes its IPSet once, with the networks of all addresses and
  -- address bindings of the members and with the tags that it had, so that the group's revision
  -- stays as it was.
  pub security_group_member_updated-members :
      (ipset ips : IpSet) (nsg : String) (sec : FirewallSection) (ip1 ip2 members : List String)
      (w w₁ w₂ w₃ w₄ : W)
      → get_or_create_security_group api id w ≡ (ok (ipset, nsg, sec), w₁)
      → api.get_members_ips id w₁ ≡ (ok ip1, w₂)
      → api.get_address_bindings_ips id w₂ ≡ (ok ip2, w₃)
      → api.iter_cidrs (ip1 ++ ip2) ≡ ok members
      → api.get_ipset id w₃ ≡ (ok (some ips), w₄)
      → security_group_member_updated api id w
        ≡ api.update_ipset (record { id = ips.id; ip_addresses = members; tags = ips.tags }) w₄
  unfolding security_group_member_updated update_security_group_members
  security_group_member_updated-members ipset ips nsg sec ip1 ip2 members w w₁ w₂ w₃ w₄ group a b
        cidrs found =
      rw (group, a, b, cidrs, found)
