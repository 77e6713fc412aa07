-- ===== src/Database/Members.antt =====
-- The addresses of a security group's members, by the tables.
use networking_nsx_t.Base.{
  String, Bool, ◌&&◌, ◌||◌, some, List, [], ◌∷◌, ◌++◌, map, ◌≡◌, refl, ◌∙◌, arith, ◌==◌, keep,
  any_of,
}
use networking_nsx_t.Base.Exec.{ok}
use networking_nsx_t.SecurityGroups.Sections.{IpSet}
use networking_nsx_t.SecurityGroups.Groups.{
  FirewallSection, GroupsApi, get_or_create_security_group, security_group_member_updated,
}
use networking_nsx_t.SecurityGroups.Handlers.{security_group_member_updated-members}
use networking_nsx_t.Database.{Database, SecurityGroupPortBinding, join, join_row}
use networking_nsx_t.Database.Queries.{
  get_security_group_members_ips, get_security_group_members_address_bindings_ips,
}

-- A binding of the port to the group
abbrev pub binds : String → String → SecurityGroupPortBinding → Bool
binds group port b = (port == b.port_id) && (group == b.security_group_id)

-- An address that is selected through a join with the bindings: one of a row whose port has a
-- binding to the group.
module _ {ℓ} {A : Type ℓ} (port_id ip_of : A → String) (group : String) (p : String → Bool) where
  abbrev selected : List (A × SecurityGroupPortBinding) → List String
  selected rows = map (λ r. ip_of (r.0)) (keep (λ r. group == r.1.security_group_id) rows)

  selected-append :
      (rows rest : List (A × SecurityGroupPortBinding))
      → any_of p (selected (rows ++ rest)) ≡ (any_of p (selected rows) || any_of p (selected rest))
  selected-append [] rest = refl
  selected-append (r ∷ rows) rest = ground (arith, selected-append rows rest)

  selected-row :
      (a : A) (bindings : List SecurityGroupPortBinding)
      → any_of p (selected (join_row a (keep (λ b. port_id a == b.port_id) bindings)))
        ≡ (p (ip_of a) && any_of (binds group (port_id a)) bindings)
  unfolding join_row
  selected-row a [] = ground arith
  selected-row a (b ∷ bindings) = ground (arith, selected-row a bindings)

  pub selected-join :
      (rows : List A) (bindings : List SecurityGroupPortBinding)
      → any_of p (selected (join (λ a b. port_id a == b.port_id) rows bindings))
        ≡ any_of (λ a. p (ip_of a) && any_of (binds group (port_id a)) bindings) rows
  unfolding join
  selected-join [] bindings = refl
  selected-join (a ∷ rows) bindings = ground (
    arith,
    selected-append (join_row a (keep (λ b. port_id a == b.port_id) bindings))
        (join (λ a b. port_id a == b.port_id) rows bindings),
    selected-row a bindings,
    selected-join rows bindings,
  )

module _ (db : Database) (group : String) (p : String → Bool) where
  -- A test holds of an address of the members exactly if it holds of one that is allocated to a
  -- port with a binding to the group.
  pub get_security_group_members_ips-any_of :
      any_of p (get_security_group_members_ips db group)
      ≡ any_of
          (λ a. p a.ip_address && any_of (binds group a.port_id) db.security_group_port_bindings)
          db.ip_allocations
  unfolding get_security_group_members_ips
  get_security_group_members_ips-any_of =
      selected-join (λ a. a.port_id) (λ a. a.ip_address) group p db.ip_allocations
        db.security_group_port_bindings

  pub get_security_group_members_address_bindings_ips-any_of :
      any_of p (get_security_group_members_address_bindings_ips db group)
      ≡ any_of
          (λ q. p q.ip_address && any_of (binds group q.port_id) db.security_group_port_bindings)
          db.allowed_address_pairs
  unfolding get_security_group_members_address_bindings_ips
  get_security_group_members_address_bindings_ips-any_of =
      selected-join (λ q. q.port_id) (λ q. q.ip_address) group p db.allowed_address_pairs
        db.security_group_port_bindings

any_of-append :
    (p : String → Bool) (xs ys : List String) → any_of p (xs ++ ys) ≡ (any_of p xs || any_of p ys)
any_of-append p [] ys = refl
any_of-append p (x ∷ xs) ys = ground (arith, any_of-append p xs ys)

-- Whether the tables have an address for the group that passes the test: one that is allocated to
-- a port of the group, or one of the allowed pairs of such a port
abbrev pub is_member_address : Database → String → (String → Bool) → Bool
is_member_address db group p =
    any_of (λ a. p a.ip_address && any_of (binds group a.port_id) db.security_group_port_bindings)
      db.ip_allocations
    || any_of
        (λ q. p q.ip_address && any_of (binds group q.port_id) db.security_group_port_bindings)
        db.allowed_address_pairs

module _ {ℓ} {W : Type ℓ} (api : GroupsApi W) (db : Database) (cidrs : List String → List String)
    (contains : String → String → Bool)
    (asked : (group : String) (w : W)
      → api.get_members_ips group w ≡ (ok (get_security_group_members_ips db group), w))
    (asked_pairs : (group : String) (w : W)
      → api.get_address_bindings_ips group w
        ≡ (ok (get_security_group_members_address_bindings_ips db group), w))
    (nets : (ips : List String) → api.iter_cidrs ips ≡ ok (cidrs ips))
    (covers : (ips : List String) (address : String)
      → any_of (λ c. contains c address) (cidrs ips) ≡ any_of (λ c. contains c address) ips) where
  -- The update of a group's members over the database. Where Neutron answers by the tables, and
  -- the networks of netaddr contain the addresses that their inputs contain, the handler writes
  -- the group's IPSet once, with its tags, and with networks that contain an address exactly if it
  -- is in an address that is allocated to a port bound to the group, or in an allowed pair of one.
  pub security_group_member_updated-database :
      (group : String) (ipset ips : IpSet) (nsg : String) (sec : FirewallSection) (w w₁ w₂ : W)
      → get_or_create_security_group api group w ≡ (ok (ipset, nsg, sec), w₁)
      → api.get_ipset group w₁ ≡ (ok (some ips), w₂)
      → (members : List String) × (security_group_member_updated api group w
          ≡ api.update_ipset (record { id = ips.id; ip_addresses = members; tags = ips.tags }) w₂)
        × ((address : String)
            → any_of (λ c. contains c address) members
              ≡ is_member_address db group (λ c. contains c address))
  security_group_member_updated-database group ipset ips nsg sec w w₁ w₂ created found =
      let ip1 = get_security_group_members_ips db group in
      let ip2 = get_security_group_members_address_bindings_ips db group in
      (
        cidrs (ip1 ++ ip2),
        security_group_member_updated-members api group ipset ips nsg sec ip1 ip2
            (cidrs (ip1 ++ ip2)) w w₁ w₁ w₁ w₂ created (asked group w₁) (asked_pairs group w₁)
            (nets (ip1 ++ ip2)) found,
        λ address.
            covers (ip1 ++ ip2) address
            ∙ any_of-append (λ c. contains c address) ip1 ip2
            ∙ rw
                (
                  get_security_group_members_ips-any_of db group (λ c. contains c address),
                  get_security_group_members_address_bindings_ips-any_of db group
                      (λ c. contains c address),
                )
                refl,
      )
