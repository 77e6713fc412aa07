-- ===== src/Syncing/Ports.antt =====
-- The synchronization of a port, from the tables of Neutron to the port of NSX-T.
use mathlib.Core.List.{append-nil}
use networking_nsx_t.Base.{
  ℕ, String, Option, none, some, List, [], ◌∷◌, ◌++◌, map, keep, ◌≡◌, refl, sym, ◌∙◌, inl, inr,
  Bool-cases, true, ◌==◌, str, if◌then◌else◌,
}
use networking_nsx_t.Base.Exec.{Result, ok, Exec, continue}
use networking_nsx_t.Database.{Database, IpAllocation, PortDetails}
use networking_nsx_t.Inventory.{Tag}
use networking_nsx_t.Database.Queries.{
  get_port_security_groups as select_port_security_groups,
  get_port_allowed_pairs as select_port_allowed_pairs, get_port_addresses as select_port_addresses,
}
use networking_nsx_t.Database.Keys.{find}
use networking_nsx_t.Database.Lookups.{HasUniqueKeys, with_port, get_port-with_port}
use networking_nsx_t.Ports.Facada.{ProfileId, LogicalPort, PortsApi, profiles_with, find_qos}
use networking_nsx_t.Ports.Agent.{Settings}
use networking_nsx_t.Ports.Addresses.{is_single, binding}
use networking_nsx_t.Ports.Bindings.{agent_api, sync_port-written}
use networking_nsx_t.Rpc.{
  get_port, get_port_addresses, get_port_allowed_pairs, get_port_security_groups,
}
use networking_nsx_t.Rpc.Server.{Server}
use networking_nsx_t.Rpc.RoundTrip.{dispatch-request_of}
use networking_nsx_t.Syncing.{row_of_details, sync_port_by_id}

map-first :
    (rows : List IpAllocation)
    → map {A = String × String} (λ a. a.0) (map (λ a. (a.ip_address, a.subnet_id)) rows)
      ≡ map (λ a. a.ip_address) rows
map-first [] = refl
map-first (row ∷ rows) = rw (map-first rows)

-- The columns of the tables that belong to a port
module _ (db : Database) (port_id : String) where
  abbrev pub groups_of : List String
  groups_of =
      map (λ b. b.security_group_id)
        (keep (λ b. b.port_id == port_id) db.security_group_port_bindings)

  abbrev pub addresses_of : List String
  addresses_of = map (λ a. a.ip_address) (keep (λ a. a.port_id == port_id) db.ip_allocations)

  abbrev pub pairs_of : List (String × String)
  pairs_of =
      map (λ p. (p.ip_address, p.mac_address))
        (keep (λ p. p.port_id == port_id) db.allowed_address_pairs)

  first_columns :
      map {A = String × String} (λ a. a.0) (select_port_addresses db port_id) ≡ addresses_of
  unfolding select_port_addresses
  first_columns = map-first (keep (λ a. a.port_id == port_id) db.ip_allocations)

-- A tag for each group, the revision and the agent
abbrev pub port_tags : String → ℕ → List String → List Tag
port_tags agent_id revision groups =
    map (λ group. record { scope = "security_group"; tag = group }) groups
    ++ record { scope = "revision_number"; tag = str revision }
      ∷ record { scope = "agent_id"; tag = agent_id }
      ∷ []

-- The entry for the profile of a policy, where there is one
abbrev pub profile_entry : String → Option (Option String) → List ProfileId
profile_entry key none = []
profile_entry key (some id) = record { key = key; value = id } ∷ []

module _ {ℓ} {W : Type ℓ} (api : PortsApi W) where
  profiles-entry :
      (qos : Option (Option String))
      → profiles_with api qos ≡ api.default_switching_profile_ids ++ profile_entry api.qos_key qos
  profiles-entry none = sym (append-nil _)
  profiles-entry (some id) = refl

  -- The profile of a policy is looked for by its name, where there is one that is not empty.
  abbrev pub profile_of : Option String → Exec W (Option (Option String))
  profile_of none w = (ok none, w)
  profile_of (some name) w = if name == "" then (ok none, w) else api.get_qos name w

  find_qos-profile_of : (name : Option String) (w : W) → find_qos api name w ≡ profile_of name w
  unfolding find_qos
  find_qos-profile_of none w = refl
  find_qos-profile_of (some name) w = elim (Bool-cases (name == "")) [
    | inl empty ↦ rw empty
    | inr given ↦ rw given
  ]

module _ (server : Server) (strftime : ℕ → String)
    (read_back : (t : ℕ) → server.strptime (strftime t) ≡ ok t)
    (unique : HasUniqueKeys server.db) where
  -- The port that NSX-T gets for a port's row: a tag for each group that it is bound to, and a
  -- binding for each of its addresses and single allowed pairs
  abbrev pub logical_port {ℓ} :
      {W : Type ℓ} → PortsApi W → PortDetails → LogicalPort → Option (Option String) → LogicalPort
  logical_port api d lp qos = record {
    id = lp.id;
    tags = port_tags api.agent_id d.revision_number (groups_of server.db d.id);
    switching_profile_ids = api.default_switching_profile_ids ++ profile_entry api.qos_key qos;
    address_bindings = map binding (
        keep is_single (
          map (λ ip. (ip, d.mac_address)) (addresses_of server.db d.id)
          ++ pairs_of server.db d.id));
  }

  -- The synchronization of a port over messages and tables. Where the keys of the tables are
  -- unique, the port has one binding and it is to this host, its details are JSON, and NSX-T has
  -- the port, the agent writes that port once: with a tag for each group that the tables bind the
  -- port to, the revision of its attributes and the agent, the default profiles and that of the
  -- policy that it is bound to, if the search for it finds one, and a binding for each of its
  -- addresses and single allowed pairs. If the write returns, the device counts as updated.
  pub sync_port_by_id-written {ℓ} :
      {W : Type ℓ} (api : PortsApi W) (settings : Settings) (add : String → W → W)
      (loads : String → Result (Option ℕ)) (d : PortDetails) (segmentation_id : Option ℕ)
      (lp : LogicalPort) (qos : Option (Option String)) (w w₁ w₂ : W)
      → with_port server.db (find (λ port. port.id == d.id) server.db.ports) ≡ ok d
      → loads d.vif_details ≡ ok segmentation_id
      → (settings.host == d.host) ≡ true
      → api.get_port d.id w ≡ (ok (some lp), w₁)
      → profile_of api d.qos_policy_id w₁ ≡ (ok qos, w₂)
      → sync_port_by_id server strftime settings.host (agent_api api settings add) loads d.id w
        ≡ continue
            (api.update_port (logical_port api d lp qos) w₂)
            (λ r w'. (ok tt, add d.mac_address w'))
  unfolding sync_port_by_id select_port_security_groups select_port_allowed_pairs
  sync_port_by_id-written api settings add loads d segmentation_id lp qos w w₁ w₂ row loaded here
        found profile =
      rw
        (
          dispatch-request_of server strftime read_back settings.host (get_port d.id),
          get_port-with_port server.db unique d.id,
          row,
          loaded,
          dispatch-request_of server strftime read_back settings.host (get_port_addresses d.id),
          dispatch-request_of server strftime read_back settings.host (get_port_allowed_pairs d.id),
          dispatch-request_of server strftime read_back settings.host
              (get_port_security_groups d.id),
          first_columns server.db d.id,
          ← profiles-entry api qos,
        )
        (sync_port-written api settings add (row_of_details d) (addresses_of server.db d.id)
          (pairs_of server.db d.id) (groups_of server.db d.id) lp qos w w₁ w₂ here found
          (find_qos-profile_of api d.qos_policy_id w₁ ∙ profile))
