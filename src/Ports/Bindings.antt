-- ===== src/Ports/Bindings.antt =====
-- What the synchronization of a port writes, and how the next comparison reads it.
use networking_nsx_t.Base.{
  ℕ, ◌≡◌, refl, ◌∙◌, ap, String, true, false, Option, some, List, [], ◌∷◌, ◌++◌, map, ◌==◌, str,
  keep, eq_refl,
}
use networking_nsx_t.Base.Exec.{ok, continue}
use networking_nsx_t.Base.Dict.{insert}
use networking_nsx_t.Inventory.{
  Found, Revisions, revision_tag, is_managed_by, revision_of_object, is_skipped, name_of, visit,
}
use networking_nsx_t.Ports.Facada.{
  Binding, LogicalPort, PortsApi, bindings_of, tags_of, profiles_with, find_qos, port_update,
  port_delete,
}
use networking_nsx_t.Ports.Agent.{
  Address, Port, PortRow, Settings, AgentApi, fixed_binding, address_bindings_of, allowed_pairs,
  is_handled, port_of, sync_port,
}
use networking_nsx_t.Ports.Addresses.{
  is_single, binding, owned, bindings-port_of, is_handled-port_of,
}

module _ {ℓ} {W : Type ℓ} (api : PortsApi W) where
  group_tags-revision :
      (groups : List String) (revision : ℕ)
      → revision_tag (tags_of api revision groups) ≡ str revision
  unfolding revision_tag
  group_tags-revision [] revision = refl
  group_tags-revision (g ∷ groups) revision = group_tags-revision groups revision

  tags-is_managed_by :
      (groups : List String) (revision : ℕ)
      → is_managed_by api.agent_id (tags_of api revision groups) ≡ true
  unfolding is_managed_by
  tags-is_managed_by [] revision = rw (eq_refl api.agent_id)
  tags-is_managed_by (g ∷ groups) revision = tags-is_managed_by groups revision

  -- A port as the search returns it after `write_port` wrote it
  abbrev pub found_port : String → String → ℕ → List String → Found
  found_port id attachment revision groups = record {
    id = id;
    display_name = "";
    attachment = some attachment;
    tags = some (tags_of api revision groups);
    disabled = false;
  }

  -- A port that the agent wrote is read back by the comparison with Neutron as one of this agent,
  -- under its attachment's id, with the revision that was written, whatever security groups it has
  -- and whatever was read before.
  pub visit-written :
      (id attachment : String) (revision : ℕ) (groups : List String) (acc : Revisions)
      → visit "LogicalPort" api.agent_id (found_port id attachment revision groups) acc
        ≡ ok (record {
          name_rev = insert attachment (str revision) acc.name_rev;
          name_id = insert attachment id acc.name_id;
          metadata = acc.metadata;
        })
  unfolding visit name_of is_skipped revision_of_object
  visit-written id attachment revision groups acc =
      rw (group_tags-revision groups revision, tags-is_managed_by groups revision)

  -- The calls of the agent, with the facada's port_update
  abbrev pub agent_api : Settings → (String → W → W) → AgentApi W
  agent_api settings add = record {
    settings = settings;
    update = port_update api;
    delete = port_delete api;
    add_updated_device = add;
  }

module _ {ℓ} {W : Type ℓ} (api : PortsApi W) where
  abbrev written :
      LogicalPort → ℕ → List String → List Binding → Option (Option String) → LogicalPort
  written lp revision groups bindings qos = record {
    id = lp.id;
    tags = tags_of api revision groups;
    switching_profile_ids = profiles_with api qos;
    address_bindings = bindings;
  }

  port_update-found :
      (attachment : String) (revision : ℕ) (groups : List String)
      (address_bindings : List (String × String)) (qos_name : Option String) (lp : LogicalPort)
      (qos : Option (Option String)) (w w₁ w₂ : W)
      → api.get_port attachment w ≡ (ok (some lp), w₁)
      → find_qos api qos_name w₁ ≡ (ok qos, w₂)
      → port_update api attachment revision groups address_bindings qos_name w
        ≡ api.update_port (written lp revision groups (bindings_of address_bindings) qos) w₂
  unfolding port_update
  port_update-found attachment revision groups address_bindings qos_name lp qos w w₁ w₂ found
        profile =
      rw (found, profile)

  handled-written :
      (settings : Settings) (add : String → W → W) (port : Port) (lp : LogicalPort)
      (qos : Option (Option String)) (w w₁ w₂ : W)
      → is_handled settings port ≡ true
      → api.get_port port.id w ≡ (ok (some lp), w₁)
      → find_qos api port.qos_policy_id w₁ ≡ (ok qos, w₂)
      → networking_nsx_t.Ports.Agent.port_update (agent_api api settings add) port w
        ≡ continue
            (api.update_port
              (written lp port.revision_number port.security_groups
                (bindings_of (address_bindings_of port))
                qos)
              w₂)
            (λ r w'. (ok tt, add port.mac_address w'))
  unfolding networking_nsx_t.Ports.Agent.port_update
  handled-written settings add port lp qos w w₁ w₂ handled found profile = rw (
    handled,
    port_update-found port.id port.revision_number port.security_groups (address_bindings_of port)
        port.qos_policy_id lp qos w w₁ w₂ found profile,
  )

module _ {ℓ} {W : Type ℓ} (api : PortsApi W) (settings : Settings) (add : String → W → W)
    (row : PortRow) (addresses : List String) (pairs : List (String × String))
    (groups : List String) where
  -- The synchronization of a port that is bound to this host and that NSX-T has writes that port
  -- once, with a tag for each security group, the revision and the agent, the default profiles and
  -- that of its QoS policy, and one binding for each address of the port and each allowed pair that
  -- is a single address, in order. If the write returns, the device counts as updated; if it
  -- raises, the exception goes on.
  pub sync_port-written :
      (lp : LogicalPort) (qos : Option (Option String)) (w w₁ w₂ : W)
      → (settings.host == row.binding_host) ≡ true
      → api.get_port row.id w ≡ (ok (some lp), w₁)
      → find_qos api row.qos_id w₁ ≡ (ok qos, w₂)
      → sync_port (agent_api api settings add) row addresses pairs groups w
        ≡ continue
            (api.update_port
              (record {
                id = lp.id;
                tags = tags_of api row.revision groups;
                switching_profile_ids = profiles_with api qos;
                address_bindings = map binding (keep is_single (owned row addresses ++ pairs));
              })
              w₂)
            (λ r w'. (ok tt, add row.mac w'))
  unfolding sync_port port_of
  sync_port-written lp qos w w₁ w₂ here found profile =
      handled-written api settings add (port_of settings row addresses pairs groups) lp qos w w₁ w₂
        (is_handled-port_of settings row addresses pairs groups ∙ here) found profile
      ∙ ap
          (λ b.
            continue (api.update_port (written api lp row.revision groups b qos) w₂)
              (λ r w'. (ok tt, add row.mac w')))
          (bindings-port_of settings row addresses pairs groups)

  -- The synchronization of a port that is bound to another host does nothing.
  pub sync_port-elsewhere :
      (w : W)
      → (settings.host == row.binding_host) ≡ false
      → sync_port (agent_api api settings add) row addresses pairs groups w ≡ (ok tt, w)
  unfolding sync_port networking_nsx_t.Ports.Agent.port_update
  sync_port-elsewhere w there =
      let handled = is_handled-port_of settings row addresses pairs groups in rw (handled, there)
