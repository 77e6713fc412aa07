-- ===== src/Facada/Unset.antt =====
-- The facada's port_update before and after setup, and the command line synchronization of ports,
-- which does without setup.
use networking_nsx_t.Base.{
  ℕ, String, Bool, true, false, ◌||◌, Option, none, some, List, [], ◌∷◌, ◌==◌, ◌≡◌, refl, ◌∙◌, inl,
  inr, Bool-cases, any_of,
}
use networking_nsx_t.Base.Exec.{Exception, Result, ok, raise, Exec, continue}
use networking_nsx_t.Base.Dict.{Dict, insert}
use networking_nsx_t.Ports.Facada.{ProfileId, LogicalPort, PortsApi, update_found, port_update}
use networking_nsx_t.Ports.Agent.{
  AgentApi, PortRow, port_of, address_bindings_of, sync_port, port_update as agent_port_update,
}
use networking_nsx_t.Ports.Addresses.{is_handled-port_of}
use networking_nsx_t.CommandLine.{execute, execute_loop, is_error, status_of, and_continue}
use networking_nsx_t.Facada.{no_attributes, update_found_with, port_update_with}

-- Where an operation ends with an exception
abbrev pub Fails {ℓ κ} : {W : Type ℓ} {A : Type κ} → Result A × W → Type 0
Fails (ok a, w) = ⊥
Fails (raise e, w) = Unit

module _ {ℓ} {W : Type ℓ} (api : PortsApi W) where
  set_end :
      (tz_id : Option (Option String)) (agent_id : String) (profiles : List ProfileId)
      (revision : ℕ) (groups : List String) (bindings : List (String × String))
      (qos_name : Option String) (o : Result (Option LogicalPort) × W)
      → continue o (
          update_found_with api
            (record {
              tz_id = tz_id;
              agent_id = some agent_id;
              default_switching_profile_ids = some profiles;
            })
            revision
            groups
            bindings
            qos_name)
        ≡ continue o (
            update_found
              (record api { agent_id = agent_id; default_switching_profile_ids = profiles })
              revision
              groups
              bindings
              qos_name)
  set_end tz_id agent_id profiles revision groups bindings qos_name (ok none, w) = refl
  set_end tz_id agent_id profiles revision groups bindings qos_name (ok (some lp), w) = refl
  set_end tz_id agent_id profiles revision groups bindings qos_name (raise e, w) = refl

  -- With the attributes that setup gives, it is port_update over them.
  pub port_update_with-set :
      (tz_id : Option (Option String)) (agent_id : String) (profiles : List ProfileId)
      (attachment_id : String) (revision : ℕ) (groups : List String)
      (bindings : List (String × String)) (qos_name : Option String) (w : W)
      → port_update_with api
          (record {
            tz_id = tz_id;
            agent_id = some agent_id;
            default_switching_profile_ids = some profiles;
          })
          attachment_id
          revision
          groups
          bindings
          qos_name
          w
        ≡ port_update
            (record api { agent_id = agent_id; default_switching_profile_ids = profiles })
            attachment_id
            revision
            groups
            bindings
            qos_name
            w
  unfolding port_update_with port_update
  port_update_with-set tz_id agent_id profiles attachment_id revision groups bindings qos_name w =
      set_end tz_id agent_id profiles revision groups bindings qos_name
        (api.get_port attachment_id w)

  unset_end :
      (revision : ℕ) (groups : List String) (bindings : List (String × String))
      (qos_name : Option String) (o : Result (Option LogicalPort) × W)
      → Fails (continue o (update_found_with api no_attributes revision groups bindings qos_name))
  unset_end revision groups bindings qos_name (ok none, w) = tt
  unset_end revision groups bindings qos_name (ok (some lp), w) = tt
  unset_end revision groups bindings qos_name (raise e, w) = tt

  pub port_update_with-Fails :
      (attachment_id : String) (revision : ℕ) (groups : List String)
      (bindings : List (String × String)) (qos_name : Option String) (w : W)
      → Fails (port_update_with api no_attributes attachment_id revision groups bindings qos_name w)
  unfolding port_update_with
  port_update_with-Fails attachment_id revision groups bindings qos_name w =
      unset_end revision groups bindings qos_name (api.get_port attachment_id w)

module _ {ℓ} {W : Type ℓ} (agent : AgentApi W) (api : PortsApi W)
    (unset : (id : String) (revision : ℕ) (groups : List String) (bindings : List (String × String))
        (qos_name : Option String)
      → agent.update id revision groups bindings qos_name
        ≡ port_update_with api no_attributes id revision groups bindings qos_name)
    (row : String → PortRow) (addresses groups : String → List String)
    (pairs : String → List (String × String)) where
  abbrev pub is_here : String → Bool
  is_here id = agent.settings.host == (row id).binding_host

  -- The callback of the command line for ports, with the rows that Neutron answers
  abbrev pub sync_row : String → Exec W (Unit {0})
  sync_row id = sync_port agent (row id) (addresses id) (pairs id) (groups id)

  continue-Fails :
      (o : Result (Unit {0}) × W) (f : Unit {0} → Exec W (Unit {0}))
      → Fails o
      → Fails (continue o f)
  continue-Fails (ok u, w) f h = absurd h
  continue-Fails (raise e, w) f h = tt

  sync_row-Fails : (id : String) (w : W) → is_here id ≡ true → Fails (sync_row id w)
  unfolding sync_port agent_port_update
  sync_row-Fails id w here =
      let port = port_of agent.settings (row id) (addresses id) (pairs id) (groups id) in
      rw
        (
          sync_port,
          agent_port_update,
          is_handled-port_of agent.settings (row id) (addresses id) (pairs id) (groups id) ∙ here,
          unset port.id port.revision_number port.security_groups (address_bindings_of port)
              port.qos_policy_id,
        )
        (continue-Fails
          (port_update_with api no_attributes port.id port.revision_number port.security_groups
            (address_bindings_of port) port.qos_policy_id w)
          (λ u w'. (ok tt, agent.add_updated_device port.mac_address w'))
          (port_update_with-Fails api port.id port.revision_number port.security_groups
            (address_bindings_of port) port.qos_policy_id w))

  module _ (message : Exception → String) where
    -- A loop that ends with the flag set, where it starts with this flag
    abbrev Sets : Bool → List String → Type ℓ
    Sets error ids =
        (status : Dict String) (w : W)
        → (execute_loop message sync_row ids status error w).0.1 ≡ true

    -- The rest of a loop after a call
    error_after :
        (id : String) (ids : List String) (status : Dict String) (error : Bool)
        (o : Result (Unit {0}) × W)
        → Sets (error || is_error (o.0)) ids
        → (and_continue message (execute_loop message sync_row ids) id status error o).0.1 ≡ true
    error_after id ids status error (r, w) sets = sets (insert id (status_of message r) status) w

    error_stays : (ids : List String) → Sets true ids
    unfolding execute_loop
    error_stays [] status w = refl
    error_stays (id ∷ ids) status w =
        error_after id ids status true (sync_row id w) (error_stays ids)

    Fails-is_error : (o : Result (Unit {0}) × W) → Fails o → is_error (o.0) ≡ true
    Fails-is_error (ok u, w) h = absurd h
    Fails-is_error (raise e, w) h = refl

    or_true : (b : Bool) → (b || true) ≡ true
    or_true true = refl
    or_true false = refl

    error_of_here : (ids : List String) (error : Bool) → any_of is_here ids ≡ true → Sets error ids
    unfolding execute_loop
    error_of_here [] error h status w = absurd cc
    error_of_here (id ∷ ids) error h status w = elim (Bool-cases (is_here id)) [
      | inl here ↦ error_after id ids status error (sync_row id w) (
          rw (Fails-is_error (sync_row id w) (sync_row-Fails id w here), or_true error)
            (error_stays ids))
      | inr there ↦
          error_after id ids status error (sync_row id w)
            (error_of_here ids (error || is_error ((sync_row id w).0)) (rw there at h))
    ]

    -- The command line synchronization of ports logs in without setup, so the facada has no
    -- agent_id and no default profiles: with at least one port of this host among those to
    -- synchronize, its error flag is set, whatever Neutron and NSX-T have of the ports.
    pub execute-unset :
        (ids : List String) (w : W)
        → any_of is_here ids ≡ true
        → (execute message sync_row ids w).0.1 ≡ true
    unfolding execute
    execute-unset ids w here = error_of_here ids false here [] w
