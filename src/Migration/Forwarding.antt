-- ===== src/Migration/Forwarding.antt =====
-- The decorated handler: the migration, then the agent's own handler.
use networking_nsx_t.Base.{
  String, Bool, true, false, ◌&&◌, some, ◌≡◌, refl, inl, inr, Bool-cases, if◌then◌else◌,
}
use networking_nsx_t.Base.Exec.{Exec}
use networking_nsx_t.Vsphere.{VsphereState}
use networking_nsx_t.Migration.{
  MigratedPort, UpdateArgs, MigrationTarget, is_assigned, has_override, _migrate_port, port_update,
  decorate, migrator,
}
use networking_nsx_t.Migration.Attaching.{MigrationLaws, _migrate_port-Keeps}

module _ {ℓ κ} {W : Type ℓ} {A : Type κ} (target : MigrationTarget W) (func_name : String)
    (func : UpdateArgs → Exec (VsphereState W) A) (args : UpdateArgs) (s : VsphereState W) where
  -- Whether the decorated call starts a migration
  abbrev migrates : Bool → Bool
  migrates enabled = enabled && (has_override func_name && args.context)

  -- The state in which the handler is called
  abbrev before_func : Bool → VsphereState W
  before_func starts =
      if starts then (_migrate_port target args.port args.segmentation_id s).1 else s

  port_update-before_func :
      port_update target func_name func args s ≡ func args (before_func args.context)
  unfolding port_update
  port_update-before_func = elim (Bool-cases args.context) [
    | inl given ↦ rw (port_update, given) refl
    | inr absent ↦ rw (port_update, absent) refl
  ]

  migrator-before_func :
      (enabled : Bool)
      → migrator target func_name func (λ u. enabled) args s
        ≡ func args (before_func (migrates enabled))
  unfolding migrator decorate
  migrator-before_func false = refl
  migrator-before_func true = elim (Bool-cases (has_override func_name)) [
    | inl update ↦ rw (migrator, decorate, update) port_update-before_func
    | inr other ↦ rw (migrator, decorate, other) refl
  ]

  elsewhere_stays :
      (port : MigratedPort)
      → args.port ≡ some port
      → is_assigned target.host port.binding_host_id ≡ false
      → (_migrate_port target args.port args.segmentation_id s).1 ≡ s
  unfolding _migrate_port
  elsewhere_stays port e h = rw (e, _migrate_port, h) refl

  stays :
      (port : MigratedPort)
      → args.port ≡ some port
      → (starts : Bool) → (starts && is_assigned target.host port.binding_host_id) ≡ false
      → before_func starts ≡ s
  stays port e true h = elsewhere_stays port e h
  stays port e false h = refl

  kept_before :
      (P : W → Type 0) (port : MigratedPort)
      → MigrationLaws target port P
      → args.port ≡ some port
      → P s.world
      → (starts : Bool) → P ((before_func starts).world)
  kept_before P port laws e p true =
      rw e (_migrate_port-Keeps target port P laws args.segmentation_id s p)
  kept_before P port laws e p false = p

  -- Whatever the migration does or raises, a decorated handler returns what the agent's own handler
  -- returns for the same arguments, called once and last. It is called in the state of the call
  -- where the migration is off, the handler is not port_update, there is no context (the
  -- synchronization's calls), or the port is bound to another host; and where it migrates, in a
  -- state with every predicate of the world that editing the port's own card keeps.
  pub migrator-Forwarded :
      (enabled : Bool) (P : W → Type 0) (port : MigratedPort)
      → MigrationLaws target port P
      → args.port ≡ some port
      → P s.world
      → (before : VsphereState W) × (migrator target func_name func (λ u. enabled) args s
          ≡ func args before)
        × P before.world
        × (((enabled && (has_override func_name && args.context))
                && is_assigned target.host port.binding_host_id
              ≡ false)
            → before ≡ s)
  migrator-Forwarded enabled P port laws e p = (
    before_func (migrates enabled),
    migrator-before_func enabled,
    kept_before P port laws e p (migrates enabled),
    stays port e (migrates enabled),
  )
