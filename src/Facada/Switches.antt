-- ===== src/Facada/Switches.antt =====
-- The switch of a segment, over a server that is a store of switches.
use networking_nsx_t.Base.{
  ℕ, Option, ◌≤◌, ◌<◌, String, false, some, List, [], ◌∷◌, ◌≡◌, refl, length,
}
use networking_nsx_t.Base.Exec.{Exec, ok}
use networking_nsx_t.Client.Policy.{Connection}
use networking_nsx_t.Client.Operations.{Service, has_id, create}
use networking_nsx_t.Client.Store.{IsStore, IsIndexed, same_name, get-one, create-IsCreated}
use networking_nsx_t.Client.Crud.{create-existing}
use networking_nsx_t.Facada.{
  FacadaConfig, LogicalSwitch, ls_spec, get_switch_id_for_segmentation_id,
}

module _ {ℓ} {W : Type ℓ} (connection : Connection W) (retries : ℕ) (config : FacadaConfig)
    (switches : Service W LogicalSwitch) (objects indexed : W → List LogicalSwitch)
    (s : IsStore switches objects indexed) (delay : ℕ)
    (x : IsIndexed switches objects indexed connection.operation_pause delay)
    (ids : (ls : LogicalSwitch) → switches.id ls ≡ ls.id) where
  abbrev pub asks : Option String → ℕ → Exec W (Option String)
  asks tz_id segmentation_id =
      get_switch_id_for_segmentation_id connection retries config switches (some tz_id)
        segmentation_id

  abbrev pub same_switch : Option String → ℕ → W → List LogicalSwitch
  same_switch tz_id segmentation_id w =
      same_name switches connection retries objects indexed s (ls_spec config tz_id segmentation_id)
        w

  -- The switch of a segment is created once. Over a server that is a store with at most one switch
  -- of the segment's name, whose search is up to date at first and finds a new switch after some
  -- pauses, fewer than the searches that are configured, a call returns the id of the switch that is
  -- then the only one of the name, whether it was there or not, and a second call returns the same
  -- id and changes nothing. The id of a switch is its field, which may be None.
  pub get_switch_id_for_segmentation_id-once :
      (tz_id : Option String) (segmentation_id : ℕ) (w : W)
      → delay < retries
      → indexed w ≡ objects w
      → length (same_switch tz_id segmentation_id w) ≤ 1
      → (ls : LogicalSwitch) × (after : W) × (same_switch tz_id segmentation_id after ≡ ls ∷ [])
        × (asks tz_id segmentation_id w ≡ (ok ls.id, after))
        × (asks tz_id segmentation_id after ≡ (ok ls.id, after))
  unfolding get_switch_id_for_segmentation_id
  get_switch_id_for_segmentation_id-once tz_id segmentation_id w enough current few =
      let spec = ls_spec config tz_id segmentation_id in
      let new : has_id connection switches retries spec ≡ false = rw (ids spec) refl in
      let c =
        create-IsCreated switches connection retries objects indexed s delay x spec w new enough
          current few in
      let again : create connection switches retries spec c.after ≡ (ok (some c.created), c.after) =
        create-existing connection switches retries spec c.created c.after c.after (
          get-one switches connection retries objects indexed s spec c.created c.after new c.current
            c.only_one) in
      (
        c.created,
        c.after,
        c.only_one,
        rw (c.returned, ids c.created) refl,
        rw (again, ids c.created) refl,
      )
