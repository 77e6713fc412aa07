-- ===== src/Inventory/Order.antt =====
-- The order in which an inventory synchronization does its work.
use networking_nsx_t.Base.{
  ◌≡◌, refl, String, Bool, true, false, not, ◌&&◌, ◌||◌, ◌∙◌, arith, List, ltb, all_of, any_of,
  elem,
}
use networking_nsx_t.Base.Dict.{has_key, lookup}
use networking_nsx_t.Inventory.Content.{is_dict, is_outdated, sync_get_content-elem}
use networking_nsx_t.Inventory.Sync.{
  Callback, sync_security_group, security_group_updated, security_group_member_updated,
  security_group_rule_updated, sync_security_group_orphaned, sync_qos, sync_port,
  sync_port_orphaned, Call, Content, sync_inventory, sync_inventory_shallow,
}
use networking_nsx_t.Synchronization.Runner.{value_of}

abbrev pub is_same : Callback → Callback → Bool
is_same sync_security_group sync_security_group = true
is_same security_group_updated security_group_updated = true
is_same security_group_member_updated security_group_member_updated = true
is_same security_group_rule_updated security_group_rule_updated = true
is_same sync_security_group_orphaned sync_security_group_orphaned = true
is_same sync_qos sync_qos = true
is_same sync_port sync_port = true
is_same sync_port_orphaned sync_port_orphaned = true
is_same _ _ = false

-- Whether the calls hand an id over to a method
abbrev pub hands : Callback → String → List Call → Bool
hands callback id calls = any_of (λ c. is_same c.callback callback && elem id c.ids) calls

-- Whether each call of the first method has a priority before that of each call of the second
abbrev pub is_before : Callback → Callback → List Call → Bool
is_before first second calls =
    all_of
      (λ c.
        all_of
          (λ d.
            not (is_same c.callback first && is_same d.callback second)
            || ltb (value_of c.priority) (value_of d.priority))
          calls)
      calls

or_false : (b : Bool) → (b || false) ≡ b
or_false b = ground arith

-- A shallow synchronization, with no job waiting, hands a security group over to each of its three
-- updates exactly if it is outdated, and to its removal exactly if NSX-T has it and Neutron does
-- not; likewise a port. The groups and their members come before the rules, which may refer to
-- any group, by the priority of their jobs, and so do the groups before their members.
pub sync_inventory-shallow :
    (c : Content) (id : String)
    → is_dict c.security_groups_os ≡ true
    → is_dict c.ports_os ≡ true
    → let calls = (sync_inventory 0 false c).0 in
      let outdated =
        is_outdated (lookup id c.security_groups_os) (lookup id c.security_groups_nsx) in
      (hands security_group_updated id calls ≡ outdated)
      × (hands security_group_member_updated id calls ≡ outdated)
      × (hands security_group_rule_updated id calls ≡ outdated)
      × (hands sync_security_group_orphaned id calls
          ≡ (has_key id c.security_groups_nsx && not (has_key id c.security_groups_os)))
      × (hands sync_port id calls ≡ is_outdated (lookup id c.ports_os) (lookup id c.ports_nsx))
      × (hands sync_port_orphaned id calls
          ≡ (has_key id c.ports_nsx && not (has_key id c.ports_os)))
      × (is_before security_group_updated security_group_member_updated calls ≡ true)
      × (is_before security_group_member_updated security_group_rule_updated calls ≡ true)
unfolding sync_inventory sync_inventory_shallow value_of
sync_inventory-shallow c id groups ports =
    let (g, gs) = sync_get_content-elem c.security_groups_os c.security_groups_nsx groups in
    let (p, ps) = sync_get_content-elem c.ports_os c.ports_nsx ports in
    (
      or_false _ ∙ (g id).0,
      or_false _ ∙ (g id).0,
      or_false _ ∙ (g id).0,
      or_false _ ∙ (g id).1,
      or_false _ ∙ (p id).0,
      or_false _ ∙ (p id).1,
      refl,
      refl,
    )
