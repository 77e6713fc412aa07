-- ===== src/Inventory/Examples.antt =====
-- A search over three objects in pages of two, and a comparison of two dicts.
use networking_nsx_t.Base.{
  ◌↔◌, ◌&&◌, not, ◌≡◌, refl, String, true, false, none, some, List, [], ◌∷◌, arith, take, drop,
  elem,
}
use networking_nsx_t.Base.Exec.{ok}
use networking_nsx_t.Base.Dict.{Dict, insert, lookup, has_key}
use networking_nsx_t.Inventory.{
  Found, Query, no_revisions, visit, visit_all, outdated_of, orphaned_of, get_revisions,
  sync_get_content,
}
use networking_nsx_t.Inventory.Sync.{
  security_group_updated, security_group_member_updated, security_group_rule_updated,
  sync_security_group_orphaned, sync_port, sync_port_orphaned, Content, sync_inventory,
}
use networking_nsx_t.Inventory.Order.{hands, is_before, sync_inventory-shallow}
use networking_nsx_t.Inventory.Pages.{Serves, get_revisions-pages}
use networking_nsx_t.Inventory.Content.{is_dict, is_outdated, sync_get_content-elem}

abbrev group : String → String → Found
group name revision = record {
  id = name;
  display_name = name;
  attachment = none;
  tags = some (record { scope = "revision_number"; tag = revision } ∷ []);
  disabled = false;
}

abbrev groups : List Found
groups = group "a" "1" ∷ group "b" "2" ∷ group "c" "3" ∷ []

abbrev search : Query
search size none = ok (take size groups)
search size (some start) = ok (take size (drop start groups))

search-Serves : Serves search groups
search-Serves = record { first = λ size. refl; later = λ size start. refl }

get_revisions-pages_example :
    get_revisions search "NSGroup" "agent" 2 4
    ≡ some (visit_all "NSGroup" "agent" groups no_revisions)
get_revisions-pages_example =
    get_revisions-pages search groups "NSGroup" "agent" 2 4 search-Serves (omega arith)
      (omega arith)

-- Test: the second page is read too.
second_page :
    visit_all "NSGroup" "agent" groups no_revisions
    ≡ ok (record {
      name_rev = ("a", "1") ∷ ("b", "2") ∷ ("c", "3") ∷ [];
      name_id = ("a", "a") ∷ ("b", "b") ∷ ("c", "c") ∷ [];
      metadata = [];
    })
unfolding visit_all visit insert
second_page = refl

abbrev neutron : Dict String
neutron = ("a", "1") ∷ ("b", "2") ∷ []

abbrev nsx : Dict String
nsx = ("b", "1") ∷ ("c", "3") ∷ []

neutron-is_dict : is_dict neutron ≡ true
unfolding lookup
neutron-is_dict = refl

-- Test: a key that is missing, one that is old and one that is left over
content : sync_get_content neutron nsx ≡ ("a" ∷ "b" ∷ [], "c" ∷ [])
unfolding sync_get_content outdated_of orphaned_of lookup
content = refl

sync_get_content-elem_example :
    ((key : String)
      → (elem key (sync_get_content neutron nsx).0
          ≡ is_outdated (lookup key neutron) (lookup key nsx))
        × (elem key (sync_get_content neutron nsx).1
            ≡ (has_key key nsx && not (has_key key neutron))))
    × ((sync_get_content neutron nsx ≡ ([], []))
        ↔ ((key : String) → lookup key neutron ≡ lookup key nsx))
sync_get_content-elem_example = sync_get_content-elem neutron nsx neutron-is_dict

-- A shallow synchronization of the two dicts
abbrev content_of : Content
content_of = record {
  security_groups_os = neutron;
  security_groups_nsx = nsx;
  qos_os = [];
  qos_nsx = [];
  ports_os = neutron;
  ports_nsx = [];
}

sync_inventory-shallow_example :
    let calls = (sync_inventory 0 false content_of).0 in
    let outdated = is_outdated (lookup "a" neutron) (lookup "a" nsx) in
    (hands security_group_updated "a" calls ≡ outdated)
    × (hands security_group_member_updated "a" calls ≡ outdated)
    × (hands security_group_rule_updated "a" calls ≡ outdated)
    × (hands sync_security_group_orphaned "a" calls
        ≡ (has_key "a" nsx && not (has_key "a" neutron)))
    × (hands sync_port "a" calls ≡ is_outdated (lookup "a" neutron) (lookup "a" []))
    × (hands sync_port_orphaned "a" calls
        ≡ (has_key {V = String} "a" [] && not (has_key "a" neutron)))
    × (is_before security_group_updated security_group_member_updated calls ≡ true)
    × (is_before security_group_member_updated security_group_rule_updated calls ≡ true)
sync_inventory-shallow_example =
    sync_inventory-shallow content_of "a" neutron-is_dict neutron-is_dict
