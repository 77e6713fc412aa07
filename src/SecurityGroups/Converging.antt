-- ===== src/SecurityGroups/Converging.antt =====
-- How the comparison with Neutron reads a group after an update of its rules.
use networking_nsx_t.Base.{
  ℕ, ◌≡◌, refl, String, Bool, true, false, none, some, if◌then◌else◌, str, eq_refl,
}
use networking_nsx_t.Base.Dict.{lookup, insert, lookup-insert}
use networking_nsx_t.Base.Exec.{ok}
use networking_nsx_t.Inventory.{
  Found, Revisions, revision_tag, revision_of_object, is_skipped, name_of, visit,
}
use networking_nsx_t.Inventory.Content.{is_outdated}
use networking_nsx_t.SecurityGroups.Sections.{IpSet, RulesApi, tagged}

-- The group's IPSet as the search returns it
abbrev pub found_group : String → IpSet → Found
found_group name ips = record {
  id = ips.id;
  display_name = name;
  attachment = none;
  tags = some ips.tags;
  disabled = false;
}

abbrev pub read_back : String → IpSet → String → Revisions → Revisions
read_back name ips revision acc = record {
  name_rev = insert name revision acc.name_rev;
  name_id = insert name ips.id acc.name_id;
  metadata = acc.metadata;
}

-- After an update of a group's rules to a revision, the comparison reads the IPSet that the update
-- wrote with that revision if no post failed, and then the group is not outdated as long as
-- Neutron has the revision; if a post failed, it reads the revision that the IPSet had before.
pub visit-tagged {ℓ} :
    {W : Type ℓ} {Json : Type 0} (api : RulesApi W Json) (agent_id name : String) (revision : ℕ)
    (error : Bool) (ips : IpSet) (acc : Revisions)
    → (visit "IPSet" agent_id (found_group name (tagged api revision error ips)) acc
        ≡ ok (read_back name ips (if error then revision_tag ips.tags else str revision) acc))
      × (is_outdated
            (some (str revision))
            (lookup name (read_back name ips (str revision) acc).name_rev)
          ≡ false)
unfolding visit revision_of_object is_skipped name_of revision_tag
visit-tagged api agent_id name revision true ips acc = (
  refl,
  rw (lookup-insert name name (str revision) acc.name_rev, eq_refl name, eq_refl (str revision)),
)
visit-tagged api agent_id name revision false ips acc = (
  refl,
  rw (lookup-insert name name (str revision) acc.name_rev, eq_refl name, eq_refl (str revision)),
)
