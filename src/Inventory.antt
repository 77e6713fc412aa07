-- ===== src/Inventory.antt =====
-- What NSX-T has, compared with what Neutron has: NSXv3Facada.get_revisions of
-- networking_nsxv3/plugins/ml2/drivers/nsxv3/agent/nsxv3_facada.py and _sync_get_content of
-- nsxv3_agent.py beside it.
pub mod Pages
pub mod Content
pub mod Sync
pub mod Order
mod Examples
use networking_nsx_t.Base.{
  ℕ, zero, suc, ◌+◌, ◌*◌, String, Bool, true, false, not, ◌&&◌, ◌||◌, Option, none, some, List, [],
  ◌∷◌, ◌==◌, ltb, if◌then◌else◌, length, is_substring, any_of,
}
use networking_nsx_t.Base.Exec.{Result, ok, raise, and_then, from_option, attribute_error}
use networking_nsx_t.Base.Dict.{Dict, lookup, insert, has_key}

pub record Tag : Type 0 where
  pub scope : String
  pub tag : String

abbrev pub revision_scope : String
revision_scope = "revision_number"

abbrev pub agent_scope : String
agent_scope = "agent_id"

-- A search result. `attachment` is None, or the id in the dict; `tags` is none where the key is
-- missing.
pub record Found : Type 0 where
  pub id : String
  pub display_name : String
  pub attachment : Option String
  pub tags : Option (List Tag)
  pub disabled : Bool

-- The three dicts that `get_revisions` returns. The metadata of a rule is whether it is disabled.
pub record Revisions : Type 0 where
  pub name_rev : Dict String
  pub name_id : Dict String
  pub metadata : Dict Bool

abbrev pub no_revisions : Revisions
no_revisions = record { name_rev = []; name_id = []; metadata = [] }

-- `is_managed_by(obj)` of the tags of an object
unfoldable pub is_managed_by : String → List Tag → Bool
is_managed_by agent_id tags = any_of (λ t. t.scope == agent_scope && t.tag == agent_id) tags

-- The loop that looks for the first tag with the revision scope
unfoldable pub revision_tag : List Tag → String
revision_tag [] = ""
revision_tag (t ∷ tags) = if t.scope == revision_scope then t.tag else revision_tag tags

unfoldable pub revision_of_object : Found → String
unfolding revision_tag
revision_of_object obj = elim obj.tags [ none ↦ "" | some tags ↦ revision_tag tags ]

-- `continue`: a port with tags that another agent manages
unfoldable pub is_skipped : String → String → Found → Bool
unfolding is_managed_by
is_skipped sdk_type agent_id obj =
    is_substring "LogicalPort" sdk_type
    && (elim obj.tags [ none ↦ false | some tags ↦ not (is_managed_by agent_id tags) ])

unfoldable pub name_of : String → Found → Result String
name_of sdk_type obj =
    if is_substring "LogicalPort" sdk_type
    then from_option attribute_error obj.attachment
    else ok obj.display_name

abbrev pub record_object : String → String → Found → Revisions → Revisions
record_object sdk_type name obj acc = record {
  name_rev = insert name (revision_of_object obj) acc.name_rev;
  name_id = insert name obj.id acc.name_id;
  metadata =
      if is_substring "FirewallRule" sdk_type
      then insert name obj.disabled acc.metadata
      else acc.metadata;
}

-- The body of the loop over a page
unfoldable pub visit : String → String → Found → Revisions → Result Revisions
unfolding name_of is_skipped revision_of_object
visit sdk_type agent_id obj acc = and_then (name_of sdk_type obj) λ name.
    if is_skipped sdk_type agent_id obj then ok acc else ok (record_object sdk_type name obj acc)

unfoldable pub visit_all : String → String → List Found → Revisions → Result Revisions
visit_all sdk_type agent_id [] acc = ok acc
visit_all sdk_type agent_id (obj ∷ objs) acc =
    and_then (visit sdk_type agent_id obj acc) (visit_all sdk_type agent_id objs)

-- `self._query(…, size=size, start=start)` of one search; no start is the text "" that the first
-- call passes.
abbrev pub Query : Type 0
Query = ℕ → Option ℕ → Result (List Found)

-- The `while True` loop. none means that the fuel ran out.
unfoldable pub pages_loop :
    Query → String → String → ℕ → ℕ → ℕ → Option ℕ → Revisions → Option (Result Revisions)
pages_loop query sdk_type agent_id limit zero cycle cursor acc = none
pages_loop query sdk_type agent_id limit (suc fuel) cycle cursor acc = elim (query limit cursor) [
  | raise e ↦ some (raise e)
  | ok objs ↦ elim (visit_all sdk_type agent_id objs acc) [
    | raise e ↦ some (raise e)
    | ok acc' ↦
        if ltb (length objs) limit
        then some (ok acc')
        else pages_loop query sdk_type agent_id limit fuel (cycle + 1) (some ((cycle + 1) * limit))
            acc'
  ]
]

abbrev pub page_size : ℕ → ℕ
page_size limit = if ltb limit 1000 then limit else 1000

unfoldable pub get_revisions : Query → String → String → ℕ → ℕ → Option (Result Revisions)
get_revisions query sdk_type agent_id max_records fuel =
    pages_loop query sdk_type agent_id (page_size max_records) fuel 0 none no_revisions

-- The first loop of `_sync_get_content`; a set is a list of its elements.
unfoldable pub outdated_of : Dict String → Dict String → List String
outdated_of revs_nsx [] = []
outdated_of revs_nsx ((key, rev) ∷ revs_os) =
    let rest = outdated_of revs_nsx revs_os in
    elim (lookup key revs_nsx) [
      | none ↦ key ∷ rest
      | some r ↦ if r == rev then rest else key ∷ rest
    ]

-- `set(revs_nsx.keys()).difference(revs_os.keys())`
unfoldable pub orphaned_of : Dict String → Dict String → List String
orphaned_of revs_os [] = []
orphaned_of revs_os ((key, rev) ∷ revs_nsx) =
    let rest = orphaned_of revs_os revs_nsx in if has_key key revs_os then rest else key ∷ rest

unfoldable pub sync_get_content : Dict String → Dict String → List String × List String
sync_get_content revs_os revs_nsx = (outdated_of revs_nsx revs_os, orphaned_of revs_os revs_nsx)
