-- ===== src/Timestamps.antt =====
-- The tags of an object and the timestamp in them: get_tags and set_tags of NSXv3Facada, and the
-- class Timestamp, of networking_nsxv3/plugins/ml2/drivers/nsxv3/agent/nsxv3_facada.py.
pub mod Expiry
mod Examples
use networking_nsx_t.Base.{
  ℕ, ◌+◌, ◌*◌, String, Bool, true, false, not, Option, none, some, List, [], ◌∷◌, map, ◌==◌, ltb,
  if◌then◌else◌, truthy_text,
}
use networking_nsx_t.Base.Dict.{Dict, lookup, insert}
use networking_nsx_t.Base.Exec.{
  attribute_error, Result, ok, raise, and_then, from_option, Exec, pure, lift, continue, ◌>>=◌,
  ◌>>◌,
}
use networking_nsx_t.Inventory.{Tag}

-- An SDK object; `tags` may be None.
pub record Tagged : Type 0 where
  pub id : String
  pub tags : Option (List Tag)

-- `get` and `update` of the client for the service and the model of the timestamp
pub record TagsApi {ℓ} (W : Type ℓ) : Type ℓ where
  pub get_object : Exec W (Option Tagged)
  pub update_object : Tagged → Exec W (Unit {0})

-- The loop of `get_tags`
unfoldable pub add_tags : List Tag → Dict String → Dict String
add_tags [] tags = tags
add_tags (t ∷ rest) tags = add_tags rest (insert t.scope t.tag tags)

unfoldable pub tags_dict : Option (List Tag) → Dict String
unfolding add_tags
tags_dict none = []
tags_dict (some tags) = add_tags tags []

-- The loop of `set_tags`
unfoldable pub tag_list : Dict String → List Tag
tag_list [] = []
tag_list ((scope, tag) ∷ tags) = record { scope = scope; tag = tag } ∷ tag_list tags

-- datetime: a time is a number of ticks, `hour` is an hour's, and a date is read and written with
-- the format of `_get_date`.
pub record Dates : Type 0 where
  pub hour : ℕ
  pub strftime : ℕ → String
  pub strptime : String → Result ℕ

module _ {ℓ} {W : Type ℓ} (api : TagsApi W) where
  abbrev pub the_object : Exec W Tagged
  the_object = api.get_object >>= λ found. lift (from_option attribute_error found)

  unfoldable pub get_tags : Exec W (Dict String)
  get_tags = the_object >>= λ obj. pure (tags_dict obj.tags)

  unfoldable pub set_tags : Dict String → Exec W (Unit {0})
  set_tags tags =
      the_object >>= λ obj. api.update_object (record obj { tags = some (tag_list tags) })

  module _ (dates : Dates) (name : String) (timeout : ℕ) where
    -- What `has_expired` makes of the tags at the time `now`
    unfoldable pub is_expired : ℕ → Option String → Result Bool
    is_expired now none = ok true
    is_expired now (some s) =
        if s == ""
        then ok true
        else and_then (dates.strptime s) (λ t. ok (ltb (t + timeout * dates.hour) now))

    unfoldable pub has_expired : ℕ → Exec W Bool
    has_expired now = get_tags >>= λ tags. lift (is_expired now (lookup name tags))

    unfoldable pub update : ℕ → Exec W (Unit {0})
    update now = get_tags >>= λ tags. set_tags (insert name (dates.strftime now) tags)
