-- ===== src/Timestamps/Examples.antt =====
-- A transport zone with two tags of one other scope, and dates that drop the last digit of a time.
use networking_nsx_t.Base.{
  ◌+◌, ◌*◌, ◌/◌, ◌≡◌, refl, String, false, some, List, [], ◌∷◌, ◌==◌, ltb, if◌then◌else◌, str,
  int_of,
}
use networking_nsx_t.Base.Dict.{insert}
use networking_nsx_t.Base.Exec.{ok}
use networking_nsx_t.Inventory.{Tag}
use networking_nsx_t.Timestamps.{
  get_tags, set_tags, add_tags, tag_list, Tagged, TagsApi, Dates, tags_dict, update, has_expired,
}
use networking_nsx_t.Timestamps.Expiry.{last_of, entries, tags_in, in_scope, update-expired}

abbrev api : TagsApi Tagged
api = record { get_object = λ w. (ok (some w), w); update_object = λ obj w. (ok tt, obj) }

abbrev dates : Dates
dates = record { hour = 100; strftime = λ t. str (t / 10); strptime = λ s. ok (int_of s * 10) }

abbrev zone : Tagged
zone = record {
  id = "tz";
  tags =
      some (record { scope = "owner"; tag = "me" } ∷ record { scope = "owner"; tag = "you" } ∷ []);
}

date-given : (dates.strftime 57 == "") ≡ false
unfolding str
date-given = refl

date-parsed : dates.strptime (dates.strftime 57) ≡ ok 50
unfolding str int_of
date-parsed = refl

update-expired_example :
    (o : Tagged) × (tags : List Tag) × (o ≡ record { id = "tz"; tags = some tags })
    × (update api dates "sync" 2 57 zone ≡ (ok tt, o))
    × (has_expired api dates "sync" 2 300 o ≡ (ok (ltb (50 + 2 * 100) 300), o))
    × ((k : String)
        → in_scope k tags
          ≡ entries k (if "sync" == k then some (str (57 / 10)) else last_of k (tags_in zone.tags)))
update-expired_example =
    update-expired api dates "sync" 2 57 300 50 zone zone zone zone zone (λ o. o) (λ o. o) refl refl
      (λ o. refl) (λ o. refl) date-given date-parsed

-- Test: of two tags of one scope the second is left.
one_left : update api dates "sync" 2 57 zone ≡ (
  ok tt,
  record {
    id = "tz";
    tags = some (
        record { scope = "owner"; tag = "you" }
        ∷ record { scope = "sync"; tag = str (57 / 10) }
        ∷ []);
  },
)
unfolding update get_tags set_tags tags_dict add_tags tag_list insert
one_left = refl
