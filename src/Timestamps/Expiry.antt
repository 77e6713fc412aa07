-- ===== src/Timestamps/Expiry.antt =====
-- What is read of a timestamp that was written.
use networking_nsx_t.Base.{
  ℕ, ◌+◌, ◌*◌, ◌≡◌, refl, ◌∙◌, ap, String, Bool, true, false, keep, arith, Option, none, some, List,
  [], ◌∷◌, ◌==◌, ltb, if◌then◌else◌, eq_iff, eq_refl, inl, inr, Bool-cases, is_some,
}
use networking_nsx_t.Base.Dict.{Dict, lookup, insert, lookup-nil, has_key, lookup-insert}
use networking_nsx_t.Base.Exec.{ok}
use networking_nsx_t.Inventory.{Tag}
use networking_nsx_t.Inventory.Content.{is_dict}
use networking_nsx_t.Timestamps.{
  Tagged, TagsApi, Dates, add_tags, tags_dict, tag_list, get_tags, set_tags, is_expired,
  has_expired, update,
}

abbrev or_else : Option String → Option String → Option String
or_else (some a) b = some a
or_else none b = b

-- The tag of the last entry of a list that has this scope
abbrev pub last_of : String → List Tag → Option String
last_of k [] = none
last_of k (t ∷ tags) = or_else (last_of k tags) (if t.scope == k then some t.tag else none)

-- The entries of a scope that has this tag, or none
abbrev pub entries : String → Option String → List Tag
entries k none = []
entries k (some v) = record { scope = k; tag = v } ∷ []

abbrev pub tags_in : Option (List Tag) → List Tag
tags_in none = []
tags_in (some tags) = tags

abbrev pub in_scope : String → List Tag → List Tag
in_scope k tags = keep (λ t. t.scope == k) tags

or_none : (o : Option String) → or_else o none ≡ o
or_none none = refl
or_none (some v) = refl

none_of_absent : (o : Option String) → is_some o ≡ false → o ≡ none
none_of_absent none h = refl
none_of_absent (some v) h = cc

absent_at :
    (j k : String) (d : Dict String) → has_key j d ≡ false → (j == k) ≡ true → lookup k d ≡ none
absent_at j k d h same = none_of_absent (lookup k d) (rw (← (eq_iff j k).0 same) h)

or_assoc : (a b c : Option String) → or_else a (or_else b c) ≡ or_else (or_else a b) c
or_assoc none b c = refl
or_assoc (some v) b c = refl

or_if :
    (b : Bool) (v : String) (c : Option String)
    → (if b then some v else c) ≡ or_else (if b then some v else none) c
or_if true v c = refl
or_if false v c = refl

lookup-add_tags :
    (k : String) (tags : List Tag) (acc : Dict String)
    → lookup k (add_tags tags acc) ≡ or_else (last_of k tags) (lookup k acc)
unfolding add_tags
lookup-add_tags k [] acc = refl
lookup-add_tags k (t ∷ tags) acc = rw (
  lookup-add_tags k tags (insert t.scope t.tag acc),
  lookup-insert t.scope k t.tag acc,
  or_if (t.scope == k) t.tag (lookup k acc),
  or_assoc (last_of k tags),
)

lookup-tags_dict :
    (k : String) (tags : Option (List Tag)) → lookup k (tags_dict tags) ≡ last_of k (tags_in tags)
unfolding tags_dict
lookup-tags_dict k none = lookup-nil k
lookup-tags_dict k (some tags) =
    lookup-add_tags k tags [] ∙ ap (or_else (last_of k tags)) (lookup-nil k) ∙ or_none _

-- A dict gives the list that has the value of each key once.
in_scope-tag_list :
    (k : String) (d : Dict String)
    → is_dict d ≡ true
    → in_scope k (tag_list d) ≡ entries k (lookup k d)
unfolding tag_list lookup
in_scope-tag_list k [] h = refl
in_scope-tag_list k ((j, v) ∷ d) h = elim (Bool-cases (j == k)) [
  | inl same ↦ rw (
    same,
    in_scope-tag_list k d (ground arith),
    absent_at j k d (ground arith) same,
    (eq_iff j k).0 same,
  )
  | inr other ↦ rw (other, in_scope-tag_list k d (ground arith))
]

has_key-insert :
    (k j : String) (v : String) (d : Dict String)
    → has_key j (insert k v d) ≡ (if k == j then true else has_key j d)
has_key-insert k j v d = elim (Bool-cases (k == j)) [
  | inl same ↦ rw (lookup-insert k j v d, same)
  | inr other ↦ rw (lookup-insert k j v d, other)
]

has_key-same :
    (j k : String) (d : Dict String) → (j == k) ≡ true → has_key j d ≡ false → has_key k d ≡ false
has_key-same j k d same h = rw (← (eq_iff j k).0 same) h

eq_sym : (j k : String) → (j == k) ≡ false → (k == j) ≡ false
eq_sym j k h = ground (arith, eq_iff j k, eq_iff k j)

is_dict-insert : (k v : String) (d : Dict String) → is_dict d ≡ true → is_dict (insert k v d) ≡ true
unfolding insert lookup
is_dict-insert k v [] h = refl
is_dict-insert k v ((j, w) ∷ d) h = elim (Bool-cases (j == k)) [
  | inl same ↦ let new = has_key-same j k d same (ground arith) in rw same (ground arith)
  | inr other ↦
      let new = has_key-insert k j v d in
      let apart = eq_sym j k other in
      let rest = is_dict-insert k v d (ground arith) in rw (other, new, apart) (ground arith)
]

is_dict-add_tags :
    (tags : List Tag) (acc : Dict String) → is_dict acc ≡ true → is_dict (add_tags tags acc) ≡ true
unfolding add_tags
is_dict-add_tags [] acc h = h
is_dict-add_tags (t ∷ tags) acc h =
    is_dict-add_tags tags (insert t.scope t.tag acc) (is_dict-insert t.scope t.tag acc h)

is_dict-tags_dict : (tags : Option (List Tag)) → is_dict (tags_dict tags) ≡ true
unfolding tags_dict
is_dict-tags_dict none = refl
is_dict-tags_dict (some tags) = is_dict-add_tags tags [] refl

-- The tags of an object after the timestamp was written
abbrev pub stamped : Dates → String → ℕ → Tagged → List Tag
stamped dates name now obj = tag_list (insert name (dates.strftime now) (tags_dict obj.tags))

in_scope-stamped :
    (dates : Dates) (name : String) (now : ℕ) (obj : Tagged) (k : String)
    → in_scope k (stamped dates name now obj)
      ≡ entries k (if name == k then some (dates.strftime now) else last_of k (tags_in obj.tags))
in_scope-stamped dates name now obj k =
    in_scope-tag_list k (insert name (dates.strftime now) (tags_dict obj.tags))
      (is_dict-insert name _ _ (is_dict-tags_dict obj.tags))
    ∙ rw (
      lookup-insert name k (dates.strftime now) (tags_dict obj.tags),
      lookup-tags_dict k obj.tags,
    )

last_of-tag_list :
    (k : String) (d : Dict String) → is_dict d ≡ true → last_of k (tag_list d) ≡ lookup k d
unfolding tag_list lookup
last_of-tag_list k [] h = refl
last_of-tag_list k ((j, v) ∷ d) h = elim (Bool-cases (j == k)) [
  | inl same ↦ rw (same, last_of-tag_list k d (ground arith), absent_at j k d (ground arith) same)
  | inr other ↦ rw (other, last_of-tag_list k d (ground arith), or_none (lookup k d))
]

last_of-stamped :
    (dates : Dates) (name : String) (now : ℕ) (obj : Tagged)
    → last_of name (stamped dates name now obj) ≡ some (dates.strftime now)
last_of-stamped dates name now obj =
    last_of-tag_list name (insert name (dates.strftime now) (tags_dict obj.tags))
      (is_dict-insert name _ _ (is_dict-tags_dict obj.tags))
    ∙ rw (lookup-insert name name (dates.strftime now) (tags_dict obj.tags), eq_refl name)

-- Writing the timestamp, if both reads find the object, the write returns and a later read gives
-- what was written, replaces the tags of the object: it has the date once, under the name of the
-- timestamp, and for each other scope one tag, the last one that it had of that scope, or none if
-- it had none; earlier tags of a scope are lost. The later read finds the timestamp expired exactly
-- if more than the timeout has passed since the time that was written, which is the time to the
-- precision of the date's format. The date's text is not empty and is read as that time.
pub update-expired {ℓ} :
    {W : Type ℓ} (api : TagsApi W) (dates : Dates) (name : String) (timeout now later time : ℕ)
    (obj obj' : Tagged) (w w₁ w₂ : W) (after read : Tagged → W)
    → api.get_object w ≡ (ok (some obj), w₁)
    → api.get_object w₁ ≡ (ok (some obj'), w₂)
    → ((o : Tagged) → api.update_object o w₂ ≡ (ok tt, after o))
    → ((o : Tagged) → api.get_object (after o) ≡ (ok (some o), read o))
    → (dates.strftime now == "") ≡ false
    → dates.strptime (dates.strftime now) ≡ ok time
    → (o : Tagged) × (tags : List Tag) × (o ≡ record { id = obj'.id; tags = some tags })
      × (update api dates name timeout now w ≡ (ok tt, after o))
      × (has_expired api dates name timeout later (after o)
          ≡ (ok (ltb (time + timeout * dates.hour) later), read o))
      × ((k : String)
          → in_scope k tags
            ≡ entries k
                (if name == k then some (dates.strftime now) else last_of k (tags_in obj.tags)))
unfolding update has_expired get_tags set_tags is_expired
update-expired api dates name timeout now later time obj obj' w w₁ w₂ after read first second write
      reads given parsed =
    let tags : List Tag = stamped dates name now obj in
    let o : Tagged = record { id = obj'.id; tags = some tags } in
    (
      o,
      tags,
      refl,
      rw (first, second, write o),
      rw (
        reads o,
        lookup-tags_dict name (some tags),
        last_of-stamped dates name now obj,
        given,
        parsed,
      ),
      in_scope-stamped dates name now obj,
    )
