-- ===== src/Inventory/Content.antt =====
-- What _sync_get_content finds outdated and orphaned.
use mathlib.Core.Path.{ap₂}
use networking_nsx_t.Base.{
  ◌≡◌, refl, sym, ap, ◌∙◌, ◌↔◌, String, Bool, true, false, not, ◌&&◌, Option, none, some, List, [],
  ◌∷◌, arith, ◌==◌, elem, eq_iff, eq_refl, is_some,
}
use networking_nsx_t.Base.Dict.{Dict, lookup, has_key}
use networking_nsx_t.Inventory.{outdated_of, orphaned_of, sync_get_content}

-- A dict has each key once.
abbrev pub is_dict : Dict String → Bool
is_dict [] = true
is_dict ((key, rev) ∷ d) = not (has_key key d) && is_dict d

-- Whether what NSX-T has for a key is `rev`
abbrev pub is_revision : String → Option String → Bool
is_revision rev none = false
is_revision rev (some r) = r == rev

-- Whether the revision that Neutron has for a key, if any, is not the one that NSX-T has
abbrev pub is_outdated : Option String → Option String → Bool
is_outdated none nsx = false
is_outdated (some rev) nsx = not (is_revision rev nsx)

elem-outdated :
    (key : String) (revs_nsx revs_os : Dict String)
    → is_dict revs_os ≡ true
    → elem key (outdated_of revs_nsx revs_os)
      ≡ is_outdated (lookup key revs_os) (lookup key revs_nsx)
unfolding outdated_of lookup
elem-outdated key revs_nsx [] d = refl
elem-outdated key revs_nsx ((k, rev) ∷ revs_os) d =
    ground (arith, eq_iff k key, elem-outdated key revs_nsx revs_os)

elem-orphaned :
    (key : String) (revs_os revs_nsx : Dict String)
    → elem key (orphaned_of revs_os revs_nsx) ≡ (has_key key revs_nsx && not (has_key key revs_os))
unfolding orphaned_of lookup
elem-orphaned key revs_os [] = refl
elem-orphaned key revs_os ((k, rev) ∷ revs_nsx) =
    ground (arith, eq_iff k key, elem-orphaned key revs_os revs_nsx)

nil_of_no_elem : (xs : List String) → ((key : String) → elem key xs ≡ false) → xs ≡ []
nil_of_no_elem [] h = refl
nil_of_no_elem (x ∷ xs) h = absurd (ground (arith, h x, eq_refl x))

same_of_current :
    (os nsx : Option String)
    → is_outdated os nsx ≡ false
    → (is_some nsx && not (is_some os)) ≡ false
    → os ≡ nsx
same_of_current none none old more = refl
same_of_current none (some r) old more = cc
same_of_current (some rev) none old more = cc
same_of_current (some rev) (some r) old more = ap some (ground (arith, eq_iff r rev))

current_of_same : (os : Option String) → is_outdated os os ≡ false
current_of_same none = refl
current_of_same (some r) = rw (eq_refl r)

-- A comparison of what Neutron has with what NSX-T has. A key is outdated exactly if Neutron has
-- it and NSX-T does not have it with the same revision, and it is orphaned exactly if NSX-T has it
-- and Neutron does not. Nothing is reported exactly if both have the same keys with the same
-- revisions. The condition is that Neutron's dict has each key once, as every dict does.
pub sync_get_content-elem :
    (revs_os revs_nsx : Dict String)
    → is_dict revs_os ≡ true
    → ((key : String)
        → (elem key (sync_get_content revs_os revs_nsx).0
            ≡ is_outdated (lookup key revs_os) (lookup key revs_nsx))
          × (elem key (sync_get_content revs_os revs_nsx).1
              ≡ (has_key key revs_nsx && not (has_key key revs_os))))
      × ((sync_get_content revs_os revs_nsx ≡ ([], []))
          ↔ ((key : String) → lookup key revs_os ≡ lookup key revs_nsx))
unfolding sync_get_content
sync_get_content-elem revs_os revs_nsx d =
    let old : (key : String) → _ = λ key. elem-outdated key revs_nsx revs_os d in
    let more : (key : String) → _ = λ key. elem-orphaned key revs_os revs_nsx in
    (
      λ key. (old key, more key),
      (
        λ nothing key.
            same_of_current (lookup key revs_os) (lookup key revs_nsx)
              (sym (old key) ∙ ap (λ p. elem key p.0) nothing)
              (sym (more key) ∙ ap (λ p. elem key p.1) nothing),
        λ same.
            ap₂ (λ a b. (a, b))
              (nil_of_no_elem _
                (λ key. old key ∙ rw (← same key) (current_of_same (lookup key revs_os))))
              (nil_of_no_elem _
                (λ key. more key ∙ ground (arith, is_some (lookup key revs_os), same key))),
      ),
    )
