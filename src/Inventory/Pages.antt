-- ===== src/Inventory/Pages.antt =====
-- Paging through a search, against one pass over all its results.
use networking_nsx_t.Base.{
  ℕ, zero, suc, ◌+◌, ◌*◌, ◌<◌, ◌≡◌, refl, sym, ◌∙◌, ap, String, false, Option, none, some, List, [],
  ◌∷◌, ◌++◌, inl, inr, arith, ltb, ltb→lt, Bool-cases, length, take, drop, length-take, length-drop,
  take-append-drop,
}
use networking_nsx_t.Base.Exec.{Result, ok, raise, and_then, Result-cases}
use networking_nsx_t.Inventory.{
  Found, Revisions, no_revisions, visit, visit_all, Query, pages_loop, page_size, get_revisions,
}

-- What the search service does: a page is the results from `start` on, `size` of them at most, and
-- the start "" is the beginning.
pub record Serves (query : Query) (objs : List Found) : Type 0 where
  pub first : (size : ℕ) → query size none ≡ ok (take size objs)
  pub later : (size start : ℕ) → query size (some start) ≡ ok (take size (drop start objs))

and_then_assoc {ℓ κ μ} :
    {A : Type ℓ} {B : Type κ} {C : Type μ} (r : Result A) (f : A → Result B) (g : B → Result C)
    → and_then (and_then r f) g ≡ and_then r (λ a. and_then (f a) g)
and_then_assoc (ok a) f g = refl
and_then_assoc (raise e) f g = refl

and_then-ap {ℓ κ} :
    {A : Type ℓ} {B : Type κ} (r : Result A) (f g : A → Result B)
    → ((a : A) → f a ≡ g a)
    → and_then r f ≡ and_then r g
and_then-ap (ok a) f g h = h a
and_then-ap (raise e) f g h = refl

drop-nil {ℓ} : {A : Type ℓ} (m : ℕ) → drop {A = A} m [] ≡ []
drop-nil zero = refl
drop-nil (suc m) = refl

drop-drop {ℓ} : {A : Type ℓ} (m n : ℕ) (xs : List A) → drop m (drop n xs) ≡ drop (n + m) xs
drop-drop m zero xs = ap (λ k. drop k xs) {x = m} {y = zero + m} (omega arith)
drop-drop m (suc n) [] = drop-nil m ∙ sym (drop-nil (suc n + m))
drop-drop m (suc n) (x ∷ xs) =
    drop-drop m n xs ∙ ap (λ k. drop k (x ∷ xs)) {x = suc (n + m)} {y = suc n + m} (omega arith)

take-short {ℓ} : {A : Type ℓ} (n : ℕ) (xs : List A) → length (take n xs) < n → take n xs ≡ xs
take-short zero xs h = absurd (omega arith)
take-short (suc n) [] h = refl
take-short (suc n) (x ∷ xs) h = rw (take-short n xs (omega arith))

module _ (sdk_type agent_id : String) where
  visit_all-append :
      (xs ys : List Found) (acc : Revisions)
      → visit_all sdk_type agent_id (xs ++ ys) acc
        ≡ and_then (visit_all sdk_type agent_id xs acc) (visit_all sdk_type agent_id ys)
  unfolding visit_all
  visit_all-append [] ys acc = refl
  visit_all-append (x ∷ xs) ys acc =
      and_then-ap (visit sdk_type agent_id x acc) _ _ (visit_all-append xs ys)
      ∙ sym (and_then_assoc (visit sdk_type agent_id x acc) _ _)

  module _ (query : Query) (objs : List Found) (serves : Serves query objs) (limit : ℕ)
      (pos : 0 < limit) where
    abbrev page_at : ℕ → List Found
    page_at start = take limit (drop start objs)

    rest_shorter :
        (start fuel : ℕ)
        → length (drop start objs) < suc fuel
        → ltb (length (page_at start)) limit ≡ false
        → length (drop (start + limit) objs) < fuel
    rest_shorter start fuel enough full = ground (
      arith,
      length-take limit (drop start objs),
      length-drop start objs,
      length-drop (start + limit) objs,
    )

    -- The rest of the results is the page and what follows the page.
    visit_page :
        (start : ℕ) (acc : Revisions)
        → visit_all sdk_type agent_id (drop start objs) acc
          ≡ and_then
              (visit_all sdk_type agent_id (page_at start) acc)
              (visit_all sdk_type agent_id (drop (start + limit) objs))
    visit_page start acc =
        ap (λ l. visit_all sdk_type agent_id l acc) (sym (take-append-drop limit (drop start objs)))
        ∙ visit_all-append (page_at start) (drop limit (drop start objs)) acc
        ∙ ap
            (λ l.
              and_then (visit_all sdk_type agent_id (page_at start) acc)
                (visit_all sdk_type agent_id l))
            (drop-drop limit start objs)

    next_start : (cycle start : ℕ) → start ≡ cycle * limit → start + limit ≡ (cycle + 1) * limit
    next_start cycle start at = omega arith

    pages_loop-Whole :
        (fuel cycle start : ℕ) (cursor : Option ℕ) (acc : Revisions)
        → start ≡ cycle * limit
        → query limit cursor ≡ ok (page_at start)
        → length (drop start objs) < fuel
        → pages_loop query sdk_type agent_id limit fuel cycle cursor acc
          ≡ some (visit_all sdk_type agent_id (drop start objs) acc)
    unfolding pages_loop
    pages_loop-Whole zero cycle start cursor acc at page enough = absurd (omega arith)
    pages_loop-Whole (suc fuel) cycle start cursor acc at page enough =
        elim (Result-cases (visit_all sdk_type agent_id (page_at start) acc)) [
          | inr (e, raised) ↦ rw (pages_loop, page, raised, visit_page start acc, raised)
          | inl (acc', visited) ↦ elim (Bool-cases (ltb (length (page_at start)) limit)) [
            | inl short ↦
                let all = take-short limit (drop start objs) (ltb→lt _ _ short) in
                rw (pages_loop, page, visited, short, ← all, visited)
            | inr full ↦
                rw (pages_loop, page, visited, full, visit_page start acc, visited)
                  (pages_loop-Whole fuel (cycle + 1) (start + limit) (some ((cycle + 1) * limit))
                    acc' (next_start cycle start at)
                    (serves.later limit ((cycle + 1) * limit)
                      ∙ ap (λ n. ok (page_at n)) (sym (next_start cycle start at)))
                    (rest_shorter start fuel enough full))
          ]
        ]

-- get_revisions reads a search of any length, page by page, as one pass over all its results in
-- their order would, exceptions of the pass included: with a page of at least one result and more
-- rounds than there are results, it ends with that pass's outcome.
pub get_revisions-pages :
    (query : Query) (objs : List Found) (sdk_type agent_id : String) (max_records fuel : ℕ)
    → Serves query objs
    → 0 < max_records
    → length objs < fuel
    → get_revisions query sdk_type agent_id max_records fuel
      ≡ some (visit_all sdk_type agent_id objs no_revisions)
unfolding get_revisions
get_revisions-pages query objs sdk_type agent_id max_records fuel serves pos enough =
    pages_loop-Whole sdk_type agent_id query objs serves (page_size max_records) (ground arith) fuel
      0 0 none no_revisions (omega arith) (serves.first _) enough
