-- ===== src/Revisions/Examples.antt =====
-- Three rows, and the queries that page through them.
use mathlib.Core.List.{filter, not-mem-nil}
use native.Mathlib.Decide.{ℕ_discrete}
use networking_nsx_t.Base.{
  ℕ, ◌<◌, ◌≡◌, refl, String, none, some, List, [], ◌∷◌, arith, length, ◌==◌, if◌then◌else◌,
}
use networking_nsx_t.Base.Exec.{ok}
use networking_nsx_t.Base.Dict.{Dict}
use networking_nsx_t.Revisions.{Row, revision_tuples, get_revisions}
use networking_nsx_t.Revisions.Sorted.{sort_rows, sort_rows-OrdersByCreation}
use networking_nsx_t.Revisions.Adding.{IsKeyed, IsKeyed-cons}
use networking_nsx_t.Revisions.Queries.{Assumptions, HasRevisions}
use networking_nsx_t.Revisions.Complete.{get_revisions_complete}
use networking_nsx_t.Revisions.Stuck.{get_revisions_stuck}

abbrev row : String → ℕ → ℕ → Row
row id revision created_at = record { id = id; revision = revision; created_at = created_at }

abbrev table : List Row
table = row "b" 7 20 ∷ row "a" 3 10 ∷ row "c" 5 30 ∷ []

abbrev revision_of : String → ℕ
revision_of k = if k == "a" then 3 else if k == "b" then 7 else 5

table-IsKeyed : IsKeyed revision_of table
table-IsKeyed = IsKeyed-cons revision_of (row "b" 7 20) _ refl (
    IsKeyed-cons revision_of (row "a" 3 10) _ refl
      (IsKeyed-cons revision_of (row "c" 5 30) [] refl (λ r m. absurd (not-mem-nil m))))

few_at_once : (time : ℕ) → length (filter (λ (r : Row). ℕ_discrete r.created_at time) table) < 2
few_at_once time = ground arith

assumptions : Assumptions sort_rows table 2 revision_of
assumptions = record {
  database = sort_rows-OrdersByCreation;
  keyed = table-IsKeyed;
  few = few_at_once;
}

get_revisions_complete_example :
    (rev : Dict String) × (get_revisions (revision_tuples sort_rows table) 2 4 ≡ some (ok rev))
    × HasRevisions table rev
get_revisions_complete_example = get_revisions_complete sort_rows table 2 revision_of assumptions

-- Two rows that were created at one time, and a limit of two
abbrev batch : List Row
batch = row "a" 3 10 ∷ row "b" 7 10 ∷ []

get_revisions_stuck_example : get_revisions (revision_tuples sort_rows batch) 2 1000 ≡ none
unfolding ℕ_discrete
get_revisions_stuck_example =
    get_revisions_stuck sort_rows batch 2 10 sort_rows-OrdersByCreation (omega arith) (omega arith)
      1000
