-- ===== src/Client/Queries.antt =====
-- The search of NSXv3ClientImpl: _get_query and _query of
-- networking_nsxv3/plugins/ml2/drivers/nsxv3/agent/nsxv3_client.py.
use networking_nsx_t.Base.{
  ℕ, String, Bool, true, false, not, ◌&&◌, Option, none, some, List, [], ◌∷◌, ◌++◌, map, ◌==◌,
  if◌then◌else◌, ◌+++◌,
}
use networking_nsx_t.Base.Exec.{Result, ok, raise, http_unsuccessful}

-- `separator.join(texts)`
unfoldable pub join : String → List String → String
join separator [] = ""
join separator (s ∷ []) = s
join separator (s ∷ t ∷ texts) = s +++ separator +++ join separator (t ∷ texts)

abbrev pub parenthesised : String → String
parenthesised s = "( " +++ s +++ " )"

-- The inner function `pattern`. `join_patterns` is a list, or a text, of which `extend` takes the
-- characters one by one; here it is the list of them.
unfoldable pub pattern : String → String → List String → List String → String
unfolding join
pattern operator key patterns join_patterns =
    join (parenthesised operator)
      (map (λ val. key +++ ":" +++ parenthesised val) patterns ++ join_patterns)

-- The body of a search. `cursor` is a number, or the text "" for none.
pub record SearchBody : Type 0 where
  pub query : String
  pub dsl : String
  pub page_size : ℕ
  pub cursor : Option ℕ

-- The characters of a text, each as a text, as `list.extend` takes them.
abbrev pub is_empty : List String → Bool
is_empty [] = true
is_empty (s ∷ texts) = false

module _ (characters : String → List String) where
  unfoldable pub key_patterns : String → List String → List String → List String
  unfolding pattern
  key_patterns key ands ors =
      if not (is_empty ands) && not (is_empty ors)
      then pattern "AND" key ands (characters (pattern "OR" key ors [])) ∷ []
      else if not (is_empty ands)
      then pattern "AND" key ands [] ∷ []
      else if not (is_empty ors)
      then pattern "OR" key ors [] ∷ []
      else []

  unfoldable pub get_query :
      String → String → List String → List String → String → ℕ → Option ℕ → SearchBody
  unfolding key_patterns join
  get_query resource_type key ands ors dsl size start = record {
    query =
        parenthesised (
          join " AND " (
            (if resource_type == ""
              then []
              else ("resource_type: " +++ parenthesised resource_type) ∷ [])
            ++ key_patterns key ands ors))
        +++ " AND _exists_:resource_type";
    dsl = dsl;
    page_size = size;
    cursor = start;
  }

-- `content.get("result").get("results")` of the response, with HttpUnsuccessfulException where
-- one of them is missing
unfoldable pub results_of {ℓ} : {Hit : Type ℓ} → Option (Option (List Hit)) → Result (List Hit)
results_of (some (some hits)) = ok hits
results_of (some none) = raise http_unsuccessful
results_of none = raise http_unsuccessful
