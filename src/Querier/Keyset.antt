-- ===== src/Querier/Keyset.antt =====
-- packages/orm/src/querier/keyset.ts: the query that a page reads, and the page of its rows.
pub mod Order
pub mod Prefix
pub mod Identifies
pub mod Total
pub mod Spelling
pub mod Clauses
pub mod Refinement
pub mod Read
pub mod Paging
pub mod Pages
pub mod Before
use mathlib.Core.Bool.{xor}
use uql.Base.{
  ℕ, zero, suc, ◌+◌, String, Bool, true, false, ◌&&◌, ◌||◌, not, List, [], ◌∷◌, ◌++◌, Option, none,
  some, if◌then◌else◌, ◌==◌, nat_eq, string_eq, any, all, take, length, filter, reverse, map, ltb,
}
use uql.Result.{Result, ok, err, usage, ◌>>=◌, ◌>>◌, guard}
use uql.Querier.Where.{
  Condition, lt, gt, lte, gte, is_null, not_null, Where, Wheres, empty, wheres, where_with,
  where_any_of, where_and,
}

-- A resolved sort key of a page: `PageKey`, with the `key` and `nullable` of `CursorKey`.
pub record PageKey : Type 0 where
  pub key : String
  pub desc : Bool
  pub nulls_first : Bool
  pub placed : Bool
  pub nullable : Bool

abbrev pub inverted : PageKey → PageKey
inverted k = record k { desc = not k.desc; nulls_first = not k.nulls_first }

-- A `$sort` direction as `QuerySortDirection` spells it.
pub data Direction : Type 0 where
  asc desc asc_nulls_first asc_nulls_last desc_nulls_first desc_nulls_last : Direction

unfoldable pub spelling : PageKey → Direction
spelling k =
    if not k.placed
    then (if k.desc then desc else asc)
    else if k.desc
    then (if k.nulls_first then desc_nulls_first else desc_nulls_last)
    else if k.nulls_first
    then asc_nulls_first
    else asc_nulls_last

-- `SortDirection`, and `parseSortDirection` of packages/orm/src/util/query.util.ts on a direction
-- that `QuerySortDirection` names.
pub record SortDirection : Type 0 where
  pub is_desc : Bool
  pub nulls : Option Bool

unfoldable pub parse_sort_direction : Direction → SortDirection
parse_sort_direction asc = record { is_desc = false; nulls = none }
parse_sort_direction desc = record { is_desc = true; nulls = none }
parse_sort_direction asc_nulls_first = record { is_desc = false; nulls = some true }
parse_sort_direction asc_nulls_last = record { is_desc = false; nulls = some false }
parse_sort_direction desc_nulls_first = record { is_desc = true; nulls = some true }
parse_sort_direction desc_nulls_last = record { is_desc = true; nulls = some false }

-- The key that the loop of `pageOrder` returns for a field that it took: `nulls` is `some true` for
-- nulls first.
unfoldable pub page_key : Bool → String → Bool → Direction → PageKey
unfolding parse_sort_direction
page_key nulls_sort_lowest key nullable direction =
    let d = parse_sort_direction direction in
    record {
      key = key;
      desc = d.is_desc;
      nulls_first = elim d.nulls [ some first ↦ first | none ↦ xor d.is_desc nulls_sort_lowest ];
      placed = elim d.nulls [ some first ↦ true | none ↦ false ];
      nullable = nullable;
    }

-- The keys that `pageOrder` resolves a `$sort` to, each of whose fields it takes: whether a field is
-- nullable, and whether the engine sorts nulls lowest, are given.
unfoldable pub page_order : Bool → (String → Bool) → List (String × Direction) → List PageKey
unfolding page_key
page_order nulls_sort_lowest nullable sort =
    map (λ s. page_key nulls_sort_lowest s.0 (nullable s.0) s.1) sort

-- `KeysetLevel`: no bound matches every row.
pub record KeysetLevel (V : Type 0) : Type 0 where
  pub bound : Option (Where V)
  pub alternatives : List (Where V)

module _ {V : Type 0} where
  abbrev pub nulls_ahead : PageKey → List (Where V)
  nulls_ahead k = if k.nullable && not k.nulls_first then where_with k.key is_null ∷ [] else []

  -- `alternatives.length === 1 ? alternatives[0] : whereAnyOf(alternatives)`
  abbrev pub any_of : List (Where V) → Where V
  any_of (w ∷ []) = w
  any_of ws = where_any_of ws

  unfoldable pub past_of : PageKey → Option V → List (Where V)
  past_of k none = if k.nulls_first then where_with k.key not_null ∷ [] else []
  past_of k (some v) = where_with k.key (if k.desc then lt v else gt v) ∷ nulls_ahead k

  unfoldable pub at_or_past_of : PageKey → Option V → Option (Where V)
  at_or_past_of k none = if k.nulls_first then none else some (where_with k.key is_null)
  at_or_past_of k (some v) =
      some (any_of (where_with k.key (if k.desc then lte v else gte v) ∷ nulls_ahead k))

  unfoldable pub nested : KeysetLevel V → List (Where V)
  nested level = elim level.bound [
    | some b ↦ where_and empty (wheres (b ∷ any_of level.alternatives ∷ [])) ∷ []
    | none ↦ level.alternatives
  ]

  abbrev bound_of : List PageKey → PageKey → Option V → Option (Where V)
  bound_of [] k v = none
  bound_of (next ∷ keys) k v = at_or_past_of k v

  -- The `reduceRight` of `keysetClauses`; a cursor holds a value for each key.
  unfoldable pub keyset_level : List PageKey → List (Option V) → KeysetLevel V
  keyset_level (k ∷ keys) (v ∷ values) = record {
    bound = bound_of keys k v;
    alternatives = past_of k v ++ nested (keyset_level keys values);
  }
  keyset_level _ _ = record { bound = none; alternatives = [] }

  -- `bound ? [bound, anyOf(alternatives)] : [anyOf(alternatives)]`
  abbrev pub level_clauses : Option (Where V) → List (Where V) → List (Where V)
  level_clauses none alternatives = any_of alternatives ∷ []
  level_clauses (some b) alternatives = b ∷ any_of alternatives ∷ []

  unfoldable pub keyset_clauses : List PageKey → List (Option V) → List (Where V)
  keyset_clauses keys values =
      let level = keyset_level keys values in level_clauses level.bound level.alternatives
