-- ===== src/Querier/Keyset/Prefix.antt =====
-- `totalPrefix`: the first part of a page's order that no two rows tie on, by the unique columns that
-- the entity declares.
use uql.Base.{
  String, Bool, false, ◌&&◌, ◌||◌, not, List, [], ◌∷◌, ◌++◌, Option, none, some, if◌then◌else◌,
  ◌==◌, string_eq, any, all, filter, flat_map, length, ltb,
}
use mathlib.Core.Option
use uql.Result.{Result, ok, err, usage}
use uql.Querier.Keyset.{PageKey}

-- What the metadata says of a field: whether it is declared nullable, and is an index or unique of itself.
pub record PageField : Type 0 where
  pub key : String
  pub nullable : Bool
  pub is_index : Bool
  pub is_unique : Bool

-- An index: the column of each of its entries, where it has one, and whether a `where` makes it partial.
pub record PageIndex : Type 0 where
  pub columns : List (Option String)
  pub is_unique : Bool
  pub is_partial : Bool

pub record PageMeta : Type 0 where
  pub ids : List String
  pub fields : List PageField
  pub indexes : List PageIndex

-- `declaredIndexes` of packages/orm/src/util/ddlExpression.util.ts.
abbrev pub field_index : PageField → List PageIndex
field_index f =
    if f.is_index || f.is_unique
    then record { columns = some f.key ∷ []; is_unique = f.is_unique; is_partial = false } ∷ []
    else []

abbrev pub declared_indexes : PageMeta → List PageIndex
declared_indexes meta = flat_map field_index meta.fields ++ meta.indexes

-- `notNull`, by the field of the key.
abbrev pub required_in : List PageField → String → Bool
required_in [] key = false
required_in (f ∷ fs) key =
    let later = required_in fs key in if f.key == key then not f.nullable else later

abbrev pub not_null : PageMeta → String → Bool
not_null meta key = required_in meta.fields key

-- The columns of an index, where every entry has one and each is non-null.
abbrev pub required_columns : PageMeta → List (Option String) → Option (List String)
required_columns meta [] = some []
required_columns meta (none ∷ cs) = none
required_columns meta (some c ∷ cs) =
    let rest = required_columns meta cs in
    if not_null meta c then Option.map (λ l. c ∷ l) rest else none

abbrev pub listed : Option (List String) → List (List String)
listed none = []
listed (some columns) = columns ∷ []

abbrev pub unique_columns : PageMeta → PageIndex → List (List String)
unique_columns meta index =
    if index.is_unique && not index.is_partial
    then listed (required_columns meta index.columns)
    else []

unfoldable pub uniques : PageMeta → List (List String)
uniques meta =
    filter (λ columns. ltb 0 (length columns))
      (meta.ids ∷ flat_map (unique_columns meta) (declared_indexes meta))

-- The loop: the shortest prefix that covers the columns of one of `uniques`.
unfoldable pub covers : List String → List String → Bool
covers seen columns = all (λ c. any (λ s. c == s) seen) columns

unfoldable pub total_from :
    List (List String) → List String → List PageKey → List PageKey → Result (List PageKey)
total_from uniques seen before [] = err usage
total_from uniques seen before (k ∷ ks) =
    let seen' = k.key ∷ seen in
    let later = total_from uniques seen' (before ++ k ∷ []) ks in
    if any (covers seen') uniques then ok (before ++ k ∷ []) else later

unfoldable pub total_prefix : PageMeta → List PageKey → Result (List PageKey)
unfolding total_from covers uniques
total_prefix meta order = total_from (uniques meta) [] [] order
