-- ===== src/Querier/Where.antt =====
-- `$where` maps: the builders of packages/orm/src/util/query.util.ts, the grouping operators of
-- packages/orm/src/dialect/operators.ts, and what a map selects. A map is the list of its entries;
-- an entry is a field with its operators, or a group.
pub mod Meaning
pub mod Laws
use mathlib.Core.Option
use uql.Base.{
  ℕ, String, Bool, true, false, ◌&&◌, ◌||◌, not, List, [], ◌∷◌, ◌++◌, Option, none, some,
  if◌then◌else◌, ◌≡◌, map,
}

-- `null` is `is_null` under `$eq`, and `$ne: null` is `not_null`.
pub data Condition (V : Type 0) : Type 0 where
  lt gt lte gte : V → Condition V
  is_null not_null : Condition V

pub data GroupOp : Type 0 where
  op_and op_or op_not op_nor : GroupOp

mutual
  pub data Where (V : Type 0) : Type 0 where
    empty : Where V
    field : String → List (Condition V) → Where V → Where V
    group : GroupOp → Wheres V → Where V → Where V

  pub data Wheres (V : Type 0) : Type 0 where
    nil : Wheres V
    cons : Where V → Wheres V → Wheres V

-- Whether the operator joins its clauses by OR, and whether it negates them: `GROUP_OPS`.
abbrev pub joins_or : GroupOp → Bool
joins_or op_and = false
joins_or op_or = true
joins_or op_not = false
joins_or op_nor = true

abbrev pub negates : GroupOp → Bool
negates op_and = false
negates op_or = false
negates op_not = true
negates op_nor = true

module _ {V : Type 0} where
  abbrev pub wheres : List (Where V) → Wheres V
  wheres [] = nil
  wheres (w ∷ ws) = cons w (wheres ws)

  abbrev append : Wheres V → Wheres V → Wheres V
  append nil vs = vs
  append (cons w ws) vs = cons w (append ws vs)

  -- `whereWith(key, value)`, with no map to add to.
  abbrev pub where_with : String → Condition V → Where V
  where_with key value = field key (value ∷ []) empty

  abbrev pub where_any_of : List (Where V) → Where V
  where_any_of clauses = group op_or (wheres clauses) empty

  -- `{ ...where, $and: [...(where.$and ?? []), ...clauses] }`: a map holds one `$and`.
  unfoldable pub where_and : Where V → Wheres V → Where V
  where_and empty clauses = group op_and clauses empty
  where_and (field key ops w) clauses = field key ops (where_and w clauses)
  where_and (group op_and ws w) clauses = group op_and (append ws clauses) w
  where_and (group op ws w) clauses = group op ws (where_and w clauses)

  abbrev has_keys : List (Condition V) → Bool
  has_keys [] = false
  has_keys (c ∷ cs) = true

  -- `namesRows`: whether the map constrains anything.
  unfoldable mutual
    pub names_rows : Where V → Bool
    names_rows empty = false
    names_rows (field key ops w) = has_keys ops || names_rows w
    names_rows (group op ws w) = some_names_rows ws || names_rows w

    pub some_names_rows : Wheres V → Bool
    some_names_rows nil = false
    some_names_rows (cons w ws) = names_rows w || some_names_rows ws
