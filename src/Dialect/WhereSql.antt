-- ===== src/Dialect/WhereSql.antt =====
-- How packages/orm/src/dialect/abstractSqlDialect.ts writes a `$where` map: renderWhere, compare,
-- compareLogicalOperator, conjunction and chain. A condition on a column, whose text an engine reads as one
-- operand, is one token.
pub mod Grammar
pub mod Fuel
pub mod Depth
pub mod Unique
pub mod Joins
pub mod Bodies
pub mod Truth
use uql.Base.{
  ℕ, zero, suc, ◌+◌, ◌/◌, String, Bool, true, false, ◌&&◌, ◌||◌, List, [], ◌∷◌, ◌++◌, if◌then◌else◌,
  map, length, take, leb, ltb,
}
use uql.Querier.Where.{
  Condition, GroupOp, Where, Wheres, empty, field, group, nil, cons, joins_or, negates,
}

pub data Token (V : Type 0) : Type 0 where
  condition : String → Condition V → Token V
  and_word or_word not_word open_paren close_paren : Token V

-- `xs.slice(n)`
abbrev pub drop : {A : Type 0} → ℕ → List A → List A
drop zero xs = xs
drop (suc n) [] = []
drop (suc n) (x ∷ xs) = drop n xs

-- `CHAIN_WIDTH`
abbrev pub chain_width : ℕ
chain_width = 16

module _ {V : Type 0} where
  abbrev pub in_parens : List (Token V) → List (Token V)
  in_parens body = open_paren ∷ body ++ close_paren ∷ []

  abbrev pub join_word : Bool → Token V
  join_word by_or = if by_or then or_word else and_word

  -- `parts.join(...)`
  abbrev pub joined_parts : Bool → List (List (Token V)) → List (Token V)
  joined_parts by_or [] = []
  joined_parts by_or (p ∷ []) = p
  joined_parts by_or (p ∷ q ∷ ps) = p ++ join_word by_or ∷ joined_parts by_or (q ∷ ps)

  -- `chain`, on fuel for its halvings.
  unfoldable pub chain_on : ℕ → Bool → List (List (Token V)) → List (Token V)
  chain_on zero by_or parts = joined_parts by_or parts
  chain_on (suc fuel) by_or parts =
      let half = (length parts + 1) / 2 in
      let first = chain_on fuel by_or (take half parts) in
      let second = chain_on fuel by_or (drop half parts) in
      if leb (length parts) chain_width
      then joined_parts by_or parts
      else in_parens first ++ join_word by_or ∷ in_parens second

  abbrev pub chain : Bool → List (List (Token V)) → List (Token V)
  chain by_or parts = chain_on (length parts) by_or parts

  abbrev pub parens_if : Bool → List (Token V) → List (Token V)
  parens_if b body = if b then in_parens body else body

  -- `conjunction` of a field's conditions.
  abbrev pub conjunction : List (List (Token V)) → List (Token V)
  conjunction parts =
      if ltb 1 (length parts) then in_parens (chain false parts) else joined_parts false parts

  -- `.filter((part) => part !== '')`, one part at a time.
  abbrev pub keep : List (Token V) → List (List (Token V)) → List (List (Token V))
  keep [] parts = parts
  keep (t ∷ ts) parts = (t ∷ ts) ∷ parts

  abbrev pub negated_if : Bool → List (Token V) → List (Token V)
  negated_if negate body = if negate then not_word ∷ body else body

  -- What `renderWhere` makes of a map's parts.
  abbrev pub where_body : Bool → List (List (Token V)) → List (Token V)
  where_body operand [] = []
  where_body operand (p ∷ ps) =
      parens_if (ltb 1 (length (p ∷ ps)) && operand) (joined_parts false (p ∷ ps))

  -- What `compareLogicalOperator` makes of a group's parts.
  abbrev pub group_body : Bool → GroupOp → List (List (Token V)) → List (Token V)
  group_body operand op [] = []
  group_body operand op (p ∷ ps) = negated_if (negates op) (
      parens_if (ltb 1 (length (p ∷ ps)) && (operand || negates op)) (chain (joins_or op) (p ∷ ps)))

  abbrev pub keys_count : Where V → ℕ
  keys_count empty = 0
  keys_count (field key ops w) = suc (keys_count w)
  keys_count (group op ws w) = suc (keys_count w)

  abbrev pub items_count : Wheres V → ℕ
  items_count nil = 0
  items_count (cons w ws) = suc (items_count ws)

  -- Whether what a map's keys write is an operand: of the AND between them, or of what the map is an operand of.
  abbrev pub keys_operand : Bool → Where V → Bool
  keys_operand operand w = ltb 1 (keys_count w) || operand

  abbrev pub items_operand : Bool → GroupOp → Wheres V → Bool
  items_operand operand op ws = ltb 1 (items_count ws) || negates op || operand

  unfoldable mutual
    -- The parts of a map, one for each key that writes anything.
    pub where_parts : Bool → Where V → List (List (Token V))
    where_parts operand empty = []
    where_parts operand (field key ops w) =
        keep (conjunction (map (λ c. condition key c ∷ []) ops)) (where_parts operand w)
    where_parts operand (group op ws w) =
        keep (group_body operand op (item_parts (items_operand operand op ws) ws))
          (where_parts operand w)

    pub item_parts : Bool → Wheres V → List (List (Token V))
    item_parts operand nil = []
    item_parts operand (cons w ws) =
        keep (where_body operand (where_parts (keys_operand operand w) w)) (item_parts operand ws)

  -- `renderWhere`, less the word it writes before: `after_and` where that word is AND.
  unfoldable pub render_where : Bool → Bool → Where V → List (Token V)
  render_where operand after_and w =
      where_body operand (where_parts (keys_operand (operand || after_and) w) w)
