-- ===== src/Dialect/WhereSql/Truth.antt =====
-- The text of a `$where` map means what the map does.
use mathlib.Core.Option
use uql.Base.{
  none, some, ℕ, suc, ◌≤◌, String, Bool, true, false, ◌&&◌, ◌||◌, List, [], ◌∷◌, Option, some,
  if◌then◌else◌, map, length, ltb, ◌≡◌, refl, sym, ap, ◌∙◌, subst, arith,
}
use uql.Querier.Where.{Condition, Where, Wheres, empty, field, group, nil, cons, joins_or, negates}
use uql.Querier.Where.Meaning.{
  Truth, both, Order, Row, joined, condition_truth, conditions_truth, joiner, negation, where_truth,
  clauses_truth,
}
use uql.Dialect.WhereSql.{
  Token, condition, in_parens, joined_parts, chain_on, chain, parens_if, conjunction, keep,
  where_body, group_body, keys_count, items_count, keys_operand, items_operand, where_parts,
  item_parts, render_where,
}
use uql.Dialect.WhereSql.Grammar.{
  or_level, and_level, not_level, Reads, reads_condition, reads_parens, reads_conjunction,
}
use uql.Dialect.WhereSql.Joins.{
  operand_level, Means, join_truth, Parts, Reads-joined, Reads-chain, keep-Parts,
}
use uql.Dialect.WhereSql.Bodies.{more, lift, where_body-Means, group_body-Means}
use uql.Dialect.WhereSql.Unique.{Reads-unique}
use uql.Dialect.WhereSql.Joins.{is_written, Reads-is_written}

module _ {V : Type 0} (o : Order V) (row : Row V) where
  conditions_Parts :
      (key : String) (ops : List (Condition V))
      → Parts o row not_level false
          (map (λ c. condition key c ∷ []) ops)
          (conditions_truth o ops (row key))
  conditions_Parts key [] = refl
  conditions_Parts key (c ∷ cs) = (
    condition_truth o c (row key),
    conditions_truth o cs (row key),
    reads_condition key c,
    conditions_Parts key cs,
    refl,
  )

  conjunction-Means :
      (operand : Bool) (ps : List (List (Token V))) (x : Option Truth)
      → Parts o row not_level false ps x
      → Means o row (operand_level operand) (conjunction ps) x
  unfolding chain_on
  conjunction-Means operand [] x e =
      subst (λ y. Means o row (operand_level operand) [] y) (sym e) refl
  conjunction-Means operand (p ∷ []) x (a, rest, r, e, f) =
      subst (λ y. Means o row (operand_level operand) p y) (sym (f ∙ ap (joined both (some a)) e))
        (lift o row operand r)
  conjunction-Means operand (p ∷ q ∷ ps) x g =
      let (a, e, r) =
        Reads-chain o row (length (p ∷ q ∷ ps)) false (p ∷ q ∷ ps) x (omega arith) g in
      let inside : Reads o row (operand_level operand) (in_parens (chain false (p ∷ q ∷ ps))) a =
        lift o row operand (reads_parens (reads_conjunction r)) in
      subst (λ y. Means o row (operand_level operand) (conjunction (p ∷ q ∷ ps)) y) (sym e)
        (subst
          (λ b.
            Reads o row (operand_level operand)
              (if b then in_parens (chain false (p ∷ q ∷ ps)) else joined_parts false (p ∷ q ∷ ps))
              a)
          (sym (more o row (length ps))) inside)

  length-keep :
      (t : List (Token V)) (ps : List (List (Token V))) → length (keep t ps) ≤ suc (length ps)
  length-keep [] ps = omega arith
  length-keep (c ∷ cs) ps = omega arith

  length-where_parts : (child : Bool) (w : Where V) → length (where_parts child w) ≤ keys_count w
  unfolding where_parts
  length-where_parts child empty = omega arith
  length-where_parts child (field key ops w) = omega (
    arith,
    length-keep (conjunction (map (λ c. condition key c ∷ []) ops)) (where_parts child w),
    length-where_parts child w,
  )
  length-where_parts child (group op ws w) = omega (
    arith,
    length-keep (group_body child op (item_parts (items_operand child op ws) ws))
        (where_parts child w),
    length-where_parts child w,
  )

  length-item_parts : (child : Bool) (ws : Wheres V) → length (item_parts child ws) ≤ items_count ws
  unfolding where_parts
  length-item_parts child nil = omega arith
  length-item_parts child (cons w ws) = omega (
    arith,
    length-keep (where_body child (where_parts (keys_operand child w) w)) (item_parts child ws),
    length-item_parts child ws,
  )

  many_more : (m n : ℕ) (b : Bool) → m ≤ n → ltb 1 m ≡ true → (ltb 1 n || b) ≡ true
  many_more m n b h k = ground arith

  neither : (a b : Bool) → (a || b) ≡ false → (a ≡ false) × (b ≡ false)
  neither false b h = (refl, h)
  neither true b h = cc

  or_true : (b : Bool) → (b || true) ≡ true
  or_true true = refl
  or_true false = refl

  or_left : (a b : Bool) → a ≡ true → (a || b) ≡ true
  or_left true b h = refl
  or_left false b h = cc

  where_Means :
      (operand : Bool) (w : Where V)
      → Parts o row
          (operand_level (keys_operand operand w))
          false
          (where_parts (keys_operand operand w) w)
          (where_truth o w row)
      → Means o row
          (operand_level operand)
          (where_body operand (where_parts (keys_operand operand w) w))
          (where_truth o w row)
  where_Means operand w h =
      let under = keys_operand operand w in
      where_body-Means o row operand under (where_parts under w) (where_truth o w row)
        (λ e.
          many_more (length (where_parts under w)) (keys_count w) operand
            (length-where_parts under w) e)
        (λ e. (neither (ltb 1 (keys_count w)) operand e).1) h

  mutual
    unfolding where_parts where_truth

    where_parts-Parts :
        (child : Bool) (w : Where V)
        → Parts o row (operand_level child) false (where_parts child w) (where_truth o w row)
    where_parts-Parts child empty = refl
    where_parts-Parts child (field key ops w) =
        keep-Parts o row (operand_level child) false
          (conjunction (map (λ c. condition key c ∷ []) ops)) (where_parts child w)
          (conditions_truth o ops (row key)) (where_truth o w row)
          (conjunction-Means child (map (λ c. condition key c ∷ []) ops)
            (conditions_truth o ops (row key)) (conditions_Parts key ops))
          (where_parts-Parts child w)
    where_parts-Parts child (group op ws w) =
        let under = items_operand child op ws in
        keep-Parts o row (operand_level child) false (group_body child op (item_parts under ws))
          (where_parts child w) (Option.map (negation o op) (clauses_truth o (joiner o op) ws row))
          (where_truth o w row)
          (group_body-Means o row child under op (item_parts under ws)
            (clauses_truth o (joiner o op) ws row)
            (λ e. or_left (ltb 1 (items_count ws) || negates op) child (
              many_more (length (item_parts under ws)) (items_count ws) (negates op)
                (length-item_parts under ws) e))
            (λ e.
              let (x, c) = neither (ltb 1 (items_count ws) || negates op) child e in
              (c, (neither (ltb 1 (items_count ws)) (negates op) x).1))
            (item_parts-Parts under (joins_or op) ws))
          (where_parts-Parts child w)

    item_parts-Parts :
        (child by_or : Bool) (ws : Wheres V)
        → Parts o row
            (operand_level child)
            by_or
            (item_parts child ws)
            (clauses_truth o (join_truth by_or) ws row)
    item_parts-Parts child by_or nil = refl
    item_parts-Parts child by_or (cons w ws) =
        let under = keys_operand child w in
        keep-Parts o row (operand_level child) by_or (where_body child (where_parts under w))
          (item_parts child ws) (where_truth o w row) (clauses_truth o (join_truth by_or) ws row)
          (where_Means child w (where_parts-Parts under w)) (item_parts-Parts child by_or ws)

  unparenthesized :
      (b : Bool) {t : List (Token V)} {a : Truth}
      → Reads o row and_level t a
      → Reads o row and_level (parens_if (b && false) t) a
  unparenthesized true r = r
  unparenthesized false r = r

  and_body-Means :
      (ps : List (List (Token V))) (x : Option Truth)
      → Parts o row not_level false ps x
      → Means o row and_level (where_body false ps) x
  and_body-Means [] x e = subst (λ y. Means o row and_level [] y) (sym e) refl
  and_body-Means (p ∷ ps) x g =
      let (a, e, r) = Reads-joined o row false p ps x g in
      subst (λ y. Means o row and_level (where_body false (p ∷ ps)) y) (sym e)
        (unparenthesized (ltb 1 (length (p ∷ ps))) r)

  only_truth :
      (x : Option Truth) (t : List (Token V))
      → Means o row or_level t x
      → (b : Truth) → Reads o row or_level t b
      → x ≡ some b
  only_truth none t e b r =
      let never : false ≡ true =
        subst (λ u. is_written o row u ≡ true) e (Reads-is_written o row r) in
      cc
  only_truth (some a) t r b q = ap some (Reads-unique o row r q)

  -- What a map writes is read with the truth that the map has, on any row: as a condition of its own, as an operand
  -- where it is asked to be one, and among the operands of an AND that it is written after. SQL reads no
  -- other truth in it, and it writes nothing where the map constrains nothing.
  pub render_where-where_truth :
      (w : Where V)
      → Means o row or_level (render_where false false w) (where_truth o w row)
        × Means o row not_level (render_where true false w) (where_truth o w row)
        × Means o row and_level (render_where false true w) (where_truth o w row)
        × ((b : Truth)
            → Reads o row or_level (render_where false false w) b
            → where_truth o w row ≡ some b)
  unfolding render_where
  render_where-where_truth w =
      let plain = where_Means false w (where_parts-Parts (keys_operand false w) w) in
      (
        plain,
        where_Means true w (where_parts-Parts (keys_operand true w) w),
        subst
            (λ b. Means o row and_level (where_body false (where_parts b w)) (where_truth o w row))
            (sym (or_true (ltb 1 (keys_count w))))
            (and_body-Means (where_parts true w) (where_truth o w row) (where_parts-Parts true w)),
        only_truth (where_truth o w row) (where_body false (where_parts (keys_operand false w) w))
            plain,
      )
