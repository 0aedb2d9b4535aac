-- ===== src/Querier/Where/Laws.antt =====
-- What the builders of `$where` maps and `namesRows` promise of the rows that a map selects.
use mathlib.Core.Option
use mathlib.Core.Bool.{and_assoc}
use uql.Base.{
  is_some, Bool, true, false, ◌&&◌, ◌||◌, List, [], ◌∷◌, Option, none, some, ◌≡◌, refl, arith, ◌∙◌,
  ap, sym,
}
use uql.Querier.Where.{
  Condition, op_and, Where, Wheres, empty, field, group, nil, cons, append, where_and, names_rows,
  some_names_rows, has_keys,
}
use uql.Querier.Where.Meaning.{
  Truth, is_true, both, either, Order, Row, joined, true_or_none, condition_truth, conditions_truth,
  joiner, negation, where_truth, clauses_truth, selects,
}

is_some-joined :
    (f : Truth → Truth → Truth) (a b : Option Truth)
    → is_some (joined f a b) ≡ (is_some a || is_some b)
is_some-joined f none b = refl
is_some-joined f (some a) none = refl
is_some-joined f (some a) (some b) = refl

is_some-map : (f : Truth → Truth) (a : Option Truth) → is_some (Option.map f a) ≡ is_some a
is_some-map f none = refl
is_some-map f (some a) = refl

pub true_or_none-both :
    (a b : Option Truth) → true_or_none (joined both a b) ≡ (true_or_none a && true_or_none b)
true_or_none-both a b = ground arith

true_or_none-map_id : (a : Option Truth) → true_or_none (Option.map (λ t. t) a) ≡ true_or_none a
true_or_none-map_id none = refl
true_or_none-map_id (some a) = refl

pub and_true : (b : Bool) → (b && true) ≡ b
and_true true = refl
and_true false = refl

and_swap : (a b c : Bool) → (a && b && c) ≡ (a && c && b)
and_swap a b c = ground arith

-- An entry before a map that `whereAnd` adds to.
entry_and :
    (e w' w clauses : Option Truth)
    → true_or_none w' ≡ (true_or_none w && true_or_none clauses)
    → true_or_none (joined both e w') ≡ (true_or_none (joined both e w) && true_or_none clauses)
entry_and e w' w clauses h =
    true_or_none-both e w'
    ∙ ap (λ b. true_or_none e && b) h
    ∙ sym (and_assoc (true_or_none e) (true_or_none w) (true_or_none clauses))
    ∙ ap (λ b. b && true_or_none clauses) (sym (true_or_none-both e w))

-- An `$and` entry.
group_entry :
    (a w : Option Truth)
    → true_or_none (joined both (Option.map (λ t. t) a) w) ≡ (true_or_none a && true_or_none w)
group_entry a w =
    true_or_none-both (Option.map (λ t. t) a) w
    ∙ ap (λ b. b && true_or_none w) (true_or_none-map_id a)

pub is_true-either : (a b : Truth) → is_true (either a b) ≡ (is_true a || is_true b)
is_true-either a b = ground arith

module _ {V : Type 0} (o : Order V) (row : Row V) where
  is_some-conditions :
      (ops : List (Condition V)) (x : Option V) → is_some (conditions_truth o ops x) ≡ has_keys ops
  is_some-conditions [] x = refl
  is_some-conditions (c ∷ cs) x =
      is_some-joined both (some (condition_truth o c x)) (conditions_truth o cs x)

  mutual
    unfolding where_truth names_rows

    is_some-where : (w : Where V) → is_some (where_truth o w row) ≡ names_rows w
    is_some-where empty = refl
    is_some-where (field key ops w) =
        is_some-joined both (conditions_truth o ops (row key)) (where_truth o w row)
        ∙ (rw (is_some-conditions ops (row key), is_some-where w))
    is_some-where (group op ws w) =
        is_some-joined both (Option.map (negation o op) (clauses_truth o (joiner o op) ws row))
          (where_truth o w row)
        ∙ (rw (
          is_some-map (negation o op) (clauses_truth o (joiner o op) ws row),
          is_some-clauses (joiner o op) ws,
          is_some-where w,
        ))

    is_some-clauses :
        (f : Truth → Truth → Truth) (ws : Wheres V)
        → is_some (clauses_truth o f ws row) ≡ some_names_rows ws
    is_some-clauses f nil = refl
    is_some-clauses f (cons w ws) =
        is_some-joined f (where_truth o w row) (clauses_truth o f ws row)
        ∙ (rw (is_some-where w, is_some-clauses f ws))

  -- A map constrains a statement exactly where `namesRows` says that it names rows, whatever the row.
  pub names_rows-where_truth : (w : Where V) → names_rows w ≡ is_some (where_truth o w row)
  names_rows-where_truth w = sym (is_some-where w)

  true_or_none-append :
      (ws vs : Wheres V)
      → true_or_none (clauses_truth o both (append ws vs) row)
        ≡ (true_or_none (clauses_truth o both ws row) && true_or_none (clauses_truth o both vs row))
  unfolding where_truth
  true_or_none-append nil vs = refl
  true_or_none-append (cons w ws) vs =
      entry_and (where_truth o w row) (clauses_truth o both (append ws vs) row)
        (clauses_truth o both ws row) (clauses_truth o both vs row) (true_or_none-append ws vs)

  -- The rows that the map and the clauses all select, and no other, are selected by `whereAnd`.
  pub selects-where_and :
      (w : Where V) (clauses : Wheres V)
      → selects o (where_and w clauses) row
        ≡ (selects o w row && true_or_none (clauses_truth o both clauses row))
  unfolding where_truth where_and
  selects-where_and empty clauses = group_entry (clauses_truth o both clauses row) none ∙ and_true _
  selects-where_and (field key ops w) clauses =
      entry_and (conditions_truth o ops (row key)) (where_truth o (where_and w clauses) row)
        (where_truth o w row) (clauses_truth o both clauses row) (selects-where_and w clauses)
  selects-where_and (group op_and ws w) clauses =
      group_entry (clauses_truth o both (append ws clauses) row) (where_truth o w row)
      ∙ ap (λ b. b && true_or_none (where_truth o w row)) (true_or_none-append ws clauses)
      ∙ and_swap (true_or_none (clauses_truth o both ws row))
          (true_or_none (clauses_truth o both clauses row)) _
      ∙ ap (λ b. b && true_or_none (clauses_truth o both clauses row))
          (sym (group_entry (clauses_truth o both ws row) (where_truth o w row)))
  selects-where_and (group op ws w) clauses =
      entry_and (Option.map (negation o op) (clauses_truth o (joiner o op) ws row))
        (where_truth o (where_and w clauses) row) (where_truth o w row)
        (clauses_truth o both clauses row) (selects-where_and w clauses)
