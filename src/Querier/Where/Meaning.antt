-- ===== src/Querier/Where/Meaning.antt =====
-- What a `$where` map selects, in SQL's three truth values. An empty map, an empty operator map and
-- a group of such render nothing, and so constrain nothing.
use mathlib.Core.Option
use uql.Base.{String, Bool, true, false, not, List, [], ◌∷◌, Option, none, some, if◌then◌else◌, ◌≡◌}
use uql.Querier.Where.{
  Condition, lt, gt, lte, gte, is_null, not_null, GroupOp, Where, Wheres, empty, field, group, nil,
  cons, joins_or, negates,
}

pub data Truth : Type 0 where
  holds fails unknown : Truth

abbrev pub truth : Bool → Truth
truth true = holds
truth false = fails

abbrev pub is_true : Truth → Bool
is_true holds = true
is_true _ = false

abbrev pub both : Truth → Truth → Truth
both holds t = t
both fails t = fails
both unknown fails = fails
both unknown _ = unknown

abbrev pub either : Truth → Truth → Truth
either holds t = holds
either fails t = t
either unknown holds = holds
either unknown _ = unknown

abbrev pub negated : Truth → Truth
negated holds = fails
negated fails = holds
negated unknown = unknown

-- The order in which an engine compares a column's values.
pub record Order (V : Type 0) : Type 0 where
  pub less : V → V → Bool
  pub irreflexive : (a : V) → less a a ≡ false
  pub transitive : (a b c : V) → less a b ≡ true → less b c ≡ true → less a c ≡ true
  pub connected : (a b : V) → less a b ≡ false → less b a ≡ false → a ≡ b

-- A stored row: the value of each field, `none` a null.
abbrev pub Row : Type 0 → Type 0
Row V = String → Option V

-- The parts of a clause that render nothing drop out of it.
abbrev pub joined : (Truth → Truth → Truth) → Option Truth → Option Truth → Option Truth
joined f none b = b
joined f (some a) none = some a
joined f (some a) (some b) = some (f a b)

abbrev pub true_or_none : Option Truth → Bool
true_or_none none = true
true_or_none (some t) = is_true t

module _ {V : Type 0} (o : Order V) where
  abbrev pub condition_truth : Condition V → Option V → Truth
  condition_truth is_null none = holds
  condition_truth is_null (some x) = fails
  condition_truth not_null none = fails
  condition_truth not_null (some x) = holds
  condition_truth (lt v) (some x) = truth (o.less x v)
  condition_truth (gt v) (some x) = truth (o.less v x)
  condition_truth (lte v) (some x) = truth (not (o.less v x))
  condition_truth (gte v) (some x) = truth (not (o.less x v))
  condition_truth _ none = unknown

  abbrev pub conditions_truth : List (Condition V) → Option V → Option Truth
  conditions_truth [] x = none
  conditions_truth (c ∷ cs) x = joined both (some (condition_truth c x)) (conditions_truth cs x)

  abbrev pub joiner : GroupOp → Truth → Truth → Truth
  joiner op = if joins_or op then either else both

  abbrev pub negation : GroupOp → Truth → Truth
  negation op t = if negates op then negated t else t

  unfoldable mutual
    pub where_truth : Where V → Row V → Option Truth
    where_truth empty row = none
    where_truth (field key ops w) row =
        joined both (conditions_truth ops (row key)) (where_truth w row)
    where_truth (group op ws w) row =
        joined both (Option.map (negation op) (clauses_truth (joiner op) ws row))
          (where_truth w row)

    pub clauses_truth : (Truth → Truth → Truth) → Wheres V → Row V → Option Truth
    clauses_truth f nil row = none
    clauses_truth f (cons w ws) row = joined f (where_truth w row) (clauses_truth f ws row)

  -- Whether the rows that the map selects have `row` among them.
  abbrev pub selects : Where V → Row V → Bool
  selects w row = true_or_none (where_truth w row)
