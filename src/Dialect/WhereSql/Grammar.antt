-- ===== src/Dialect/WhereSql/Grammar.antt =====
-- How SQL reads the text of a condition: OR binds weaker than AND, and AND weaker than NOT.
use uql.Base.{String, List, [], ◌∷◌, ◌++◌}
use uql.Querier.Where.{Condition}
use uql.Querier.Where.Meaning.{Truth, both, either, negated, Order, Row, condition_truth}
use uql.Dialect.WhereSql.{Token, condition, and_word, or_word, not_word, in_parens}

pub data Level : Type 0 where
  or_level and_level not_level : Level

-- A text at a level of the grammar, and its truth on a row.
pub data Reads {V : Type 0} (o : Order V) (row : Row V)
    : Level → List (Token V) → Truth → Type 0 where
  reads_condition :
      (key : String) (c : Condition V)
      → Reads o row not_level (condition key c ∷ []) (condition_truth o c (row key))
  reads_parens :
      {t : List (Token V)} {a : Truth}
      → Reads o row or_level t a
      → Reads o row not_level (in_parens t) a
  reads_not :
      {t : List (Token V)} {a : Truth}
      → Reads o row not_level t a
      → Reads o row not_level (not_word ∷ t) (negated a)
  reads_operand :
      {t : List (Token V)} {a : Truth} → Reads o row not_level t a → Reads o row and_level t a
  reads_and :
      {s t : List (Token V)} {a b : Truth}
      → Reads o row not_level s a
      → Reads o row and_level t b
      → Reads o row and_level (s ++ and_word ∷ t) (both a b)
  reads_conjunction :
      {t : List (Token V)} {a : Truth} → Reads o row and_level t a → Reads o row or_level t a
  reads_or :
      {s t : List (Token V)} {a b : Truth}
      → Reads o row and_level s a
      → Reads o row or_level t b
      → Reads o row or_level (s ++ or_word ∷ t) (either a b)
