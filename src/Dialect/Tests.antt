-- ===== src/Dialect/Tests.antt =====
-- Runs of the LIKE operators and of the literal writers, and the theorems at concrete inputs.
use uql.Base.{ℕ, zero, suc, List, Has, ltb, arith}
use uql.Querier.Where.{gt, lt, op_or, op_not, Where, empty, field, group, nil, cons}
use uql.Querier.Where.Meaning.{Truth, Order, Row, where_truth}
use uql.Dialect.WhereSql.{
  condition, and_word, or_word, not_word, open_paren, close_paren, render_where, chain,
}
use uql.Dialect.WhereSql.Grammar.{Reads, or_level, and_level, not_level}
use uql.Dialect.WhereSql.Joins.{Means}
use uql.Dialect.WhereSql.Depth.{Nests, chain-Nests}
use uql.Dialect.WhereSql.Truth.{render_where-where_truth}
use uql.Base.{true, false, [], ◌∷◌, ◌++◌, none, some, ◌≡◌, refl, ◌↔◌, flat_map}
use uql.Text.{Text, codes}
use uql.Result.{ok}
use uql.Dialect.Like.{
  starts_with, like_tokens, like_pattern, like_regex, like_regex_parts, pattern_of, like_literal,
}
use uql.Dialect.Like.Matching.{Matches}
use uql.Dialect.Like.Literal.{pattern_of-Finds}
use uql.Dialect.Like.Literal
use uql.Dialect.Like.Pattern.{like_pattern-Matches}
use uql.Dialect.Like.Regex
use uql.Dialect.Like.Regex.{like_regex-Finds}
use uql.Dialect.SqlLiteral.{
  ansi_string_literal, mysql_string_literal, mysql_body, mysql_escape, escape_single_quotes,
  bytes_to_hex, utc_timestamp, escape_ansi_sql_literal, JsValue, text, number, array, cons, nil,
  absent, bytes, date, escape_pg_sql_literal,
}
use uql.Dialect.SqlLiteral.Scan.{
  ansi_read, ansi_read-ansi_string_literal, mysql_read, mysql_read-mysql_string_literal,
}
use uql.Dialect.SqlLiteral.Values.{texts, ReadsList, escape_ansi_sql_literal-ReadsList}

like_literal_run : like_literal (codes "50%_[a]") ≡ codes "50\\%\\_\\[a]"
unfolding like_literal
like_literal_run = refl

like_pattern_run : like_pattern (codes "a[b]\\_%") ≡ some (codes "a\\[b]\\_%")
unfolding like_pattern like_tokens flat_map
like_pattern_run = refl

like_pattern_refused : like_pattern (codes "John\\") ≡ none
unfolding like_pattern like_tokens
like_pattern_refused = refl

like_regex_run : like_regex (codes "%a.b_c\\%%") ≡ codes "a\\.b[\\s\\S]c%"
unfolding like_regex flat_map
like_regex_run = refl

like_regex_anchored : like_regex (codes "a%b") ≡ codes "^a[\\s\\S]*b\\z"
unfolding like_regex flat_map
like_regex_anchored = refl

mysql_string_literal_run : mysql_string_literal (codes "it's\\") ≡ codes "'it\\'s\\\\'"
unfolding mysql_string_literal mysql_body mysql_escape
mysql_string_literal_run = refl

abbrev some_values : JsValue
some_values = array (
    cons (text (codes "o'k")) (
      cons (array (cons (number true (codes "1")) (cons absent nil)))
        (cons (bytes (10 ∷ 255 ∷ [])) nil)))

escape_values_run : escape_ansi_sql_literal some_values ≡ ok (codes "'o''k', (1, NULL), X'0aff'")
unfolding escape_ansi_sql_literal ansi_string_literal escape_single_quotes bytes_to_hex
escape_values_run = refl

escape_date_run :
    escape_pg_sql_literal (date (some (codes "2024-01-02T03:04:05.678Z")))
    ≡ ok (codes "'2024-01-02 03:04:05.678+00'")
unfolding escape_pg_sql_literal ansi_string_literal escape_single_quotes utc_timestamp
escape_date_run = refl

pattern_of-Finds_example :
    Matches (like_tokens (codes "50\\%%")) (codes "50% off")
    ↔ Literal.Finds starts_with (codes "50%") (codes "50% off")
unfolding pattern_of like_literal
pattern_of-Finds_example =
    pattern_of-Finds starts_with (codes "50%") (codes "50% off") (codes "50\\%%") tt refl

like_pattern-Matches_example :
    Matches (like_tokens (codes "a\\[b]\\_%")) (codes "a[b]_c")
    ↔ Matches (like_tokens (codes "a[b]\\_%")) (codes "a[b]_c")
like_pattern-Matches_example =
    like_pattern-Matches (codes "a[b]\\_%") (codes "a\\[b]\\_%") (codes "a[b]_c") like_pattern_run

like_regex-Finds_example :
    Regex.Finds (like_regex_parts (codes "%a_")) (codes "bad")
    ↔ Matches (like_tokens (codes "%a_")) (codes "bad")
like_regex-Finds_example = like_regex-Finds (codes "%a_") (codes "bad")

ansi_read-ansi_string_literal_example :
    ansi_read (ansi_string_literal (codes "'; DROP") ++ codes " OR 1")
    ≡ some (codes "'; DROP", codes " OR 1")
ansi_read-ansi_string_literal_example =
    ansi_read-ansi_string_literal (codes "'; DROP") (codes " OR 1") refl

mysql_read-mysql_string_literal_example :
    mysql_read (mysql_string_literal (codes "\\'; DROP") ++ codes " OR 1")
    ≡ some (codes "\\'; DROP", codes " OR 1")
mysql_read-mysql_string_literal_example =
    mysql_read-mysql_string_literal (codes "\\'; DROP") (codes " OR 1") refl

escape_ansi_sql_literal-ReadsList_example :
    (t : Text) × (escape_ansi_sql_literal (array (texts (codes "o'k" ∷ codes ", " ∷ []))) ≡ ok t)
    × ReadsList (t ++ codes ")") (codes "o'k" ∷ codes ", " ∷ []) (codes ")")
escape_ansi_sql_literal-ReadsList_example =
    escape_ansi_sql_literal-ReadsList (codes "o'k") (codes ", " ∷ []) (codes ")") refl

numbers : Order ℕ
numbers = record {
  less = ltb;
  irreflexive = λ a. ground arith;
  transitive = λ a b c h k. ground arith;
  connected = λ a b h k. ground arith;
}

abbrev rank_above : ℕ → Where ℕ
rank_above n = field "rank" (gt n ∷ []) empty

-- `{ $or: [{ rank: { $gt: 5 } }, { $not: [{ rank: { $gt: 1 } }] }], id: { $gt: 2, $lt: 9 } }`
abbrev either_rank : Where ℕ
either_rank =
    group op_or (cons (rank_above 5) (cons (group op_not (cons (rank_above 1) nil) empty) nil))
      (field "id" (gt 2 ∷ lt 9 ∷ []) empty)

-- `("rank" > 5 OR NOT "rank" > 1) AND ("id" > 2 AND "id" < 9)`
render_where_run :
    render_where false false either_rank
    ≡ open_paren
      ∷ condition "rank" (gt 5)
      ∷ or_word
      ∷ not_word
      ∷ condition "rank" (gt 1)
      ∷ close_paren
      ∷ and_word
      ∷ open_paren
      ∷ condition "id" (gt 2)
      ∷ and_word
      ∷ condition "id" (lt 9)
      ∷ close_paren
      ∷ []
unfolding render_where uql.Dialect.WhereSql.where_parts uql.Dialect.WhereSql.chain_on
render_where_run = refl

abbrev sevens : Row ℕ
sevens key = some 7

render_where-where_truth_example :
    Means numbers sevens or_level
      (render_where false false either_rank)
      (where_truth numbers either_rank sevens)
    × Means numbers sevens not_level
        (render_where true false either_rank)
        (where_truth numbers either_rank sevens)
    × Means numbers sevens and_level
        (render_where false true either_rank)
        (where_truth numbers either_rank sevens)
    × ((b : Truth)
        → Reads numbers sevens or_level (render_where false false either_rank) b
        → where_truth numbers either_rank sevens ≡ some b)
render_where-where_truth_example = render_where-where_truth numbers sevens either_rank

abbrev copies : {A : Type 0} → ℕ → A → List A
copies zero x = []
copies (suc n) x = x ∷ copies n x

chain-Nests_example :
    Nests {V = ℕ} false
      (λ t. Has t ((condition "a" (gt 1) ∷ []) ∷ copies 19 (condition "b" (lt 2) ∷ [])))
      16
      (chain false ((condition "a" (gt 1) ∷ []) ∷ copies 19 (condition "b" (lt 2) ∷ [])))
chain-Nests_example =
    chain-Nests false 1 (condition "a" (gt 1) ∷ []) (copies 19 (condition "b" (lt 2) ∷ []))
      (omega arith)
