-- ===== src/Dialect/SqlLiteral/Values.antt =====
-- How the list of texts that `createEscaper` writes is read back.
use uql.Base.{false, List, [], ◌∷◌, ◌++◌, some, nat_eq, ◌≡◌, refl, ap}
use mathlib.Core.List.{append_assoc, append-nil}
use uql.Text.{Text, codes}
use uql.Result.{ok, ◌>>=◌}
use uql.Dialect.SqlLiteral.{
  JsValues, text, array, nil, cons, escape_value, sql_list, escape_ansi_sql_literal,
  ansi_string_literal,
}
use uql.Dialect.SqlLiteral.Scan.{ansi_read, ansi_read-ansi_string_literal, starts_quote}

abbrev pub texts : List Text → JsValues
texts [] = nil
texts (v ∷ vs) = cons (text v) (texts vs)

-- A list of literals read off a statement, with what follows it.
pub data ReadsList : Text → List Text → Text → Type 0 where
  last : {s v after : Text} → ansi_read s ≡ some (v, after) → ReadsList s (v ∷ []) after
  more :
      {s v rest after : Text} {vs : List Text}
      → ansi_read s ≡ some (v, codes ", " ++ rest)
      → ReadsList rest vs after
      → ReadsList s (v ∷ vs) after

-- The list of some texts, and that it is read back as them.
abbrev IsRead : Text → List Text → Text → Type 0
IsRead zone vs after =
    (t : Text) × (sql_list ansi_string_literal zone (texts vs) ≡ ok t)
    × ReadsList (t ++ after) vs after

sql_list-ReadsList :
    (zone v : Text) (vs : List Text) (after : Text)
    → starts_quote after ≡ false
    → IsRead zone (v ∷ vs) after
unfolding escape_value
sql_list-ReadsList zone v [] after h = (
  ansi_string_literal v ++ [],
  refl,
  last (rw append-nil (ansi_read-ansi_string_literal v after h)),
)
sql_list-ReadsList zone v (w ∷ vs) after h =
    let (t, e, r) = sql_list-ReadsList zone w vs after h in
    (
      ansi_string_literal v ++ (codes ", " ++ t),
      ap (λ m. m >>= λ rest. ok (ansi_string_literal v ++ (codes ", " ++ rest))) e,
      more (rw append_assoc (ansi_read-ansi_string_literal v (codes ", " ++ (t ++ after)) refl)) r,
    )

-- A list of texts, of which none is left out of a statement, is written as literals that an engine
-- reads back as those texts, in order, with nothing of the statement after them.
pub escape_ansi_sql_literal-ReadsList :
    (v : Text) (vs : List Text) (after : Text)
    → starts_quote after ≡ false
    → (t : Text) × (escape_ansi_sql_literal (array (texts (v ∷ vs))) ≡ ok t)
      × ReadsList (t ++ after) (v ∷ vs) after
unfolding escape_ansi_sql_literal
escape_ansi_sql_literal-ReadsList v vs after h = sql_list-ReadsList [] v vs after h
