-- ===== src/Dialect/SqlLiteral.antt =====
-- packages/orm/src/util/sqlLiteral.ts: values written into SQL text.
pub mod Scan
pub mod Values
use uql.Base.{
  ℕ, ◌/◌, ◌%◌, ◌+◌, ◌-◌, Bool, true, false, ◌&&◌, List, [], ◌∷◌, ◌++◌, flat_map, Option, none, some,
  nat_eq, ◌==◌, if◌then◌else◌, ltb,
}
use uql.Text.{Text, codes}
use uql.Result.{Result, ok, err, usage, ◌>>=◌}

abbrev pub quote : ℕ
quote = 0x27

abbrev pub backslash : ℕ
backslash = 0x5c

unfoldable pub escape_single_quotes : Text → Text
escape_single_quotes [] = []
escape_single_quotes (c ∷ s) =
    (if c == quote then quote ∷ quote ∷ [] else c ∷ []) ++ escape_single_quotes s

unfoldable pub ansi_string_literal : Text → Text
ansi_string_literal val = quote ∷ (escape_single_quotes val ++ quote ∷ [])

-- The letter that `MYSQL_ESCAPES` writes after a backslash for a character, where it has one.
unfoldable pub mysql_escape : ℕ → Option ℕ
mysql_escape c =
    if c == 0
    then some b'0'
    else if c == 8
    then some b'b'
    else if c == 9
    then some b't'
    else if c == 10
    then some b'n'
    else if c == 13
    then some b'r'
    else if c == 26
    then some b'Z'
    else if c == b'"'
    then some b'"'
    else if c == quote
    then some quote
    else if c == backslash
    then some backslash
    else none

-- `MYSQL_UNESCAPES[char] ?? char`.
unfoldable pub mysql_unescape : ℕ → ℕ
mysql_unescape d =
    if d == b'0'
    then 0
    else if d == b'b'
    then 8
    else if d == b't'
    then 9
    else if d == b'n'
    then 10
    else if d == b'r'
    then 13
    else if d == b'Z'
    then 26
    else d

abbrev pub mysql_char : Option ℕ → ℕ → Text
mysql_char none c = c ∷ []
mysql_char (some e) c = backslash ∷ e ∷ []

-- `val.replace(MYSQL_SPECIALS, …)`.
unfoldable pub mysql_body : Text → Text
mysql_body [] = []
mysql_body (c ∷ s) = mysql_char (mysql_escape c) c ++ mysql_body s

unfoldable pub mysql_string_literal : Text → Text
mysql_string_literal val = quote ∷ (mysql_body val ++ quote ∷ [])

-- `/\\(.)|''/gs`, each match replaced, what is between them kept.
unfoldable pub unescape_mysql_string : Text → Text
unescape_mysql_string [] = []
unescape_mysql_string (c ∷ []) = c ∷ []
unescape_mysql_string (c ∷ d ∷ s) =
    let after = unescape_mysql_string s in
    let next = unescape_mysql_string (d ∷ s) in
    if c == backslash
    then mysql_unescape d ∷ after
    else if c == quote && d == quote
    then quote ∷ after
    else c ∷ next

-- A value as `createEscaper` tells values apart. A number carries its `String` and whether it is
-- finite, a date its `toISOString` where it is valid, an object with `toSqlString` what that
-- returns: the runtime computes these. Which constructor an object has is what the tests of
-- `escapeObject` answer in their order; one that passes none of them, a `Map` for one, is a
-- `plain_object`, and a symbol or a function is `other`.
mutual
  pub data JsValue : Type 0 where
    absent : JsValue
    boolean : Bool → JsValue
    number : Bool → Text → JsValue
    bigint text : Text → JsValue
    date : Option Text → JsValue
    array : JsValues → JsValue
    bytes : List ℕ → JsValue
    sql_object : Text → JsValue
    plain_object other : JsValue

  pub data JsValues : Type 0 where
    nil : JsValues
    cons : JsValue → JsValues → JsValues

-- `text.replace(char, by)`: the first one alone.
replace_first : ℕ → Text → Text → Text
replace_first char by [] = []
replace_first char by (c ∷ s) = if c == char then by ++ s else c ∷ replace_first char by s

-- `utcTimestamp` of packages/orm/src/util/date.ts, from the date's `toISOString`.
unfoldable pub utc_timestamp : Text → Text → Text
unfolding replace_first
utc_timestamp iso zone = replace_first b'Z' zone (replace_first b'T' (b' ' ∷ []) iso)

hex_digit : ℕ → ℕ
hex_digit n = if ltb n 10 then b'0' + n else b'a' + (n - 10)

-- `bytesToHex` of packages/orm/src/util/bytes.ts.
unfoldable pub bytes_to_hex : List ℕ → Text
unfolding hex_digit
bytes_to_hex [] = []
bytes_to_hex (b ∷ bs) = hex_digit (b / 16) ∷ hex_digit (b % 16) ∷ bytes_to_hex bs

-- `', '` before a value that is not the first.
abbrev pub comma_before : JsValues → Text
comma_before nil = []
comma_before (cons v vs) = codes ", "

abbrev pub escape_date : (Text → Text) → Text → Option Text → Text
escape_date escape_string zone none = codes "NULL"
escape_date escape_string zone (some iso) = escape_string (utc_timestamp iso zone)

-- `escapeValue`, with `escapeObject` and `sqlList`, of `createEscaper(escapeString, zone)`. An array
-- inside a list stands in brackets.
unfoldable mutual
  pub escape_value : (Text → Text) → Text → JsValue → Result Text
  escape_value escape_string zone absent = ok (codes "NULL")
  escape_value escape_string zone (boolean b) = ok (if b then codes "true" else codes "false")
  escape_value escape_string zone (number finite t) = ok (if finite then t else codes "NULL")
  escape_value escape_string zone (bigint t) = ok t
  escape_value escape_string zone (text t) = ok (escape_string t)
  escape_value escape_string zone (date iso) = ok (escape_date escape_string zone iso)
  escape_value escape_string zone (array vs) = sql_list escape_string zone vs
  escape_value escape_string zone (bytes bs) = ok (codes "X'" ++ (bytes_to_hex bs ++ quote ∷ []))
  escape_value escape_string zone (sql_object t) = ok t
  escape_value escape_string zone plain_object = err usage
  escape_value escape_string zone other = err usage

  pub sql_list : (Text → Text) → Text → JsValues → Result Text
  sql_list escape_string zone nil = ok []
  sql_list escape_string zone (cons (array ws) vs) = do
    head ← sql_list escape_string zone ws
    rest ← sql_list escape_string zone vs
    ok (b'(' ∷ (head ++ b')' ∷ (comma_before vs ++ rest)))
  sql_list escape_string zone (cons v vs) = do
    head ← escape_value escape_string zone v
    rest ← sql_list escape_string zone vs
    ok (head ++ (comma_before vs ++ rest))

-- `escapeAnsiSqlLiteral`, `escapePgSqlLiteral` and `escapeMysqlSqlLiteral`.
unfoldable pub escape_ansi_sql_literal : JsValue → Result Text
unfolding escape_value
escape_ansi_sql_literal = escape_value ansi_string_literal []

unfoldable pub escape_pg_sql_literal : JsValue → Result Text
unfolding escape_value
escape_pg_sql_literal = escape_value ansi_string_literal (codes "+00")

unfoldable pub escape_mysql_sql_literal : JsValue → Result Text
unfolding escape_value
escape_mysql_sql_literal = escape_value mysql_string_literal []
