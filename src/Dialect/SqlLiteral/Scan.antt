-- ===== src/Dialect/SqlLiteral/Scan.antt =====
-- Literals read back: by `unescapeMysqlString`, and by an engine reading a statement.
use uql.Base.{
  ℕ, Bool, false, ◌||◌, ap, [], ◌∷◌, ◌++◌, Option, none, some, nat_eq, ◌==◌, if◌then◌else◌, ◌≡◌,
  ◌≢◌, refl, arith, Option-cases, inl, inr,
}
use mathlib.Core.List.{append_assoc}
use uql.Text.{Text}
use uql.Dialect.SqlLiteral.{
  quote, backslash, escape_single_quotes, ansi_string_literal, mysql_escape, mysql_unescape,
  mysql_body, mysql_string_literal, unescape_mysql_string,
}

unescape-cons :
    (c : ℕ) (s : Text)
    → c ≢ backslash
    → c ≢ quote
    → unescape_mysql_string (c ∷ s) ≡ c ∷ unescape_mysql_string s
unfolding unescape_mysql_string
unescape-cons c [] h k = refl
unescape-cons c (d ∷ s) h k = ground arith

unescape-escape :
    (d : ℕ) (s : Text)
    → unescape_mysql_string (backslash ∷ d ∷ s) ≡ mysql_unescape d ∷ unescape_mysql_string s
unfolding unescape_mysql_string
unescape-escape d s = refl

mysql_unescape-mysql_escape : (c e : ℕ) → mysql_escape c ≡ some e → mysql_unescape e ≡ c
unfolding mysql_escape mysql_unescape
mysql_unescape-mysql_escape c e h = ground arith

mysql_escape-none : (c : ℕ) → mysql_escape c ≡ none → (c ≢ backslash) × (c ≢ quote)
unfolding mysql_escape
mysql_escape-none c h = ground arith

-- Undoing the escapes of a MySQL literal's body gives the text back.
pub unescape_mysql_string-mysql_body : (val : Text) → unescape_mysql_string (mysql_body val) ≡ val
unfolding mysql_body
unescape_mysql_string-mysql_body [] = unfold unescape_mysql_string in refl
unescape_mysql_string-mysql_body (c ∷ s) = elim (Option-cases (mysql_escape c)) [
  | inl h ↦ rw h (
      ground (
        arith,
        unescape-cons c (mysql_body s),
        mysql_escape-none c h,
        unescape_mysql_string-mysql_body s,
      ))
  | inr (e, h) ↦ rw h (
      ground (
        arith,
        unescape-escape e (mysql_body s),
        mysql_unescape-mysql_escape c e h,
        unescape_mysql_string-mysql_body s,
      ))
]

abbrev pub starts_quote : Text → Bool
starts_quote [] = false
starts_quote (c ∷ s) = c == quote

abbrev push : Text → Option (Text × Text) → Option (Text × Text)
push t none = none
push t (some (val, after)) = some (t ++ val, after)

-- A literal as an ANSI engine reads it after its opening quote: its value, and the statement that
-- follows its closing quote; `none` where it never closes.
ansi_rest : Text → Option (Text × Text)
ansi_rest [] = none
ansi_rest (c ∷ []) = if c == quote then some ([], []) else none
ansi_rest (c ∷ d ∷ s) =
    let after = ansi_rest s in
    let next = ansi_rest (d ∷ s) in
    if c == quote
    then (if d == quote then push (quote ∷ []) after else some ([], d ∷ s))
    else push (c ∷ []) next

-- A statement read at a literal.
pub ansi_read : Text → Option (Text × Text)
ansi_read [] = none
ansi_read (c ∷ s) = if c == quote then ansi_rest s else none

ansi_rest-cons : (c : ℕ) (s : Text) → c ≢ quote → ansi_rest (c ∷ s) ≡ push (c ∷ []) (ansi_rest s)
unfolding ansi_rest
ansi_rest-cons c [] h = ground arith
ansi_rest-cons c (d ∷ s) h = ground arith

ansi_rest-end : (s : Text) → starts_quote s ≡ false → ansi_rest (quote ∷ s) ≡ some ([], s)
unfolding ansi_rest
ansi_rest-end [] h = refl
ansi_rest-end (c ∷ s) h = ground arith

ansi_rest-quote : (s : Text) → ansi_rest (quote ∷ quote ∷ s) ≡ push (quote ∷ []) (ansi_rest s)
unfolding ansi_rest
ansi_rest-quote s = refl

ansi_rest-escape :
    (val after : Text)
    → starts_quote after ≡ false
    → ansi_rest (escape_single_quotes val ++ quote ∷ after) ≡ some (val, after)
unfolding escape_single_quotes
ansi_rest-escape [] after h = ansi_rest-end after h
ansi_rest-escape (c ∷ s) after h =
    let rest = escape_single_quotes s ++ quote ∷ after in
    ground (arith, ansi_rest-escape s after h, ansi_rest-cons c rest, ansi_rest-quote rest)

-- An engine of ANSI literals reads the written literal as the value, whole, and goes on at the
-- statement after it, so no value ends its literal early.
pub ansi_read-ansi_string_literal :
    (val after : Text)
    → starts_quote after ≡ false
    → ansi_read (ansi_string_literal val ++ after) ≡ some (val, after)
unfolding ansi_read ansi_string_literal
ansi_read-ansi_string_literal val after h =
    rw (append_assoc (escape_single_quotes val) (quote ∷ []) after) (ansi_rest-escape val after h)

-- What MySQL reads a backslash and a character as; `\%` and `\_` it keeps whole.
mysql_reads : ℕ → Text
mysql_reads d = if d == b'%' || d == b'_' then backslash ∷ d ∷ [] else mysql_unescape d ∷ []

mysql_rest : Text → Option (Text × Text)
mysql_rest [] = none
mysql_rest (c ∷ []) = if c == quote then some ([], []) else none
mysql_rest (c ∷ d ∷ s) =
    let after = mysql_rest s in
    let next = mysql_rest (d ∷ s) in
    if c == backslash
    then push (mysql_reads d) after
    else if c == quote
    then (if d == quote then push (quote ∷ []) after else some ([], d ∷ s))
    else push (c ∷ []) next

-- A statement read at a literal, as MySQL reads it without `NO_BACKSLASH_ESCAPES`.
pub mysql_read : Text → Option (Text × Text)
mysql_read [] = none
mysql_read (c ∷ s) = if c == quote then mysql_rest s else none

mysql_rest-cons :
    (c : ℕ) (s : Text)
    → c ≢ backslash
    → c ≢ quote
    → mysql_rest (c ∷ s) ≡ push (c ∷ []) (mysql_rest s)
unfolding mysql_rest
mysql_rest-cons c [] h k = ground arith
mysql_rest-cons c (d ∷ s) h k = ground arith

mysql_rest-end : (s : Text) → starts_quote s ≡ false → mysql_rest (quote ∷ s) ≡ some ([], s)
unfolding mysql_rest
mysql_rest-end [] h = refl
mysql_rest-end (c ∷ s) h = ground arith

mysql_reads-mysql_escape : (c e : ℕ) → mysql_escape c ≡ some e → mysql_reads e ≡ c ∷ []
unfolding mysql_escape mysql_unescape mysql_reads
mysql_reads-mysql_escape c e h = ground arith

mysql_rest-escape :
    (c e : ℕ) (s : Text)
    → mysql_escape c ≡ some e
    → mysql_rest (backslash ∷ e ∷ s) ≡ push (c ∷ []) (mysql_rest s)
mysql_rest-escape c e s h =
    unfold mysql_rest in ap (λ t. push t (mysql_rest s)) (mysql_reads-mysql_escape c e h)

mysql_rest-body :
    (val after : Text)
    → starts_quote after ≡ false
    → mysql_rest (mysql_body val ++ quote ∷ after) ≡ some (val, after)
unfolding mysql_body
mysql_rest-body [] after h = mysql_rest-end after h
mysql_rest-body (c ∷ s) after h =
    let rest = mysql_body s ++ quote ∷ after in
    elim (Option-cases (mysql_escape c)) [
      | inl e ↦
          rw e (
            ground
              (arith, mysql_rest-body s after h, mysql_rest-cons c rest, mysql_escape-none c e))
      | inr (d, e) ↦ rw e (ground (arith, mysql_rest-body s after h, mysql_rest-escape c d rest e))
    ]

-- MySQL reads the written literal as the value, whole, and goes on at the statement after it.
pub mysql_read-mysql_string_literal :
    (val after : Text)
    → starts_quote after ≡ false
    → mysql_read (mysql_string_literal val ++ after) ≡ some (val, after)
unfolding mysql_read mysql_string_literal
mysql_read-mysql_string_literal val after h =
    rw (append_assoc (mysql_body val) (quote ∷ []) after) (mysql_rest-body val after h)
