-- ===== src/Dialect/Like.antt =====
-- The LIKE operators of packages/orm/src/dialect/operators.ts: patterns that match a text
-- literally, the check and rewriting of a pattern that a caller wrote, and the regular expression
-- of an engine with no LIKE. A text is a list of UTF-16 code units, which the source's regular
-- expressions, having no `u` flag, walk too.
pub mod Matching
pub mod Literal
pub mod Pattern
pub mod Regex
use mathlib.Core.List.{head?}
use uql.Base.{
  ℕ, Bool, true, false, ◌&&◌, ◌||◌, not, List, [], ◌∷◌, ◌++◌, map, flat_map, Option, none, some,
  nat_eq, ◌==◌, if◌then◌else◌, get_last?, any,
}
use uql.Text.{Text, codes}

-- A character of a pattern, and whether a backslash escaped it.
pub record Token : Type 0 where
  pub char : ℕ
  pub escaped : Bool

-- `/[\\%_[]/g` of `likeLiteral`.
abbrev pub is_like_special : ℕ → Bool
is_like_special c = c == b'\\' || c == b'%' || c == b'_' || c == b'['

unfoldable pub like_literal : Text → Text
like_literal [] = []
like_literal (c ∷ s) = (if is_like_special c then b'\\' ∷ c ∷ [] else c ∷ []) ++ like_literal s

-- `/\\([\s\S])|[\s\S]/g` of `likeTokens`: a backslash takes the character after it.
unfoldable pub like_tokens : Text → List Token
like_tokens [] = []
like_tokens (c ∷ []) = record { char = c; escaped = false } ∷ []
like_tokens (c ∷ d ∷ s) =
    let pair = like_tokens s in
    let single = like_tokens (d ∷ s) in
    if c == b'\\'
    then record { char = d; escaped = true } ∷ pair
    else record { char = c; escaped = false } ∷ single

abbrev pub is_stray : Token → Bool
is_stray t = t.char == b'\\' && not t.escaped

abbrev ends_stray : Option Token → Bool
ends_stray none = false
ends_stray (some t) = is_stray t

-- The text that `likePattern` writes for a token.
abbrev pub emit : Token → Text
emit t = if t.escaped || t.char == b'[' then b'\\' ∷ t.char ∷ [] else t.char ∷ []

-- `none` is the thrown error: the pattern ends in a backslash with nothing to escape.
unfoldable pub like_pattern : Text → Option Text
like_pattern pattern =
    let tokens = like_tokens pattern in
    if ends_stray (get_last? tokens) then none else some (flat_map emit tokens)

-- The operators that match a text, each with a twin that ignores case.
pub data LikeOp : Type 0 where
  like starts_with ends_with includes : LikeOp

-- The pattern of each entry of `LIKE_OPS`.
unfoldable pub pattern_of : LikeOp → Text → Option Text
pattern_of like v = like_pattern v
pattern_of starts_with v = some (like_literal v ++ b'%' ∷ [])
pattern_of ends_with v = some (b'%' ∷ like_literal v)
pattern_of includes v = some (b'%' ∷ (like_literal v ++ b'%' ∷ []))

-- A piece of the regular expression that `likeRegex` joins: `[\s\S]*`, `[\s\S]`, or a character
-- written by `escapeRegExp`.
pub data Piece : Type 0 where
  any_run any_char : Piece
  literal : ℕ → Piece

abbrev pub is_any_run : Option Piece → Bool
is_any_run (some any_run) = true
is_any_run _ = false

abbrev pub piece : Token → Piece
piece t =
    if t.escaped
    then literal t.char
    else if t.char == b'%'
    then any_run
    else if t.char == b'_'
    then any_char
    else literal t.char

-- The expression before it is joined: its body, and whether an edge holds no anchor.
pub record RegexParts : Type 0 where
  pub open_start : Bool
  pub open_end : Bool
  pub body : List Piece

abbrev pub drop_first : List Piece → List Piece
drop_first [] = []
drop_first (p ∷ ps) = ps

abbrev pub drop_last : List Piece → List Piece
drop_last [] = []
drop_last (p ∷ []) = []
drop_last (p ∷ q ∷ ps) = p ∷ drop_last (q ∷ ps)

-- The tokens, `open`, `closed` and `body` of `likeRegex`.
unfoldable pub like_regex_parts : Text → RegexParts
like_regex_parts pattern =
    let pieces = map piece (like_tokens pattern) in
    let open_start = is_any_run (head? pieces) in
    let open_end = is_any_run (get_last? pieces) in
    let rest = if open_start then drop_first pieces else pieces in
    record {
      open_start = open_start;
      open_end = open_end;
      body = if open_end then drop_last rest else rest;
    }

-- `/[\\^$.*+?()[\]{}|]/` of `escapeRegExp`.
abbrev pub is_regex_special : ℕ → Bool
is_regex_special c = any (λ d. c == d) (codes "\\^$.*+?()[]{}|")

unfoldable pub escape_reg_exp : Text → Text
escape_reg_exp [] = []
escape_reg_exp (c ∷ s) = (if is_regex_special c then b'\\' ∷ c ∷ [] else c ∷ []) ++ escape_reg_exp s

piece_text : Piece → Text
piece_text any_run = codes "[\\s\\S]*"
piece_text any_char = codes "[\\s\\S]"
piece_text (literal c) = escape_reg_exp (c ∷ [])

unfoldable pub like_regex : Text → Text
unfolding piece_text escape_reg_exp like_regex_parts like_tokens
like_regex pattern =
    let r = like_regex_parts pattern in
    (if r.open_start then [] else b'^' ∷ [])
    ++ (flat_map piece_text r.body ++ (if r.open_end then [] else codes "\\z"))
