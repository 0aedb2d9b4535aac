-- ===== src/Dialect/Like/Pattern.antt =====
-- `likePattern`: what it accepts, and that rewriting a pattern changes nothing that it matches.
use mathlib.Core.Path.{subst}
use uql.Base.{
  Bool, true, false, ◌&&◌, ◌||◌, not, List, [], ◌∷◌, flat_map, ◌≡◌, refl, sym, ap, ◌∙◌, ◌↔◌, nat_eq,
  ◌==◌, some, arith, All, Bool-cases, inl, inr, some_eq, get_last?,
}
use uql.Text.{Text}
use uql.Dialect.Like.{Token, is_stray, ends_stray, emit, like_tokens, like_pattern}
use uql.Dialect.Like.Matching.{wildcard, wildcards, MatchesAll, Matches}
use uql.Dialect.Like.Literal.{like_tokens-cons, like_tokens-escape}

abbrev pub IsPlaced : Token → Type 0
IsPlaced t = is_stray t ≡ false

ends_stray-tail :
    (t : Token) (ts : List Token)
    → ends_stray (get_last? (t ∷ ts)) ≡ false
    → ends_stray (get_last? ts) ≡ false
ends_stray-tail t [] h = refl
ends_stray-tail t (u ∷ ts) h = h

-- Only the last token of a pattern can be a backslash that escapes nothing.
like_tokens-IsPlaced :
    (p : Text) → ends_stray (get_last? (like_tokens p)) ≡ false → All IsPlaced (like_tokens p)
unfolding like_tokens
like_tokens-IsPlaced [] h = tt
like_tokens-IsPlaced (c ∷ []) h = (h, tt)
like_tokens-IsPlaced (c ∷ d ∷ s) h = elim (Bool-cases (c == b'\\')) [
  | inl e ↦
      let k = rw (e, like_tokens) at h in
      rw e (
        ground arith,
        like_tokens-IsPlaced s
            (ends_stray-tail (record { char = d; escaped = true }) (like_tokens s) k),
      )
  | inr e ↦
      let k = rw (e, like_tokens) at h in
      rw e (
        rw e,
        like_tokens-IsPlaced (d ∷ s)
            (ends_stray-tail (record { char = c; escaped = false }) (like_tokens (d ∷ s)) k),
      )
]

-- The token that a written token is read back as.
abbrev fix : Token → Token
fix t = record { char = t.char; escaped = t.escaped || t.char == b'[' }

abbrev fixed : List Token → List Token
fixed [] = []
fixed (t ∷ ts) = fix t ∷ fixed ts

like_tokens-emit : (ts : List Token) → All IsPlaced ts → like_tokens (flat_map emit ts) ≡ fixed ts
unfolding flat_map
like_tokens-emit [] h = unfold like_tokens in refl
like_tokens-emit (t ∷ ts) (h, k) = ground (
  arith,
  like_tokens-emit ts k,
  like_tokens-cons t.char (flat_map emit ts),
  like_tokens-escape t.char (flat_map emit ts),
)

wildcard-fix : (t : Token) → wildcard (fix t) ≡ wildcard t
wildcard-fix t = ground arith

wildcards-fixed : (ts : List Token) → wildcards (fixed ts) ≡ wildcards ts
wildcards-fixed [] = refl
wildcards-fixed (t ∷ ts) = cc (wildcard-fix t, wildcards-fixed ts)

emit-fix : (ts : List Token) → flat_map emit (fixed ts) ≡ flat_map emit ts
unfolding flat_map
emit-fix [] = refl
emit-fix (t ∷ ts) = ground (arith, emit-fix ts)

ends_stray-fixed : (ts : List Token) → All IsPlaced ts → ends_stray (get_last? (fixed ts)) ≡ false
ends_stray-fixed [] h = refl
ends_stray-fixed (t ∷ []) h = ground arith
ends_stray-fixed (t ∷ u ∷ ts) h = ends_stray-fixed (u ∷ ts) h.1

-- What an accepted pattern is, and how it is written.
pub record Accepted (p q : Text) : Type 0 where
  pub placed : All IsPlaced (like_tokens p)
  pub written : flat_map emit (like_tokens p) ≡ q

pub like_pattern-Accepted : (p q : Text) → like_pattern p ≡ some q → Accepted p q
unfolding like_pattern
like_pattern-Accepted p q e = elim (Bool-cases (ends_stray (get_last? (like_tokens p)))) [
  | inl h ↦ cc (rw h at e)
  | inr h ↦ record { placed = like_tokens-IsPlaced p h; written = some_eq (rw h at e) }
]

-- The tokens of a rewritten pattern are those of the pattern, each `[` escaped.
like_tokens-Accepted : (p q : Text) → Accepted p q → like_tokens q ≡ fixed (like_tokens p)
like_tokens-Accepted p q a = rw (← a.written) (like_tokens-emit (like_tokens p) a.placed)

-- Rewriting an accepted pattern changes nothing that it matches.
pub like_pattern-Matches :
    (p q s : Text) → like_pattern p ≡ some q → Matches (like_tokens q) s ↔ Matches (like_tokens p) s
like_pattern-Matches p q s e =
    let t = like_tokens-Accepted p q (like_pattern-Accepted p q e) in
    let w : wildcards (like_tokens q) ≡ wildcards (like_tokens p) =
      ap wildcards t ∙ wildcards-fixed (like_tokens p) in
    (λ m. subst (λ ws. MatchesAll ws s) w m, λ m. subst (λ ws. MatchesAll ws s) (sym w) m)

-- A rewritten pattern is accepted, and rewriting it again changes nothing.
pub like_pattern_idem : (p q : Text) → like_pattern p ≡ some q → like_pattern q ≡ some q
unfolding like_pattern
like_pattern_idem p q e =
    let a = like_pattern-Accepted p q e in
    let t = like_tokens-Accepted p q a in
    rw (t, ends_stray-fixed (like_tokens p) a.placed, emit-fix (like_tokens p), a.written) refl

abbrev pub is_bare_bracket : Token → Bool
is_bare_bracket t = t.char == b'[' && not t.escaped

fixed-bracket : (ts : List Token) → All (λ t. is_bare_bracket t ≡ false) (fixed ts)
fixed-bracket [] = tt
fixed-bracket (t ∷ ts) = (ground arith, fixed-bracket ts)

-- A rewritten pattern holds no `[` that SQL Server would read as a character class.
pub like_pattern-bracket :
    (p q : Text) → like_pattern p ≡ some q → All (λ t. is_bare_bracket t ≡ false) (like_tokens q)
like_pattern-bracket p q e =
    rw (like_tokens-Accepted p q (like_pattern-Accepted p q e)) (fixed-bracket (like_tokens p))
