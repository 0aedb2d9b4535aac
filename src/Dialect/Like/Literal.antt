-- ===== src/Dialect/Like/Literal.antt =====
-- `likeLiteral`, and the operators of `LIKE_OPS` that are built on it.
use mathlib.Core.List.{append-nil}
use uql.Base.{
  ℕ, true, false, List, [], ◌∷◌, ◌++◌, ◌≡◌, ◌≢◌, refl, sym, ap, ◌∙◌, ◌↔◌, nat_eq, some, arith,
  some_eq,
}
use mathlib.Core.Path.{subst, subst₂}
use uql.Text.{Text}
use uql.Dialect.Like.{
  Token, is_like_special, like_literal, like_tokens, LikeOp, starts_with, ends_with, includes, like,
  pattern_of,
}
use uql.Dialect.Like.Matching.{
  wildcard, exact, wildcards, Matches, wildcards-append, MatchesAll-append_to,
  MatchesAll-append_from,
}

pub like_tokens-cons :
    (c : ℕ) (s : Text)
    → c ≢ b'\\'
    → like_tokens (c ∷ s) ≡ record { char = c; escaped = false } ∷ like_tokens s
unfolding like_tokens
like_tokens-cons c [] h = refl
like_tokens-cons c (d ∷ s) h = ground arith

pub like_tokens-escape :
    (c : ℕ) (s : Text)
    → like_tokens (b'\\' ∷ c ∷ s) ≡ record { char = c; escaped = true } ∷ like_tokens s
unfolding like_tokens
like_tokens-escape c s = refl

abbrev literal_token : ℕ → Token
literal_token c = record { char = c; escaped = is_like_special c }

abbrev literal_tokens : Text → List Token
literal_tokens [] = []
literal_tokens (c ∷ s) = literal_token c ∷ literal_tokens s

like_tokens-like_literal :
    (v p : Text) → like_tokens (like_literal v ++ p) ≡ literal_tokens v ++ like_tokens p
unfolding like_literal
like_tokens-like_literal [] p = refl
like_tokens-like_literal (c ∷ v) p = ground (
  arith,
  like_tokens-like_literal v p,
  like_tokens-cons c (like_literal v ++ p),
  like_tokens-escape c (like_literal v ++ p),
)

wildcard-literal_token : (c : ℕ) → wildcard (literal_token c) ≡ exact c
wildcard-literal_token c = ground arith

-- The tokens of a literal match that literal and nothing else.
literal_tokens_sound : (v s : Text) → Matches (literal_tokens v) s → s ≡ v
literal_tokens_sound [] s h = h
literal_tokens_sound (c ∷ v) s h =
    let (b, e, k) = rw wildcard-literal_token at h in
    e ∙ ap (λ t. c ∷ t) (literal_tokens_sound v b k)

literal_tokens_complete : (v : Text) → Matches (literal_tokens v) v
literal_tokens_complete [] = refl
literal_tokens_complete (c ∷ v) = rw wildcard-literal_token (v, refl, literal_tokens_complete v)

-- What each operator built on a literal promises of the texts that it finds.
abbrev pub Finds : LikeOp → Text → Text → Type 0
Finds like v s = Unit
Finds starts_with v s = (b : Text) × (s ≡ v ++ b)
Finds ends_with v s = (a : Text) × (s ≡ a ++ v)
Finds includes v s = (a : Text) × (b : Text) × (s ≡ a ++ (v ++ b))

abbrev pub IsLiteralOp : LikeOp → Type 0
IsLiteralOp like = ⊥
IsLiteralOp _ = Unit

-- A literal followed by a pattern matches the literal followed by what the pattern matches.
literal_then :
    (v p s : Text)
    → Matches (like_tokens (like_literal v ++ p)) s
    → (b : Text) × (s ≡ v ++ b) × Matches (like_tokens p) b
literal_then v p s h =
    let k = rw (like_tokens-like_literal v p, wildcards-append) at h in
    let (a, b, e, m, n) = MatchesAll-append_to (wildcards (literal_tokens v)) _ s k in
    (b, e ∙ ap (λ t. t ++ b) (literal_tokens_sound v a m), n)

then_literal :
    (v p b : Text)
    → Matches (like_tokens p) b
    → Matches (like_tokens (like_literal v ++ p)) (v ++ b)
then_literal v p b h =
    rw (like_tokens-like_literal v p, wildcards-append)
      (MatchesAll-append_from (wildcards (literal_tokens v)) (wildcards (like_tokens p)) (v ++ b)
        (v, b, refl, literal_tokens_complete v, h))

like_tokens-percent :
    (p : Text) → like_tokens (b'%' ∷ p) ≡ record { char = b'%'; escaped = false } ∷ like_tokens p
like_tokens-percent p = like_tokens-cons b'%' p (omega arith)

-- A leading `%` takes any run before what the rest matches.
percent_then :
    (p s : Text)
    → Matches (like_tokens (b'%' ∷ p)) s
    → (a : Text) × (b : Text) × (s ≡ a ++ b) × Matches (like_tokens p) b
percent_then p s h = rw (like_tokens-percent p) at h

then_percent :
    (p a b : Text) → Matches (like_tokens p) b → Matches (like_tokens (b'%' ∷ p)) (a ++ b)
then_percent p a b h = rw (like_tokens-percent p) (a, b, refl, h)

any_text : (b : Text) → Matches (like_tokens (b'%' ∷ [])) b
unfolding like_tokens
any_text b = (b, [], sym (append-nil b), refl)

only_literal : (v s : Text) → Matches (like_tokens (like_literal v)) s → s ≡ v
unfolding like_tokens
only_literal v s h =
    let k = rw (← append-nil (like_literal v)) at h in
    let (b, e, n) = literal_then v [] s k in e ∙ rw n (append-nil v)

literal-Matches : (v : Text) → Matches (like_tokens (like_literal v)) v
unfolding like_tokens
literal-Matches v =
    let m = then_literal v [] [] refl in rw (append-nil (like_literal v), append-nil v) at m

pattern_of_sound :
    (op : LikeOp) (v s p : Text)
    → IsLiteralOp op
    → pattern_of op v ≡ some p
    → Matches (like_tokens p) s
    → Finds op v s
unfolding pattern_of
pattern_of_sound like v s p h e m = absurd h
pattern_of_sound starts_with v s p h e m =
    let (b, q, _) =
      literal_then v (b'%' ∷ []) s (subst (λ t. Matches (like_tokens t) s) (sym (some_eq e)) m) in
    (b, q)
pattern_of_sound ends_with v s p h e m =
    let (a, b, q, n) =
      percent_then (like_literal v) s
        (subst (λ t. Matches (like_tokens t) s) (sym (some_eq e)) m) in
    (a, q ∙ ap (λ t. a ++ t) (only_literal v b n))
pattern_of_sound includes v s p h e m =
    let (a, b, q, n) =
      percent_then (like_literal v ++ b'%' ∷ []) s
        (subst (λ t. Matches (like_tokens t) s) (sym (some_eq e)) m) in
    let (c, r, _) = literal_then v (b'%' ∷ []) b n in (a, c, q ∙ ap (λ t. a ++ t) r)

pattern_of_complete :
    (op : LikeOp) (v s p : Text)
    → IsLiteralOp op
    → pattern_of op v ≡ some p
    → Finds op v s
    → Matches (like_tokens p) s
unfolding pattern_of
pattern_of_complete like v s p h e f = absurd h
pattern_of_complete starts_with v s p h e (b, q) =
    subst₂ (λ t u. Matches (like_tokens t) u) (some_eq e) (sym q)
      (then_literal v (b'%' ∷ []) b (any_text b))
pattern_of_complete ends_with v s p h e (a, q) =
    subst₂ (λ t u. Matches (like_tokens t) u) (some_eq e) (sym q)
      (then_percent (like_literal v) a v (literal-Matches v))
pattern_of_complete includes v s p h e (a, b, q) =
    subst₂ (λ t u. Matches (like_tokens t) u) (some_eq e) (sym q)
      (then_percent (like_literal v ++ b'%' ∷ []) a (v ++ b)
        (then_literal v (b'%' ∷ []) b (any_text b)))

-- The pattern of `$startsWith`, `$endsWith` and `$includes` matches exactly the texts that begin
-- with, end with or contain the value, whatever wildcards and backslashes the value holds.
pub pattern_of-Finds :
    (op : LikeOp) (v s p : Text)
    → IsLiteralOp op
    → pattern_of op v ≡ some p
    → Matches (like_tokens p) s ↔ Finds op v s
pattern_of-Finds op v s p h e = (pattern_of_sound op v s p h e, pattern_of_complete op v s p h e)
