-- ===== src/Dialect/Like/Matching.antt =====
-- What a pattern of the LIKE language matches, told without the program: `%` is any run of
-- characters, `_` any one character, and an escaped or other character itself.
use mathlib.Core.List.{append_assoc}
use uql.Base.{ℕ, List, [], ◌∷◌, ◌++◌, ◌≡◌, refl, sym, ap, ◌∙◌, nat_eq, ◌==◌, if◌then◌else◌}
use uql.Text.{Text}
use uql.Dialect.Like.{Token}

pub data Wildcard : Type 0 where
  run one : Wildcard
  exact : ℕ → Wildcard

abbrev pub wildcard : Token → Wildcard
wildcard t =
    if t.escaped
    then exact t.char
    else if t.char == b'%'
    then run
    else if t.char == b'_'
    then one
    else exact t.char

-- The texts that begin with what `w` takes and go on with a text of `P`.
abbrev pub Takes : Wildcard → (Text → Type 0) → Text → Type 0
Takes run P s = (a : Text) × (b : Text) × (s ≡ a ++ b) × P b
Takes one P s = (c : ℕ) × (b : Text) × (s ≡ c ∷ b) × P b
Takes (exact c) P s = (b : Text) × (s ≡ c ∷ b) × P b

abbrev pub MatchesAll : List Wildcard → Text → Type 0
MatchesAll [] s = s ≡ []
MatchesAll (w ∷ ws) s = Takes w (MatchesAll ws) s

abbrev pub wildcards : List Token → List Wildcard
wildcards [] = []
wildcards (t ∷ ts) = wildcard t ∷ wildcards ts

-- The text `s` is matched by the pattern with these tokens.
abbrev pub Matches : List Token → Text → Type 0
Matches ts s = MatchesAll (wildcards ts) s

-- A text matched by two patterns one after the other is two texts, one for each.
abbrev pub Splits : List Wildcard → List Wildcard → Text → Type 0
Splits ws vs s = (a : Text) × (b : Text) × (s ≡ a ++ b) × MatchesAll ws a × MatchesAll vs b

pub MatchesAll-append_to :
    (ws vs : List Wildcard) (s : Text) → MatchesAll (ws ++ vs) s → Splits ws vs s
MatchesAll-append_to [] vs s h = ([], s, refl, refl, h)
MatchesAll-append_to (run ∷ ws) vs s (a, b, e, h) =
    let (a', b', e', h', k') = MatchesAll-append_to ws vs b h in
    (a ++ a', b', e ∙ ap (λ t. a ++ t) e' ∙ sym (append_assoc a a' b'), (a, a', refl, h'), k')
MatchesAll-append_to (one ∷ ws) vs s (c, b, e, h) =
    let (a', b', e', h', k') = MatchesAll-append_to ws vs b h in
    (c ∷ a', b', e ∙ ap (λ t. c ∷ t) e', (c, a', refl, h'), k')
MatchesAll-append_to (exact c ∷ ws) vs s (b, e, h) =
    let (a', b', e', h', k') = MatchesAll-append_to ws vs b h in
    (c ∷ a', b', e ∙ ap (λ t. c ∷ t) e', (a', refl, h'), k')

pub MatchesAll-append_from :
    (ws vs : List Wildcard) (s : Text) → Splits ws vs s → MatchesAll (ws ++ vs) s
MatchesAll-append_from [] vs s (a, b, e, h, k) = rw (e, h) k
MatchesAll-append_from (run ∷ ws) vs s (a, b, e, (a₁, a₂, e', h), k) = (
  a₁,
  a₂ ++ b,
  e ∙ ap (λ t. t ++ b) e' ∙ append_assoc a₁ a₂ b,
  MatchesAll-append_from ws vs (a₂ ++ b) (a₂, b, refl, h, k),
)
MatchesAll-append_from (one ∷ ws) vs s (a, b, e, (c, a', e', h), k) = (
  c,
  a' ++ b,
  e ∙ ap (λ t. t ++ b) e',
  MatchesAll-append_from ws vs (a' ++ b) (a', b, refl, h, k),
)
MatchesAll-append_from (exact c ∷ ws) vs s (a, b, e, (a', e', h), k) =
    (a' ++ b, e ∙ ap (λ t. t ++ b) e', MatchesAll-append_from ws vs (a' ++ b) (a', b, refl, h, k))

pub wildcards-append : (ts us : List Token) → wildcards (ts ++ us) ≡ wildcards ts ++ wildcards us
wildcards-append [] us = refl
wildcards-append (t ∷ ts) us = ap (λ ws. wildcard t ∷ ws) (wildcards-append ts us)
