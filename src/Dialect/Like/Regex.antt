-- ===== src/Dialect/Like/Regex.antt =====
-- `likeRegex`: the regular expression finds exactly the texts that the pattern matches.
use mathlib.Core.List.{append-nil, head?}
use mathlib.Core.Path.{subst}
use uql.Text.{Text}
use uql.Base.{
  Bool, true, false, List, [], ◌∷◌, ◌++◌, map, ◌≡◌, refl, sym, ap, ◌∙◌, ◌↔◌, ◌⊎◌, some,
  if◌then◌else◌, arith, inl, inr, get_last?, false_true,
}
use uql.Dialect.Like.{
  Token, like_tokens, Piece, any_run, any_char, literal, is_any_run, piece, drop_first, drop_last,
  RegexParts, like_regex_parts,
}
use uql.Dialect.Like.Matching.{
  Wildcard, run, one, exact, wildcard, wildcards, MatchesAll, Matches, MatchesAll-append_to,
  MatchesAll-append_from,
}

-- What a piece takes of a text, as a regular expression engine reads it.
abbrev pub takes_of : Piece → Wildcard
takes_of any_run = run
takes_of any_char = one
takes_of (literal c) = exact c

abbrev pub pieces_take : List Piece → List Wildcard
pieces_take [] = []
pieces_take (p ∷ ps) = takes_of p ∷ pieces_take ps

-- An expression finds a text where its body takes a part of it, the whole up to an anchored edge.
abbrev pub Finds : RegexParts → Text → Type 0
Finds r s =
    (a : Text) × (m : Text) × (b : Text) × (s ≡ a ++ (m ++ b))
    × MatchesAll (pieces_take r.body) m
    × ((r.open_start ≡ true) ⊎ (a ≡ []))
    × ((r.open_end ≡ true) ⊎ (b ≡ []))

takes_of-piece : (t : Token) → takes_of (piece t) ≡ wildcard t
takes_of-piece t = ground arith

pieces_take-tokens : (ts : List Token) → pieces_take (map piece ts) ≡ wildcards ts
pieces_take-tokens [] = refl
pieces_take-tokens (t ∷ ts) = cc (takes_of-piece t, pieces_take-tokens ts)

-- The body and the anchors of any pieces.
abbrev anchored : List Piece → RegexParts
anchored ps =
    let open_start = is_any_run (head? ps) in
    let open_end = is_any_run (get_last? ps) in
    let rest = if open_start then drop_first ps else ps in
    record {
      open_start = open_start;
      open_end = open_end;
      body = if open_end then drop_last rest else rest;
    }

-- With its end open, an expression finds what its body and a run after it match.
drop_last-run :
    (p : Piece) (ps : List Piece)
    → is_any_run (get_last? (p ∷ ps)) ≡ true
    → pieces_take (p ∷ ps) ≡ pieces_take (drop_last (p ∷ ps)) ++ run ∷ []
drop_last-run any_run [] h = refl
drop_last-run any_char [] h = cc
drop_last-run (literal c) [] h = cc
drop_last-run p (q ∷ ps) h = ap (λ ws. takes_of p ∷ ws) (drop_last-run q ps h)

-- A text as what a list of pieces takes, its last open run left off where it has one.
abbrev body_of : Bool → List Piece → List Piece
body_of e l = if e then drop_last l else l

abbrev EndSplit : Bool → List Piece → Text → Type 0
EndSplit e l s =
    (m : Text) × (b : Text) × (s ≡ m ++ b)
    × MatchesAll (pieces_take (body_of e l)) m
    × ((e ≡ true) ⊎ (b ≡ []))

end_to :
    (p : Piece) (ps : List Piece) (s : Text) (e : Bool)
    → is_any_run (get_last? (p ∷ ps)) ≡ e
    → MatchesAll (pieces_take (p ∷ ps)) s
    → EndSplit e (p ∷ ps) s
end_to p ps s true q h =
    let k = subst (λ ws. MatchesAll ws s) (drop_last-run p ps q) h in
    let (m, b, r, t, u) = MatchesAll-append_to (pieces_take (drop_last (p ∷ ps))) (run ∷ []) s k in
    (m, b, r, t, inl refl)
end_to p ps s false q h = (s, [], sym (append-nil s), h, inr refl)

end_from :
    (p : Piece) (ps : List Piece) (s : Text) (e : Bool)
    → is_any_run (get_last? (p ∷ ps)) ≡ e
    → EndSplit e (p ∷ ps) s
    → MatchesAll (pieces_take (p ∷ ps)) s
end_from p ps s true q (m, b, r, t, u) =
    subst (λ ws. MatchesAll ws s) (sym (drop_last-run p ps q))
      (MatchesAll-append_from (pieces_take (drop_last (p ∷ ps))) (run ∷ []) s
        (m, b, r, t, (b, [], sym (append-nil b), refl)))
end_from p ps s false q (m, b, r, t, inl e) = false_true (sym e)
end_from p ps s false q (m, b, r, t, inr e) =
    subst (MatchesAll (pieces_take (p ∷ ps))) (sym (r ∙ ap (λ c. m ++ c) e ∙ append-nil m)) t

-- An expression with an anchored start finds what its pieces match.
closed_to :
    (p : Piece) (ps : List Piece) (s : Text)
    → is_any_run (some p) ≡ false
    → MatchesAll (pieces_take (p ∷ ps)) s
    → Finds (anchored (p ∷ ps)) s
closed_to p ps s h k =
    let (m, b, r, t, u) = end_to p ps s (is_any_run (get_last? (p ∷ ps))) refl k in
    rw h ([], m, b, r, t, inr refl, u)

anchored_to : (ps : List Piece) (s : Text) → MatchesAll (pieces_take ps) s → Finds (anchored ps) s
anchored_to [] s h = ([], [], [], h, refl, inr refl, inr refl)
anchored_to (any_run ∷ []) s h = ([], [], s, refl, refl, inl refl, inl refl)
anchored_to (any_run ∷ q ∷ ps) s (a, c, e, h) =
    let (m, b, r, t, u) = end_to q ps c (is_any_run (get_last? (q ∷ ps))) refl h in
    (a, m, b, e ∙ ap (λ x. a ++ x) r, t, inl refl, u)
anchored_to (any_char ∷ ps) s h = closed_to any_char ps s refl h
anchored_to (literal c ∷ ps) s h = closed_to (literal c) ps s refl h

closed_from :
    (p : Piece) (ps : List Piece) (s : Text)
    → is_any_run (some p) ≡ false
    → Finds (anchored (p ∷ ps)) s
    → MatchesAll (pieces_take (p ∷ ps)) s
closed_from p ps s h f =
    let (a, m, b, r, t, v, u) = rw h at f in
    let start : a ≡ [] = elim v [ inl e ↦ false_true (sym e) | inr e ↦ e ] in
    end_from p ps s (is_any_run (get_last? (p ∷ ps))) refl
      (m, b, r ∙ ap (λ x. x ++ (m ++ b)) start, t, u)

anchored_from : (ps : List Piece) (s : Text) → Finds (anchored ps) s → MatchesAll (pieces_take ps) s
anchored_from [] s (a, m, b, r, t, inl e, u) = false_true (sym e)
anchored_from [] s (a, m, b, r, t, v, inl e) = false_true (sym e)
anchored_from [] s (a, m, b, r, t, inr v, inr u) = ground (arith)
anchored_from (any_run ∷ []) s f = (s, [], sym (append-nil s), refl)
anchored_from (any_run ∷ q ∷ ps) s (a, m, b, r, t, v, u) =
    (a, m ++ b, r, end_from q ps (m ++ b) (is_any_run (get_last? (q ∷ ps))) refl (m, b, refl, t, u))
anchored_from (any_char ∷ ps) s h = closed_from any_char ps s refl h
anchored_from (literal c ∷ ps) s h = closed_from (literal c) ps s refl h

-- The regular expression of a pattern finds a text exactly where the pattern matches it whole.
pub like_regex-Finds : (p s : Text) → Finds (like_regex_parts p) s ↔ Matches (like_tokens p) s
unfolding like_regex_parts
like_regex-Finds p s =
    let e = pieces_take-tokens (like_tokens p) in
    (
      λ f. subst (λ ws. MatchesAll ws s) e (anchored_from (map piece (like_tokens p)) s f),
      λ m. anchored_to (map piece (like_tokens p)) s (subst (λ ws. MatchesAll ws s) (sym e) m),
    )
