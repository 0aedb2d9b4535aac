-- ===== src/Querier/Keyset/Paging.antt =====
-- What the query of a page selects, and how a page cuts the rows that it is answered.
use mathlib.Core.Path.{ap₂}
use mathlib.Core.List.{reverse-cons}
use uql.Base.{
  ℕ, zero, suc, Bool, true, false, ◌&&◌, ◌||◌, not, List, [], ◌∷◌, ◌≡◌, refl, map, arith, all, All,
  All-append, filter, take, length, reverse, ltb, ◌∙◌, ap,
}
use uql.Querier.Where.{Where, wheres, where_and}
use uql.Querier.Where.Meaning.{both, Order, Row, true_or_none, where_truth, clauses_truth, selects}
use uql.Querier.Where.Laws.{selects-where_and, true_or_none-both}
use uql.Querier.Keyset.{PageKey, inverted, keyset_clauses}
use uql.Querier.Keyset.Order.{comes_after, after_asym, after-inverted}
use uql.Querier.Keyset.Clauses.{Fits, takes}
use uql.Querier.Keyset.Refinement.{EndsRequired, keyset_clauses-comes_after}
use uql.Querier.Keyset.Read.{Query, mint}

module _ {V : Type 0} (o : Order V) where
  -- What an engine answers to the query of a page, of rows that stand in the order of its `$sort`.
  abbrev pub run : Query V → List (Row V) → List (Row V)
  run q rows = take q.limit (filter (selects o q.matching) rows)

  pub clauses-all :
      (ws : List (Where V)) (row : Row V)
      → true_or_none (clauses_truth o both (wheres ws) row) ≡ all (λ w. selects o w row) ws
  unfolding where_truth
  clauses-all [] row = refl
  clauses-all (w ∷ ws) row =
      true_or_none-both (where_truth o w row) (clauses_truth o both (wheres ws) row)
      ∙ ap (λ b. selects o w row && b) (clauses-all ws row)

  -- Every key of the row takes the value that it holds.
  abbrev pub Stored : List PageKey → Row V → Type 0
  Stored [] row = Unit
  Stored (k ∷ keys) row = (takes k (row k.key) ≡ true) × Stored keys row

  pub Fits-mint :
      (keys : List PageKey) (c row : Row V)
      → Stored keys c
      → Stored keys row
      → Fits o row keys (mint keys c)
  Fits-mint [] c row h k = tt
  Fits-mint (l ∷ keys) c row h k = (h.0, k.0, Fits-mint keys c row h.1 k.1)

  pub Stored-inverted :
      (keys : List PageKey) (row : Row V) → Stored keys row → Stored (map inverted keys) row
  Stored-inverted [] row h = tt
  Stored-inverted (k ∷ keys) row h = (h.0, Stored-inverted keys row h.1)

  pub EndsRequired-inverted :
      (k : PageKey) (keys : List PageKey)
      → EndsRequired (k ∷ keys)
      → EndsRequired (map inverted (k ∷ keys))
  EndsRequired-inverted k [] h = h
  EndsRequired-inverted k (l ∷ keys) h = EndsRequired-inverted l keys h

  -- Whether the row comes strictly after another in the page's order.
  abbrev pub follows : List PageKey → Row V → Row V → Bool
  follows keys c row = comes_after o keys (mint keys c) row

  pub follows_asym :
      (keys : List PageKey) (c row : Row V) → follows keys c row ≡ true → follows keys row c ≡ false
  follows_asym [] c row h = refl
  follows_asym (k ∷ keys) c row h = ground (
    arith,
    after_asym o k (c k.key) (row k.key),
    after_asym o k (row k.key) (c k.key),
    follows_asym keys c row,
  )

  -- Inverting the keys turns the order of two rows round.
  pub follows-inverted :
      (keys : List PageKey) (c row : Row V) → follows (map inverted keys) c row ≡ follows keys row c
  follows-inverted [] c row = refl
  follows-inverted (k ∷ keys) c row =
      ap₂ (λ a b. a || b) (after-inverted o k (c k.key) (row k.key))
        (ap₂ (λ a b. not a && b) (after-inverted o k (row k.key) (c k.key))
          (follows-inverted keys c row))

  -- The rows that the query of a page past `c` selects.
  pub selects-past :
      (k : PageKey) (keys : List PageKey) (w : Where V) (c row : Row V)
      → EndsRequired (k ∷ keys)
      → Stored (k ∷ keys) c
      → Stored (k ∷ keys) row
      → selects o w row ≡ true
      → selects o (where_and w (wheres (keyset_clauses (k ∷ keys) (mint (k ∷ keys) c)))) row
        ≡ follows (k ∷ keys) c row
  selects-past k keys w c row r s t h =
      selects-where_and o row w (wheres (keyset_clauses (k ∷ keys) (mint (k ∷ keys) c)))
      ∙ ap₂ ◌&&◌ h (
          clauses-all (keyset_clauses (k ∷ keys) (mint (k ∷ keys) c)) row
          ∙ keyset_clauses-comes_after o row k keys (c k.key) (mint keys c)
              (Fits-mint (k ∷ keys) c row s t) r)

module _ {ℓ} {A : Type ℓ} (p : A → Bool) where
  pub filter_every : (xs : List A) → All (λ x. p x ≡ true) xs → filter p xs ≡ xs
  filter_every [] h = refl
  filter_every (x ∷ xs) h = rw (h.0, filter_every xs h.1)

  pub filter-none : (xs : List A) → All (λ x. p x ≡ false) xs → filter p xs ≡ []
  filter-none [] h = refl
  filter-none (x ∷ xs) h = rw (h.0, filter-none xs h.1)

module _ {ℓ} {A : Type ℓ} where
  pub take-take : (n : ℕ) (xs : List A) → take n (take (suc n) xs) ≡ take n xs
  take-take zero xs = refl
  take-take (suc n) [] = refl
  take-take (suc n) (x ∷ xs) = ap (λ l. x ∷ l) (take-take n xs)

  -- One row over the page size tells whether another page follows.
  pub more-take : (n : ℕ) (xs : List A) → ltb n (length (take (suc n) xs)) ≡ ltb n (length xs)
  more-take zero [] = refl
  more-take zero (x ∷ xs) = ground arith
  more-take (suc n) [] = refl
  more-take (suc n) (x ∷ xs) = ground (arith, more-take n xs)

  pub All-reverse : (P : A → Type 0) (xs : List A) → All P xs → All P (reverse xs)
  All-reverse P [] h = tt
  All-reverse P (x ∷ xs) h =
      rw reverse-cons (All-append P (reverse xs) (x ∷ []) (All-reverse P xs h.1) (h.0, tt))
