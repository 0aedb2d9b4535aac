-- ===== src/Querier/Keyset/Total.antt =====
-- What the total prefix of a page's order sorts by.
use mathlib.Core.Path.{ap₂}
use mathlib.Core.List.{append_assoc}
use uql.Base.{
  ◌⊎◌, All, All-map, false_true, String, Bool, true, false, ◌&&◌, ◌||◌, List, [], ◌∷◌, ◌++◌, ◌≡◌,
  refl, ap, sym, ◌∙◌, subst, any, all, length, ltb, ◌==◌, string_eq, Bool-cases, inl, inr,
}
use uql.Result.{ok, ok_eq}
use uql.Querier.Keyset.{PageKey}
use uql.Querier.Keyset.Prefix.{PageMeta, uniques, covers, total_from, total_prefix}
use uql.Querier.Keyset.Identifies.{Identifies, uniques-Identifies, any-All}

-- Whether each of the columns is one that the keys sort by.
abbrev pub sorts_by : List PageKey → List String → Bool
sorts_by keys columns = all (λ c. any (λ k. c == k.key) keys) columns

abbrev seen_after : List String → List PageKey → List String
seen_after seen [] = seen
seen_after seen (k ∷ ks) = seen_after (k.key ∷ seen) ks

either_first : (a b c : Bool) → (a || (b || c)) ≡ ((b || a) || c)
either_first true true c = refl
either_first true false c = refl
either_first false true c = refl
either_first false false c = refl

or_none : (a : Bool) → (a || false) ≡ a
or_none true = refl
or_none false = refl

any-seen_after :
    (c : String) (seen : List String) (ks : List PageKey)
    → any (λ s. c == s) (seen_after seen ks) ≡ (any (λ k. c == k.key) ks || any (λ s. c == s) seen)
any-seen_after c seen [] = refl
any-seen_after c seen (k ∷ ks) =
    any-seen_after c (k.key ∷ seen) ks
    ∙ either_first (any (λ q. c == q.key) ks) (c == k.key) (any (λ s. c == s) seen)

covers-seen_after :
    (keys : List PageKey) (columns : List String)
    → covers (seen_after [] keys) columns ≡ sorts_by keys columns
unfolding covers
covers-seen_after keys [] = refl
covers-seen_after keys (c ∷ cs) =
    ap₂ (λ a b. a && b) (any-seen_after c [] keys ∙ or_none (any (λ k. c == k.key) keys))
      (covers-seen_after keys cs)

-- Whether all of the keys that the loop took but the last leave every unique uncovered.
abbrev StopsFirst : List (List String) → List String → List PageKey → Type 0
StopsFirst uniques seen taken =
    (init : List PageKey) × (last : PageKey) × (taken ≡ init ++ last ∷ [])
    × ((init ≡ []) ⊎ (any (covers (seen_after seen init)) uniques ≡ false))

StopsFirst-later :
    (uniques : List (List String)) (seen : List String) (k : PageKey) (taken : List PageKey)
    → any (covers (k.key ∷ seen)) uniques ≡ false
    → StopsFirst uniques (k.key ∷ seen) taken
    → StopsFirst uniques seen (k ∷ taken)
StopsFirst-later uniques seen k taken e (init, last, s, inl none_before) = (
  k ∷ init,
  last,
  ap (λ l. k ∷ l) s,
  inr (subst (λ l. any (covers (seen_after (k.key ∷ seen) l)) uniques ≡ false) (sym none_before) e),
)
StopsFirst-later uniques seen k taken e (init, last, s, inr f) =
    (k ∷ init, last, ap (λ l. k ∷ l) s, inr f)

any-same :
    {A : Type 0} (p q : A → Bool) → ((x : A) → p x ≡ q x) → (xs : List A) → any p xs ≡ any q xs
any-same p q h [] = refl
any-same p q h (x ∷ xs) = ap₂ (λ a b. a || b) (h x) (any-same p q h xs)

sorts_by-none :
    (columns : List String) → ltb 0 (length columns) ≡ true → sorts_by [] columns ≡ false
sorts_by-none [] h = false_true (sym h)
sorts_by-none (c ∷ cs) h = refl

any-none : {A : Type 0} (p : A → Bool) (xs : List A) → All (λ x. p x ≡ false) xs → any p xs ≡ false
any-none p [] h = refl
any-none p (x ∷ xs) (e, h) = rw (e, any-none p xs h) refl

uncovered :
    (meta : PageMeta) (init : List PageKey)
    → (init ≡ []) ⊎ (any (covers (seen_after [] init)) (uniques meta) ≡ false)
    → any (sorts_by init) (uniques meta) ≡ false
uncovered meta init (inl e) =
    subst (λ l. any (sorts_by l) (uniques meta) ≡ false) (sym e)
      (any-none (sorts_by []) (uniques meta)
        (All-map (λ columns h. sorts_by-none columns h.0) (uniques meta) (uniques-Identifies meta)))
uncovered meta init (inr e) =
    sym (
      any-same (covers (seen_after [] init)) (sorts_by init) (covers-seen_after init)
        (uniques meta))
    ∙ e

total_from-ok :
    (uniques : List (List String)) (seen : List String) (before order : List PageKey)
    {keys : List PageKey}
    → total_from uniques seen before order ≡ ok keys
    → (taken : List PageKey) × (rest : List PageKey) × (order ≡ taken ++ rest)
      × (keys ≡ before ++ taken)
      × (any (covers (seen_after seen taken)) uniques ≡ true)
      × StopsFirst uniques seen taken
unfolding total_from
total_from-ok uniques seen before [] h = cc
total_from-ok uniques seen before (k ∷ ks) h =
    elim (Bool-cases (any (covers (k.key ∷ seen)) uniques)) [
      | inl e ↦ (k ∷ [], ks, refl, sym (ok_eq (sym (rw e refl) ∙ h)), e, ([], k, refl, inl refl))
      | inr e ↦
          let later = sym (rw e refl) ∙ h in
          let (taken, rest, s, j, c, first) =
            total_from-ok uniques (k.key ∷ seen) (before ++ k ∷ []) ks later in
          (
            k ∷ taken,
            rest,
            ap (λ l. k ∷ l) s,
            j ∙ append_assoc before (k ∷ []) taken,
            c,
            StopsFirst-later uniques seen k taken e first,
          )
    ]

-- The total prefix of a page's order is a first part of it, and sorts by all of some columns that no two
-- rows hold the same values of: the primary key's, a unique non-null field, or those of a unique
-- index without a predicate, each of whose entries is a non-null column. Without its last key it
-- sorts by all columns of none of the entity's uniques.
pub total_prefix-sorts_by :
    (meta : PageMeta) (order : List PageKey) {keys : List PageKey}
    → total_prefix meta order ≡ ok keys
    → (rest : List PageKey) × (columns : List String) × (order ≡ keys ++ rest)
      × Identifies meta columns
      × (ltb 0 (length columns) ≡ true)
      × (sorts_by keys columns ≡ true)
      × (init : List PageKey) × (last : PageKey) × (keys ≡ init ++ last ∷ [])
      × (any (sorts_by init) (uniques meta) ≡ false)
unfolding total_prefix
total_prefix-sorts_by meta order h =
    let (taken, rest, s, j, c, (init, last, t, f)) = total_from-ok _ [] [] order h in
    let (columns, (filled, unique), e) =
      any-All (covers (seen_after [] taken)) (uniques meta) (uniques-Identifies meta) c in
    (
      rest,
      columns,
      s ∙ ap (λ l. l ++ rest) (sym j),
      unique,
      filled,
      subst (λ ks. sorts_by ks columns ≡ true) (sym j) (sym (covers-seen_after taken columns) ∙ e),
      init,
      last,
      j ∙ t,
      uncovered meta init f,
    )
