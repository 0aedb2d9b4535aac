-- ===== src/Dialect/WhereSql/Unique.antt =====
-- SQL reads a text in one way: a reader that goes from left to right finds the truth that the grammar gives it.
use mathlib.Core.List.{append_assoc}
use uql.Base.{
  ℕ, zero, suc, ◌+◌, ◌≤◌, Bool, true, false, Option, none, some, some_eq, List, [], ◌∷◌, ◌++◌, ◌≡◌,
  refl, sym, ap, ◌∙◌, arith,
}
use uql.Querier.Where.Meaning.{Truth, both, either, negated, Order, Row, condition_truth}
use uql.Dialect.WhereSql.{
  Token, condition, and_word, or_word, not_word, open_paren, close_paren, in_parens,
}
use uql.Dialect.WhereSql.Grammar.{
  Level, or_level, and_level, not_level, Reads, reads_condition, reads_parens, reads_not,
  reads_operand, reads_and, reads_conjunction, reads_or,
}

-- A truth, and the tokens after the text that has it.
abbrev Found : Type 0 → Type 0
Found V = Option (Truth × List (Token V))

module _ {V : Type 0} where
  abbrev combine : (Truth → Truth → Truth) → Truth → Found V → Found V
  combine f a none = none
  combine f a (some (b, rest)) = some (f a b, rest)

  abbrev after_and : (List (Token V) → Found V) → Found V → Found V
  after_and again none = none
  after_and again (some (a, and_word ∷ rest)) = combine both a (again rest)
  after_and again (some (a, rest)) = some (a, rest)

  abbrev after_or : (List (Token V) → Found V) → Found V → Found V
  after_or again none = none
  after_or again (some (a, or_word ∷ rest)) = combine either a (again rest)
  after_or again (some (a, rest)) = some (a, rest)

  abbrev negated_found : Found V → Found V
  negated_found none = none
  negated_found (some (a, rest)) = some (negated a, rest)

  abbrev closed : Found V → Found V
  closed (some (a, close_paren ∷ rest)) = some (a, rest)
  closed _ = none

  abbrev starts_and : List (Token V) → Bool
  starts_and (and_word ∷ rest) = true
  starts_and _ = false

  abbrev starts_or : List (Token V) → Bool
  starts_or (or_word ∷ rest) = true
  starts_or _ = false

  abbrev Stops : Level → List (Token V) → Type 0
  Stops or_level rest = (starts_and rest ≡ false) × (starts_or rest ≡ false)
  Stops and_level rest = starts_and rest ≡ false
  Stops not_level rest = Unit

  after_and-stops :
      (again : List (Token V) → Found V) (a : Truth) (rest : List (Token V))
      → starts_and rest ≡ false
      → after_and again (some (a, rest)) ≡ some (a, rest)
  after_and-stops again a [] h = refl
  after_and-stops again a (and_word ∷ rest) h = cc
  after_and-stops again a (condition k c ∷ rest) h = refl
  after_and-stops again a (or_word ∷ rest) h = refl
  after_and-stops again a (not_word ∷ rest) h = refl
  after_and-stops again a (open_paren ∷ rest) h = refl
  after_and-stops again a (close_paren ∷ rest) h = refl

  after_or-stops :
      (again : List (Token V) → Found V) (a : Truth) (rest : List (Token V))
      → starts_or rest ≡ false
      → after_or again (some (a, rest)) ≡ some (a, rest)
  after_or-stops again a [] h = refl
  after_or-stops again a (or_word ∷ rest) h = cc
  after_or-stops again a (condition k c ∷ rest) h = refl
  after_or-stops again a (and_word ∷ rest) h = refl
  after_or-stops again a (not_word ∷ rest) h = refl
  after_or-stops again a (open_paren ∷ rest) h = refl
  after_or-stops again a (close_paren ∷ rest) h = refl

module _ {V : Type 0} (o : Order V) (row : Row V) where
  -- A recursive descent, on fuel.
  find : ℕ → Level → List (Token V) → Found V
  find zero level ts = none
  find (suc n) or_level ts = after_or (find n or_level) (find n and_level ts)
  find (suc n) and_level ts = after_and (find n and_level) (find n not_level ts)
  find (suc n) not_level (condition k c ∷ ts) = some (condition_truth o c (row k), ts)
  find (suc n) not_level (not_word ∷ ts) = negated_found (find n not_level ts)
  find (suc n) not_level (open_paren ∷ ts) = closed (find n or_level ts)
  find (suc n) not_level _ = none

  -- From some fuel on, the reader finds the truth and stops before the rest.
  Finds : Level → List (Token V) → Truth → List (Token V) → Type 0
  Finds level ts a rest = (n : ℕ) × ((m : ℕ) → n ≤ m → find m level ts ≡ some (a, rest))

  from_suc :
      (n : ℕ) (level : Level) (ts : List (Token V)) (a : Truth) (rest : List (Token V))
      → ((m : ℕ) → n ≤ m → find (suc m) level ts ≡ some (a, rest))
      → (m : ℕ) → suc n ≤ m
      → find m level ts ≡ some (a, rest)
  from_suc n level ts a rest f zero h = ground arith
  from_suc n level ts a rest f (suc m) h = f m (omega arith)

  Reads-Finds :
      {level : Level} {t : List (Token V)} {a : Truth}
      → Reads o row level t a
      → (rest : List (Token V)) → Stops level rest
      → Finds level (t ++ rest) a rest
  unfolding find Finds
  Reads-Finds (reads_condition k c) rest h = (
    1,
    from_suc 0 not_level (condition k c ∷ rest) (condition_truth o c (row k)) rest (λ m k. refl),
  )
  Reads-Finds {a = a} (reads_parens {t = t} r) rest h =
      let (n, f) = Reads-Finds r (close_paren ∷ rest) (refl, refl) in
      (
        suc n,
        from_suc n not_level (in_parens t ++ rest) a rest (λ m k.
            ap closed (ap (find m or_level) (append_assoc t (close_paren ∷ []) rest) ∙ f m k)),
      )
  Reads-Finds (reads_not {t = t} {a = a} r) rest h =
      let (n, f) = Reads-Finds r rest tt in
      (
        suc n,
        from_suc n not_level (not_word ∷ t ++ rest) (negated a) rest
            (λ m k. ap negated_found (f m k)),
      )
  Reads-Finds {t = t} {a = a} (reads_operand r) rest h =
      let (n, f) = Reads-Finds r rest tt in
      (
        suc n,
        from_suc n and_level (t ++ rest) a rest (λ m k.
            ap (after_and (find m and_level)) (f m k)
            ∙ after_and-stops (find m and_level) a rest h),
      )
  Reads-Finds (reads_and {s = s} {t = t} {a = a} {b = b} r q) rest h =
      let (n, f) = Reads-Finds r (and_word ∷ t ++ rest) tt in
      let (n₁, f₁) = Reads-Finds q rest h in
      (
        suc (n + n₁),
        from_suc (n + n₁) and_level ((s ++ and_word ∷ t) ++ rest) (both a b) rest (λ m k.
            ap (λ u. after_and (find m and_level) (find m not_level u))
              (append_assoc s (and_word ∷ t) rest)
            ∙ ap (after_and (find m and_level)) (f m (omega arith))
            ∙ ap (combine both a) (f₁ m (omega arith))),
      )
  Reads-Finds {t = t} {a = a} (reads_conjunction r) rest (h, k) =
      let (n, f) = Reads-Finds r rest h in
      (
        suc n,
        from_suc n or_level (t ++ rest) a rest (λ m l.
            ap (after_or (find m or_level)) (f m l) ∙ after_or-stops (find m or_level) a rest k),
      )
  Reads-Finds (reads_or {s = s} {t = t} {a = a} {b = b} r q) rest h =
      let (n, f) = Reads-Finds r (or_word ∷ t ++ rest) refl in
      let (n₁, f₁) = Reads-Finds q rest h in
      (
        suc (n + n₁),
        from_suc (n + n₁) or_level ((s ++ or_word ∷ t) ++ rest) (either a b) rest (λ m k.
            ap (λ u. after_or (find m or_level) (find m and_level u))
              (append_assoc s (or_word ∷ t) rest)
            ∙ ap (after_or (find m or_level)) (f m (omega arith))
            ∙ ap (combine either a) (f₁ m (omega arith))),
      )

  nothing_after : (level : Level) → Stops {V = V} level []
  nothing_after or_level = (refl, refl)
  nothing_after and_level = refl
  nothing_after not_level = tt

  -- A text has one truth at a level.
  pub Reads-unique :
      {level : Level} {t : List (Token V)} {a b : Truth}
      → Reads o row level t a
      → Reads o row level t b
      → a ≡ b
  unfolding Finds
  Reads-unique {level = level} {t = t} {a = a} {b = b} r q =
      let (n, f) = Reads-Finds r [] (nothing_after level) in
      let (n₁, f₁) = Reads-Finds q [] (nothing_after level) in
      ap (λ p. p.0) (some_eq (sym (f (n + n₁) (omega arith)) ∙ f₁ (n + n₁) (omega arith)))
