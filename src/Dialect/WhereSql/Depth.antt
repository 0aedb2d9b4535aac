-- ===== src/Dialect/WhereSql/Depth.antt =====
-- How deep an engine nests what `chain` of packages/orm/src/dialect/abstractSqlDialect.ts writes.
use mathlib.Core.List.{append_assoc}
use uql.Base.{
  ℕ, zero, suc, ◌+◌, ◌*◌, ◌/◌, ◌^◌, ◌≤◌, Bool, true, List, [], ◌∷◌, ◌++◌, length, take, leb, ◌≡◌,
  refl, subst, arith, Bool-cases, inl, inr, All, All-map, Has,
}
use uql.Dialect.WhereSql.{
  Token, drop, in_parens, join_word, joined_parts, chain_width, chain_on, chain,
}
use uql.Dialect.WhereSql.Fuel.{length-take, length-drop, past_width}

-- SQL reads a chain from the left: an expression is an operand, or an expression, the word, and an operand,
-- which nests what is before it once more. `Nests n` has the expressions that nest no more than `n` times,
-- where an operand that is one of the parts counts nothing.
module _ {V : Type 0} (by_or : Bool) (IsPart : List (Token V) → Type 0) where
  mutual
    pub data Nests : ℕ → List (Token V) → Type 0 where
      one : {n : ℕ} {t : List (Token V)} → IsOperand n t → Nests n t
      join :
          {n : ℕ} (s t : List (Token V))
          → Nests n s
          → IsOperand n t
          → Nests (suc n) (s ++ join_word by_or ∷ t)

    pub data IsOperand : ℕ → List (Token V) → Type 0 where
      part : {n : ℕ} {t : List (Token V)} → IsPart t → IsOperand n t
      parens : {n : ℕ} {t : List (Token V)} → Nests n t → IsOperand n (in_parens t)

module _ {A : Type 0} (P : A → Type 0) where
  take-All : (n : ℕ) (xs : List A) → All P xs → All P (take n xs)
  take-All zero xs h = tt
  take-All (suc n) [] h = tt
  take-All (suc n) (x ∷ xs) (p, h) = (p, take-All n xs h)

  drop-All : (n : ℕ) (xs : List A) → All P xs → All P (drop n xs)
  drop-All zero xs h = h
  drop-All (suc n) [] h = tt
  drop-All (suc n) (x ∷ xs) (p, h) = drop-All n xs h

All-Has_own : {A : Type 0} (xs : List A) → All (λ x. Has x xs) xs
All-Has_own [] = tt
All-Has_own (x ∷ xs) = (inl refl, All-map (λ y m. inr m) xs (All-Has_own xs))

take-length : {A : Type 0} (n : ℕ) (xs : List A) → n ≤ length xs → length (take n xs) ≡ n
take-length zero xs h = refl
take-length (suc n) [] h = let never : ⊥ = omega arith in elim never [ ]
take-length (suc n) (x ∷ xs) h = omega (arith, take-length n xs (omega arith))

within_width : (n : ℕ) → n ≤ 16 * 2 ^ 0 → leb n chain_width ≡ true
within_width n h = let k : n ≤ 16 = h in ground arith

in_width : (n : ℕ) → leb n chain_width ≡ true → n ≤ 16
in_width n h = ground arith

module _ {V : Type 0} (by_or : Bool) (IsPart : List (Token V) → Type 0) where
  -- Parts joined after an expression nest it once each.
  joined_onto-Nests :
      (k : ℕ) (s : List (Token V)) (p : List (Token V)) (ps : List (List (Token V)))
      → Nests by_or IsPart k s
      → All IsPart (p ∷ ps)
      → Nests by_or IsPart
          (k + length (p ∷ ps))
          (s ++ join_word by_or ∷ joined_parts by_or (p ∷ ps))
  joined_onto-Nests k s p [] h (a, b) =
      subst (λ n. Nests by_or IsPart n (s ++ join_word by_or ∷ p)) (omega arith)
        (join s p h (part a))
  joined_onto-Nests k s p (q ∷ ps) h (a, b) =
      let t = joined_parts by_or (q ∷ ps) in
      let e : (suc k) + length (q ∷ ps) ≡ k + length (p ∷ q ∷ ps) = omega arith in
      subst (λ n. Nests by_or IsPart n (s ++ join_word by_or ∷ (p ++ join_word by_or ∷ t))) e
        (subst (Nests by_or IsPart (suc k + length (q ∷ ps)))
          (append_assoc s (join_word by_or ∷ p) (join_word by_or ∷ t))
          (joined_onto-Nests (suc k) (s ++ join_word by_or ∷ p) q ps (join s p h (part a)) b))

  mutual
    Nests-more :
        (m : ℕ) {n : ℕ} {t : List (Token V)}
        → n ≤ m
        → Nests by_or IsPart n t
        → Nests by_or IsPart m t
    Nests-more m h (one o) = one (IsOperand-more m h o)
    Nests-more zero h (join s t e o) = let never : ⊥ = omega arith in elim never [ ]
    Nests-more (suc m) h (join s t e o) =
        join s t (Nests-more m (omega arith) e) (IsOperand-more m (omega arith) o)

    IsOperand-more :
        (m : ℕ) {n : ℕ} {t : List (Token V)}
        → n ≤ m
        → IsOperand by_or IsPart n t
        → IsOperand by_or IsPart m t
    IsOperand-more m h (part p) = part p
    IsOperand-more m h (parens e) = parens (Nests-more m h e)

  joined_parts-Nests :
      (parts : List (List (Token V)))
      → All IsPart parts
      → 1 ≤ length parts
      → (m : ℕ) → length parts ≤ suc m
      → Nests by_or IsPart m (joined_parts by_or parts)
  joined_parts-Nests [] h k m e = let never : ⊥ = omega arith in elim never [ ]
  joined_parts-Nests (p ∷ []) (a, b) k m e = one (part a)
  joined_parts-Nests (p ∷ q ∷ ps) (a, b) k m e =
      Nests-more m (omega arith) (joined_onto-Nests 0 p q ps (one (part a)) b)

  twice_power : (d : ℕ) → 2 ^ suc d ≡ 2 * 2 ^ d
  twice_power d = omega arith

  chain_on-Nests :
      (fuel d : ℕ) (parts : List (List (Token V)))
      → All IsPart parts
      → 1 ≤ length parts
      → length parts ≤ fuel
      → length parts ≤ 16 * 2 ^ d
      → Nests by_or IsPart (15 + d) (chain_on fuel by_or parts)
  unfolding chain_on
  chain_on-Nests zero d parts h k f e = let never : ⊥ = omega arith in elim never [ ]
  chain_on-Nests (suc fuel) zero parts h k f e =
      let w = within_width (length parts) e in rw w (joined_parts-Nests parts h k 15 (omega arith))
  chain_on-Nests (suc fuel) (suc d) parts h k f e =
      elim (Bool-cases (leb (length parts) chain_width)) [
        | inl w ↦
            rw w
              (joined_parts-Nests parts h k (15 + suc d) (omega (arith, in_width (length parts) w)))
        | inr w ↦
            let wide = past_width (length parts) w in
            let half = (length parts + 1) / 2 in
            let short = length-take half parts in
            let rest = length-drop half parts (omega arith) in
            let power = twice_power d in
            let taken = take-length half parts (omega arith) in
            rw w (
              subst
                (λ n. Nests by_or IsPart n (
                  in_parens (chain_on fuel by_or (take half parts))
                  ++ join_word by_or ∷ in_parens (chain_on fuel by_or (drop half parts))))
                (omega arith)
                (join _ _
                  (one (
                    parens (
                      chain_on-Nests fuel d (take half parts) (take-All IsPart half parts h)
                        (omega (arith, taken)) (omega arith) (omega arith))))
                  (parens (
                    chain_on-Nests fuel d (drop half parts) (drop-All IsPart half parts h)
                      (omega arith) (omega arith) (omega arith)))))
      ]

-- A chain of at most `16 * 2 ^ d` parts, and of one at least, nests no deeper than `15 + d` times, the parts
-- themselves aside: its depth grows with the log of its length, up to the width of a level.
pub chain-Nests :
    {V : Type 0} (by_or : Bool) (d : ℕ) (p : List (Token V)) (ps : List (List (Token V)))
    → length (p ∷ ps) ≤ 16 * 2 ^ d
    → Nests by_or (λ t. Has t (p ∷ ps)) (15 + d) (chain by_or (p ∷ ps))
chain-Nests by_or d p ps h =
    chain_on-Nests by_or (λ t. Has t (p ∷ ps)) (length (p ∷ ps)) d (p ∷ ps) (All-Has_own (p ∷ ps))
      (omega arith) (omega arith) h
