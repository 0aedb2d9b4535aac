-- ===== src/Dialect/WhereSql/Fuel.antt =====
-- The fuel of `chain_on`: the number of the parts is enough.
use mathlib.Core.Path.{ap₂}
use uql.Base.{
  ℕ, zero, suc, ◌+◌, ◌/◌, ◌≤◌, Bool, false, List, [], ◌∷◌, ◌++◌, length, take, leb, ◌≡◌, refl,
  arith, Bool-cases, inl, inr,
}
use uql.Dialect.WhereSql.{Token, drop, in_parens, join_word, chain_width, chain_on}

pub length-take : {A : Type 0} (n : ℕ) (xs : List A) → length (take n xs) ≤ n
length-take zero xs = omega arith
length-take (suc n) [] = omega arith
length-take (suc n) (x ∷ xs) = omega (arith, length-take n xs)

pub length-drop :
    {A : Type 0} (n : ℕ) (xs : List A) → n ≤ length xs → n + length (drop n xs) ≡ length xs
length-drop zero xs h = omega arith
length-drop (suc n) [] h = omega arith
length-drop (suc n) (x ∷ xs) h = omega (arith, length-drop n xs (omega arith))

pub past_width : (n : ℕ) → leb n chain_width ≡ false → 17 ≤ n
past_width n h = ground arith

module _ {V : Type 0} where
  -- More fuel than the parts number changes nothing of what a chain writes.
  pub chain_on-enough :
      (m n : ℕ) (by_or : Bool) (parts : List (List (Token V)))
      → length parts ≤ m
      → length parts ≤ n
      → chain_on m by_or parts ≡ chain_on n by_or parts
  unfolding chain_on
  chain_on-enough zero zero by_or parts h k = refl
  chain_on-enough zero (suc n) by_or [] h k = refl
  chain_on-enough zero (suc n) by_or (p ∷ ps) h k = let never : ⊥ = omega arith in elim never [ ]
  chain_on-enough (suc m) zero by_or [] h k = refl
  chain_on-enough (suc m) zero by_or (p ∷ ps) h k = let never : ⊥ = omega arith in elim never [ ]
  chain_on-enough (suc m) (suc n) by_or parts h k =
      elim (Bool-cases (leb (length parts) chain_width)) [
        | inl e ↦ rw e refl
        | inr e ↦
            let wide = past_width (length parts) e in
            let half = (length parts + 1) / 2 in
            let short = length-take half parts in
            let rest = length-drop half parts (omega arith) in
            let first = chain_on-enough m n by_or (take half parts) (omega arith) (omega arith) in
            let second = chain_on-enough m n by_or (drop half parts) (omega arith) (omega arith) in
            rw e (ap₂ (λ s t. in_parens s ++ join_word by_or ∷ in_parens t) first second)
      ]
