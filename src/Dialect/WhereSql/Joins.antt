-- ===== src/Dialect/WhereSql/Joins.antt =====
-- What the joins of parts mean, in a chain or not.
use uql.Base.{
  ℕ, zero, suc, ◌+◌, ◌/◌, ◌≤◌, Bool, true, false, List, [], ◌∷◌, ◌++◌, Option, none, some,
  if◌then◌else◌, length, take, leb, ◌≡◌, refl, sym, ap, ◌∙◌, subst, arith, Bool-cases, inl, inr,
}
use uql.Querier.Where.Meaning.{Truth, both, either, Order, Row, joined}
use uql.Dialect.WhereSql.{
  Token, and_word, or_word, drop, join_word, joined_parts, chain_width, chain_on, keep,
}
use uql.Dialect.WhereSql.Grammar.{
  Level, or_level, and_level, not_level, Reads, reads_condition, reads_parens, reads_not,
  reads_operand, reads_and, reads_conjunction, reads_or,
}

abbrev pub operand_level : Bool → Level
operand_level true = not_level
operand_level false = or_level

-- The truth of a text that is read at a level, and none of one that is empty.
abbrev pub Means : {V : Type 0} → Order V → Row V → Level → List (Token V) → Option Truth → Type 0
Means o row level t none = t ≡ []
Means o row level t (some a) = Reads o row level t a

abbrev pub join_truth : Bool → Truth → Truth → Truth
join_truth by_or = if by_or then either else both

abbrev pub join_level : Bool → Level
join_level by_or = if by_or then or_level else and_level

both_assoc : (a b c : Truth) → both (both a b) c ≡ both a (both b c)
both_assoc a b c = ground arith

either_assoc : (a b c : Truth) → either (either a b) c ≡ either a (either b c)
either_assoc a b c = ground arith

join_assoc :
    (by_or : Bool) (a b c : Truth)
    → join_truth by_or (join_truth by_or a b) c ≡ join_truth by_or a (join_truth by_or b c)
join_assoc true a b c = either_assoc a b c
join_assoc false a b c = both_assoc a b c

joined_assoc :
    (by_or : Bool) (a : Truth) (x y : Option Truth)
    → joined (join_truth by_or) (joined (join_truth by_or) (some a) x) y
      ≡ joined (join_truth by_or) (some a) (joined (join_truth by_or) x y)
joined_assoc by_or a none y = refl
joined_assoc by_or a (some b) none = refl
joined_assoc by_or a (some b) (some c) = ap some (join_assoc by_or a b c)

module _ {V : Type 0} (o : Order V) (row : Row V) where
  -- The parts of a join, and the truth that they join to.
  abbrev pub Parts : Level → Bool → List (List (Token V)) → Option Truth → Type 0
  Parts level by_or [] x = x ≡ none
  Parts level by_or (p ∷ ps) x =
      (a : Truth) × (rest : Option Truth) × Reads o row level p a
      × Parts level by_or ps rest
      × (x ≡ joined (join_truth by_or) (some a) rest)

  pub raise :
      (by_or : Bool) {t : List (Token V)} {a : Truth}
      → Reads o row not_level t a
      → Reads o row (join_level by_or) t a
  raise true r = reads_conjunction (reads_operand r)
  raise false r = reads_operand r

  pub widen :
      (by_or : Bool) {t : List (Token V)} {a : Truth}
      → Reads o row (join_level by_or) t a
      → Reads o row or_level t a
  widen true r = r
  widen false r = reads_conjunction r

  Reads-join :
      (by_or : Bool) {s t : List (Token V)} {a b : Truth}
      → Reads o row not_level s a
      → Reads o row (join_level by_or) t b
      → Reads o row (join_level by_or) (s ++ join_word by_or ∷ t) (join_truth by_or a b)
  Reads-join true r q = reads_or (reads_operand r) q
  Reads-join false r q = reads_and r q

  pub Reads-joined :
      (by_or : Bool) (p : List (Token V)) (ps : List (List (Token V))) (x : Option Truth)
      → Parts not_level by_or (p ∷ ps) x
      → (a : Truth) × (x ≡ some a) × Reads o row (join_level by_or) (joined_parts by_or (p ∷ ps)) a
  Reads-joined by_or p [] x (a, rest, r, e, f) =
      (a, f ∙ ap (joined (join_truth by_or) (some a)) e, raise by_or r)
  Reads-joined by_or p (q ∷ ps) x (a, rest, r, h, f) =
      let (b, e, s) = Reads-joined by_or q ps rest h in
      (join_truth by_or a b, f ∙ ap (joined (join_truth by_or) (some a)) e, Reads-join by_or r s)

  take_drop :
      (by_or : Bool) (n : ℕ) (ps : List (List (Token V))) (x : Option Truth)
      → Parts not_level by_or ps x
      → (y : Option Truth) × (z : Option Truth) × Parts not_level by_or (take n ps) y
        × Parts not_level by_or (drop n ps) z
        × (x ≡ joined (join_truth by_or) y z)
  take_drop by_or zero ps x h = (none, x, refl, h, refl)
  take_drop by_or (suc n) [] x h = (none, none, refl, refl, h)
  take_drop by_or (suc n) (p ∷ ps) x (a, rest, r, h, f) =
      let (y, z, i, j, e) = take_drop by_or n ps rest h in
      (
        joined (join_truth by_or) (some a) y,
        z,
        (a, y, r, i, refl),
        j,
        f ∙ ap (joined (join_truth by_or) (some a)) e ∙ sym (joined_assoc by_or a y z),
      )

  take_some : (n : ℕ) (ps : List (List (Token V))) → 1 ≤ n → 1 ≤ length ps → 1 ≤ length (take n ps)
  take_some zero ps h k = omega arith
  take_some (suc n) [] h k = k
  take_some (suc n) (p ∷ ps) h k = omega arith

  drop_some : (n : ℕ) (ps : List (List (Token V))) → suc n ≤ length ps → 1 ≤ length (drop n ps)
  drop_some zero ps h = h
  drop_some (suc n) [] h = omega arith
  drop_some (suc n) (p ∷ ps) h = drop_some n ps (omega arith)

  Reads-some :
      (by_or : Bool) (ps : List (List (Token V))) (x : Option Truth)
      → 1 ≤ length ps
      → Parts not_level by_or ps x
      → (a : Truth) × (x ≡ some a) × Reads o row (join_level by_or) (joined_parts by_or ps) a
  Reads-some by_or [] x k h = let never : ⊥ = omega arith in elim never [ ]
  Reads-some by_or (p ∷ ps) x k h = Reads-joined by_or p ps x h

  long : (n : ℕ) → leb n chain_width ≡ false → 17 ≤ n
  long n h = ground arith

  pub Reads-chain :
      (fuel : ℕ) (by_or : Bool) (ps : List (List (Token V))) (x : Option Truth)
      → 1 ≤ length ps
      → Parts not_level by_or ps x
      → (a : Truth) × (x ≡ some a) × Reads o row (join_level by_or) (chain_on fuel by_or ps) a
  unfolding chain_on
  Reads-chain zero by_or ps x k h = Reads-some by_or ps x k h
  Reads-chain (suc fuel) by_or ps x k h = elim (Bool-cases (leb (length ps) chain_width)) [
    | inl e ↦
        let (a, f, r) = Reads-some by_or ps x k h in
        (a, f, subst (λ t. Reads o row (join_level by_or) t a) (sym (rw e refl)) r)
    | inr e ↦
        let wide = long (length ps) e in
        let half = (length ps + 1) / 2 in
        let (y, z, i, j, g) = take_drop by_or half ps x h in
        let (a, ea, ra) =
          Reads-chain fuel by_or (take half ps) y (take_some half ps (omega arith) k) i in
        let (b, eb, rb) =
          Reads-chain fuel by_or (drop half ps) z (drop_some half ps (omega arith)) j in
        (
          join_truth by_or a b,
          g ∙ (rw (ea, eb) refl),
          subst (λ t. Reads o row (join_level by_or) t (join_truth by_or a b)) (sym (rw e refl))
              (Reads-join by_or (reads_parens (widen by_or ra))
                (raise by_or (reads_parens (widen by_or rb)))),
        )
  ]

  -- A text that is read is not empty.
  abbrev pub is_written : List (Token V) → Bool
  is_written [] = false
  is_written (t ∷ ts) = true

  written_after : (s ts : List (Token V)) (t : Token V) → is_written (s ++ t ∷ ts) ≡ true
  written_after [] ts t = refl
  written_after (s ∷ ss) ts t = refl

  pub Reads-is_written :
      {level : Level} {t : List (Token V)} {a : Truth} → Reads o row level t a → is_written t ≡ true
  Reads-is_written (reads_condition key c) = refl
  Reads-is_written (reads_parens r) = refl
  Reads-is_written (reads_not r) = refl
  Reads-is_written (reads_operand r) = Reads-is_written r
  Reads-is_written (reads_conjunction r) = Reads-is_written r
  Reads-is_written (reads_and {s = s} {t = t} r q) = written_after s t and_word
  Reads-is_written (reads_or {s = s} {t = t} r q) = written_after s t or_word

  pub keep-Parts :
      (level : Level) (by_or : Bool) (t : List (Token V)) (ps : List (List (Token V)))
      (x y : Option Truth)
      → Means o row level t x
      → Parts level by_or ps y
      → Parts level by_or (keep t ps) (joined (join_truth by_or) x y)
  keep-Parts level by_or t ps none y e h = subst (λ s. Parts level by_or (keep s ps) y) (sym e) h
  keep-Parts level by_or (c ∷ cs) ps (some a) y r h = (a, y, r, h, refl)
  keep-Parts level by_or [] ps (some a) y r h = let never : false ≡ true = Reads-is_written r in cc
