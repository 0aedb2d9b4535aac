-- ===== src/Dialect/WhereSql/Bodies.antt =====
-- What the bodies of a map and of a group mean, in the position that each stands in.
use mathlib.Core.Option
use uql.Base.{
  ℕ, suc, Bool, true, false, ◌&&◌, ◌||◌, List, [], ◌∷◌, Option, some, if◌then◌else◌, length, ltb,
  ◌≡◌, refl, sym, ap, ◌∙◌, subst, arith,
}
use uql.Querier.Where.{GroupOp, joins_or, negates}
use uql.Querier.Where.Meaning.{Truth, both, negated, Order, Row, joined, negation}
use uql.Dialect.WhereSql.{Token, chain_on, parens_if, negated_if, where_body, group_body}
use uql.Dialect.WhereSql.Grammar.{
  or_level, not_level, Reads, reads_parens, reads_not, reads_operand, reads_conjunction,
}
use uql.Dialect.WhereSql.Joins.{
  operand_level, Means, join_truth, Parts, widen, Reads-joined, Reads-chain,
}

module _ {V : Type 0} (o : Order V) (row : Row V) where
  pub more : (n : ℕ) → ltb 1 (suc (suc n)) ≡ true
  more n = ground arith

  pub lift :
      (operand : Bool) {t : List (Token V)} {a : Truth}
      → Reads o row not_level t a
      → Reads o row (operand_level operand) t a
  lift true r = r
  lift false r = reads_conjunction (reads_operand r)

  settle :
      (operand child : Bool) {t : List (Token V)} {a : Truth}
      → (child ≡ false → operand ≡ false)
      → Reads o row (operand_level child) t a
      → Reads o row (operand_level operand) t a
  settle operand true h r = lift operand r
  settle false false h r = r
  settle true false h r = let never : true ≡ false = h refl in cc

  parens_if-operand :
      (many operand : Bool) {t : List (Token V)} {a : Truth}
      → many ≡ true
      → Reads o row or_level t a
      → Reads o row (operand_level operand) (parens_if (many && operand) t) a
  parens_if-operand true true e r = reads_parens r
  parens_if-operand true false e r = r
  parens_if-operand false operand e r = cc

  pub where_body-Means :
      (operand child : Bool) (ps : List (List (Token V))) (x : Option Truth)
      → (ltb 1 (length ps) ≡ true → child ≡ true)
      → (child ≡ false → operand ≡ false)
      → Parts o row (operand_level child) false ps x
      → Means o row (operand_level operand) (where_body operand ps) x
  where_body-Means operand child [] x h k e =
      subst (λ y. Means o row (operand_level operand) [] y) (sym e) refl
  where_body-Means operand child (p ∷ []) x h k (a, rest, r, e, f) =
      subst (λ y. Means o row (operand_level operand) p y) (sym (f ∙ ap (joined both (some a)) e))
        (settle operand child k r)
  where_body-Means operand false (p ∷ q ∷ ps) x h k g =
      let never : false ≡ true = h (ground arith) in cc
  where_body-Means operand true (p ∷ q ∷ ps) x h k g =
      let (a, e, r) = Reads-joined o row false p (q ∷ ps) x g in
      subst (λ y. Means o row (operand_level operand) (where_body operand (p ∷ q ∷ ps)) y) (sym e)
        (parens_if-operand (ltb 1 (length (p ∷ q ∷ ps))) operand (more (length ps))
          (reads_conjunction r))

  group_many :
      (many operand negate : Bool) {t : List (Token V)} {a : Truth}
      → many ≡ true
      → Reads o row or_level t a
      → Reads o row
          (operand_level operand)
          (negated_if negate (parens_if (many && (operand || negate)) t))
          (if negate then negated a else a)
  group_many true true true e r = reads_not (reads_parens r)
  group_many true true false e r = reads_parens r
  group_many true false true e r = lift false (reads_not (reads_parens r))
  group_many true false false e r = r
  group_many false operand negate e r = cc

  group_one :
      (operand negate child : Bool) {t : List (Token V)} {a : Truth}
      → (child ≡ false → (operand ≡ false) × (negate ≡ false))
      → Reads o row (operand_level child) t a
      → Reads o row (operand_level operand) (negated_if negate t) (if negate then negated a else a)
  group_one operand true true h r = lift operand (reads_not r)
  group_one operand false true h r = lift operand r
  group_one operand true false h r = let never : true ≡ false = (h refl).1 in cc
  group_one operand false false h r = settle operand false (λ e. (h e).0) r

  pub group_body-Means :
      (operand child : Bool) (op : GroupOp) (ps : List (List (Token V))) (x : Option Truth)
      → (ltb 1 (length ps) ≡ true → child ≡ true)
      → (child ≡ false → (operand ≡ false) × (negates op ≡ false))
      → Parts o row (operand_level child) (joins_or op) ps x
      → Means o row
          (operand_level operand)
          (group_body operand op ps)
          (Option.map (negation o op) x)
  unfolding chain_on
  group_body-Means operand child op [] x h k e =
      subst (λ y. Means o row (operand_level operand) [] (Option.map (negation o op) y)) (sym e)
        refl
  group_body-Means operand child op (p ∷ []) x h k (a, rest, r, e, f) =
      subst
        (λ y.
          Means o row (operand_level operand) (negated_if (negates op) p)
            (Option.map (negation o op) y))
        (sym (f ∙ ap (joined (join_truth (joins_or op)) (some a)) e))
        (group_one operand (negates op) child k r)
  group_body-Means operand false op (p ∷ q ∷ ps) x h k g =
      let never : false ≡ true = h (ground arith) in cc
  group_body-Means operand true op (p ∷ q ∷ ps) x h k g =
      let (a, e, r) =
        Reads-chain o row (length (p ∷ q ∷ ps)) (joins_or op) (p ∷ q ∷ ps) x (omega arith) g in
      subst
        (λ y.
          Means o row (operand_level operand) (group_body operand op (p ∷ q ∷ ps))
            (Option.map (negation o op) y))
        (sym e)
        (group_many (ltb 1 (length (p ∷ q ∷ ps))) operand (negates op) (more (length ps))
          (widen o row (joins_or op) r))
