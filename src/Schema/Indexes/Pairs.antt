-- ===== src/Schema/Indexes/Pairs.antt =====
-- `pairIndexes` of packages/orm/src/schema/indexDifferences.ts: what its two rounds pair.
use uql.Base.{
  Bool, true, false, not, List, [], ◌∷◌, ◌++◌, map, filter, ◌≡◌, ◌⊎◌, refl, sym, ap, ◌∙◌, subst,
  ◌==◌, Bool-cases, inl, inr, All, All-map, All-append, filter-All, All-filter, All-both, All-every,
}
use mathlib.Core.List.{append_assoc, append-nil, Perm, perm_middle}
use mathlib.Core.List.Perm
use uql.Text.{text_eq}
use uql.Schema.Match.{Matches}
use uql.Schema.Match.Splits.{Splits, match_by_key-Splits}
use uql.Schema.Match.Parts.{match_by_key-InParts}
use uql.Schema.Indexes.Describe.{Index}
use uql.Schema.Indexes.{
  stem_of, is_partial, plain, partial, index_signature, paired_by_name, paired_by_shape,
  pair_indexes,
}

module _ {A : Type 0} where
  perm_swap : (xs ys : List A) → Perm (xs ++ ys) (ys ++ xs)
  perm_swap [] ys = subst (λ l. Perm ys l) (sym (append-nil ys)) (Perm.refl ys)
  perm_swap (x ∷ xs) ys = Perm.trans (Perm.cons x (perm_swap xs ys)) (Perm.symm (perm_middle ys xs))

  -- The items that a test takes, and the others.
  perm_parts : (p : A → Bool) (xs : List A) → Perm xs (filter p xs ++ filter (λ x. not (p x)) xs)
  perm_parts p [] = Perm.refl []
  perm_parts p (x ∷ xs) = elim (Bool-cases (p x)) [
    | inl e ↦ rw e (Perm.cons x (perm_parts p xs))
    | inr e ↦
        rw e (Perm.trans (Perm.cons x (perm_parts p xs)) (Perm.symm (perm_middle (filter p xs) _)))
  ]

  perm_rounds :
      (ps shaped_left firsts seconds : List A) {all left ls : List A}
      → Perm all (left ++ firsts)
      → Perm left (ps ++ ls)
      → Perm ls (shaped_left ++ seconds)
      → Perm all ((ps ++ shaped_left) ++ (firsts ++ seconds))
  perm_rounds ps shaped_left firsts seconds a b c =
      let e : (ps ++ shaped_left) ++ (seconds ++ firsts)
          ≡ (ps ++ (shaped_left ++ seconds)) ++ firsts =
        sym (append_assoc (ps ++ shaped_left) seconds firsts)
        ∙ ap (λ l. l ++ firsts) (append_assoc ps shaped_left seconds) in
      Perm.trans a (
        Perm.trans (Perm.append_right firsts (Perm.trans b (Perm.append_left ps c))) (
          subst (λ l. Perm l ((ps ++ shaped_left) ++ (firsts ++ seconds))) e
            (Perm.append_left (ps ++ shaped_left) (perm_swap seconds firsts))))

-- What a pairing of indexes promises: each index is in one part; a pair has one stem, or one signature
-- and no predicate; of those left over no two share a stem, nor two without predicates a signature.
pub record PairsWell (source target : List Index) (out : Matches Index Index) : Type 0 where
  pub sources : Perm source (out.created ++ map (λ p. p.0) out.matched)
  pub targets : Perm target (out.dropped ++ map (λ p. p.1) out.matched)
  pub alike :
      All
        (λ p.
          (stem_of p.0 ≡ stem_of p.1)
          ⊎ ((is_partial p.0 ≡ false)
              × (is_partial p.1 ≡ false)
              × (index_signature p.0 ≡ index_signature p.1)))
        out.matched
  pub left_over :
      All
        (λ s.
          All
            (λ t.
              ((stem_of t == stem_of s) ≡ false)
              × (is_partial s ≡ false
                  → is_partial t ≡ false
                  → (index_signature t == index_signature s) ≡ false))
            out.dropped)
        out.created

map_append : {A B : Type 0} (f : A → B) (xs ys : List A) → map f (xs ++ ys) ≡ map f xs ++ map f ys
map_append f [] ys = refl
map_append f (x ∷ xs) ys = ap (λ l. f x ∷ l) (map_append f xs ys)

untrue : (b : Bool) → not b ≡ true → b ≡ false
untrue false h = refl
untrue true h = cc

plain-All : (is : List Index) → All (λ i. is_partial i ≡ false) (plain is)
plain-All is = All-map (λ i. untrue (is_partial i)) _ (filter-All (λ i. not (is_partial i)) is)

abbrev StemsApart : Index → Index → Type 0
StemsApart s t = (stem_of t == stem_of s) ≡ false

abbrev ShapesApart : Index → Index → Type 0
ShapesApart s t =
    is_partial s ≡ false → is_partial t ≡ false → (index_signature t == index_signature s) ≡ false

module _ (named : Matches Index Index) where
  -- What is left of a round by name is part of what the round left.
  dropped_left :
      (Q : Index → Type 0)
      → All Q named.dropped
      → All Q (partial named.dropped ++ (paired_by_shape named).dropped)
  dropped_left Q h =
      let (a, b, c) =
        match_by_key-InParts (λ i. Unit {0}) Q (plain named.created) (plain named.dropped)
          index_signature index_signature (All-every (λ i. tt) (plain named.created))
          (All-filter Q (λ i. not (is_partial i)) named.dropped h) in
      All-append Q (partial named.dropped) _ (All-filter Q is_partial named.dropped h) b

  created_left :
      (P : Index → Type 0)
      → All P named.created
      → All P (partial named.created ++ (paired_by_shape named).created)
  created_left P h =
      let (a, b, c) =
        match_by_key-InParts P (λ i. Unit {0}) (plain named.created) (plain named.dropped)
          index_signature index_signature (All-filter P (λ i. not (is_partial i)) named.created h)
          (All-every (λ i. tt) (plain named.dropped)) in
      All-append P (partial named.created) _ (All-filter P is_partial named.created h) a

  shapes_left :
      All
        (λ s. All (λ t. ShapesApart s t) (partial named.dropped ++ (paired_by_shape named).dropped))
        (partial named.created ++ (paired_by_shape named).created)
  shapes_left =
      let m =
        match_by_key-Splits index_signature index_signature (plain named.created)
          (plain named.dropped) in
      All-append
        (λ s. All (λ t. ShapesApart s t) (partial named.dropped ++ (paired_by_shape named).dropped))
        (partial named.created) _
        (All-map (λ s e. All-every (λ t h k. cc) _) (partial named.created)
          (filter-All is_partial named.created))
        (All-map
          (λ s h.
            All-append (λ t. ShapesApart s t) (partial named.dropped) _
              (All-map (λ t e f k. cc) (partial named.dropped)
                (filter-All is_partial named.dropped))
              (All-map (λ t e f k. e) (paired_by_shape named).dropped h))
          (paired_by_shape named).created m.left_over)

module _ (source target : List Index) where
  -- Pairing two lists of indexes puts each index in one part. The two of a pair have one stem, or neither has
  -- a predicate and they have one signature. No index left over on one side shares its stem with one left
  -- over on the other, nor, where neither has a predicate, its signature.
  pub pair_indexes-PairsWell : PairsWell source target (pair_indexes source target)
  unfolding pair_indexes
  pair_indexes-PairsWell =
      let named = paired_by_name source target in
      let shaped = paired_by_shape named in
      let n : Splits text_eq stem_of stem_of source target named =
        match_by_key-Splits stem_of stem_of source target in
      let m : Splits text_eq index_signature index_signature (plain named.created)
          (plain named.dropped) shaped =
        match_by_key-Splits index_signature index_signature (plain named.created)
          (plain named.dropped) in
      let (no_created, no_dropped, no_matched) =
        match_by_key-InParts (λ i. is_partial i ≡ false) (λ i. is_partial i ≡ false)
          (plain named.created) (plain named.dropped) index_signature index_signature
          (plain-All named.created) (plain-All named.dropped) in
      record {
        sources =
            subst (λ l. Perm source ((partial named.created ++ shaped.created) ++ l))
              (sym (map_append (λ p. p.0) named.matched shaped.matched))
              (perm_rounds (partial named.created) shaped.created (map (λ p. p.0) named.matched)
                (map (λ p. p.0) shaped.matched) n.sources (perm_parts is_partial named.created)
                m.sources);
        targets =
            subst (λ l. Perm target ((partial named.dropped ++ shaped.dropped) ++ l))
              (sym (map_append (λ p. p.1) named.matched shaped.matched))
              (perm_rounds (partial named.dropped) shaped.dropped (map (λ p. p.1) named.matched)
                (map (λ p. p.1) shaped.matched) n.targets (perm_parts is_partial named.dropped)
                m.targets);
        alike =
            All-append _ named.matched shaped.matched (All-map (λ p e. inl e) named.matched n.keys)
              (All-map (λ p h. let ((a, b), e) = h in inr (a, b, e)) shaped.matched
                (All-both _ _ shaped.matched no_matched m.keys));
        left_over =
            All-map (λ s h. let (a, b) = h in All-both _ _ _ a b)
              (partial named.created ++ shaped.created)
              (All-both _ _ _
                (created_left named
                  (λ s. All (λ t. StemsApart s t) (partial named.dropped ++ shaped.dropped))
                  (All-map (λ s h. dropped_left named (λ t. StemsApart s t) h) named.created
                    n.left_over))
                (shapes_left named));
      }
