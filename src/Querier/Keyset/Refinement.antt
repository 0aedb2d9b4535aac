-- ===== src/Querier/Keyset/Refinement.antt =====
-- The clauses of a page select exactly the rows that come after its cursor.
use mathlib.Core.Path.{ap₂}
use uql.Base.{
  Bool, true, false, ◌&&◌, ◌||◌, not, List, [], ◌∷◌, ◌++◌, Option, none, some, ◌≡◌, refl, arith,
  any, all, All-append, any-append, ◌∙◌, ap, sym, Option-cases, inl, inr,
}
use uql.Querier.Where.{Where, empty, wheres, where_and, names_rows}
use uql.Querier.Where.Meaning.{
  both, Order, Row, joined, true_or_none, where_truth, clauses_truth, selects,
}
use uql.Querier.Where.Laws.{selects-where_and, true_or_none-both, and_true}
use uql.Querier.Keyset.{
  PageKey, KeysetLevel, any_of, past_of, at_or_past_of, nested, keyset_level, keyset_clauses,
  level_clauses,
}
use uql.Querier.Keyset.Order.{after, comes_after, after_asym}
use uql.Querier.Keyset.Clauses.{
  Names, Fits, takes, selects-any_of, names_rows-any_of, selects-past_of, selects-at_or_past_of,
  unbounded, Names-past_of, or_false, names_rows-at_or_past_of,
}

-- The last key of a total prefix is never null.
abbrev pub EndsRequired : List PageKey → Type 0
EndsRequired [] = ⊥
EndsRequired (k ∷ []) = k.nullable ≡ false
EndsRequired (k ∷ l ∷ keys) = EndsRequired (l ∷ keys)

module _ {V : Type 0} (o : Order V) (row : Row V) where
  abbrev some_of : List (Where V) → Bool
  some_of ws = any (λ w. selects o w row) ws

  abbrev bound_selects : Option (Where V) → Bool
  bound_selects none = true
  bound_selects (some b) = selects o b row

  abbrev NamesBound : Option (Where V) → Type 0
  NamesBound none = Unit
  NamesBound (some b) = names_rows b ≡ true

  abbrev level_selects : KeysetLevel V → Bool
  level_selects level = bound_selects level.bound && some_of level.alternatives

  abbrev NotEmpty : List (Where V) → Type 0
  NotEmpty ws = (w : Where V) × (vs : List (Where V)) × (ws ≡ w ∷ vs)

  record LevelFits (level : KeysetLevel V) (rows : Bool) : Type 0 where
    names : Names level.alternatives
    some_alternative : NotEmpty level.alternatives
    names_bound : NamesBound level.bound
    exact : level_selects level ≡ rows

  pair-selects :
      (b w : Where V)
      → true_or_none (clauses_truth o both (wheres (b ∷ w ∷ [])) row)
        ≡ (selects o b row && selects o w row)
  unfolding where_truth
  pair-selects b w =
      true_or_none-both (where_truth o b row) (joined both (where_truth o w row) none)
      ∙ ap (λ c. selects o b row && c)
          (true_or_none-both (where_truth o w row) none ∙ and_true (selects o w row))

  any_of-selects :
      (ws : List (Where V))
      → NotEmpty ws
      → Names ws
      → (selects o (any_of ws) row ≡ some_of ws) × (names_rows (any_of ws) ≡ true)
  any_of-selects ws (w, vs, e) h =
      let k = rw e at h in rw e (selects-any_of o row w vs k, names_rows-any_of o row w vs k)

  -- An inner level as alternatives of the level around it.
  nested-selects :
      (bound : Option (Where V)) (alternatives : List (Where V)) (rows : Bool)
      → LevelFits (record { bound = bound; alternatives = alternatives }) rows
      → (some_of (nested (record { bound = bound; alternatives = alternatives })) ≡ rows)
        × Names (nested (record { bound = bound; alternatives = alternatives }))
        × NotEmpty (nested (record { bound = bound; alternatives = alternatives }))
  unfolding nested where_truth
  nested-selects none ws rows f = (f.exact, f.names, f.some_alternative)
  nested-selects (some b) ws rows f =
      let (e, n) = any_of-selects ws f.some_alternative f.names in
      (
        sym (or_false _)
            ∙ selects-where_and o row empty (wheres (b ∷ any_of ws ∷ []))
            ∙ pair-selects b (any_of ws)
            ∙ ap (λ c. selects o b row && c) e
            ∙ f.exact,
        (unfold names_rows where_and in ground (arith, f.names_bound), tt),
        (where_and empty (wheres (b ∷ any_of ws ∷ [])), [], refl),
      )

  or_and_false : (a t : Bool) → (a || false) ≡ (a || not t && false)
  or_and_false a t = ground arith

  -- A bound keeps the rows tied on its key, and drops none that comes after it.
  bounded : (a t i : Bool) → (a ≡ true → t ≡ false) → (not t && (a || i)) ≡ (a || not t && i)
  bounded a t i h = ground arith

  bound-selects :
      (k : PageKey) (v : Option V)
      → takes k (row k.key) ≡ true
      → bound_selects (at_or_past_of k v) ≡ not (after o k (row k.key) v)
  bound-selects k v h = elim (Option-cases (at_or_past_of k v)) [
    | inl e ↦ rw (e, unbounded o row k v e)
    | inr (b, e) ↦ rw e (selects-at_or_past_of o row k v b h e)
  ]

  bound-Names : (k : PageKey) (v : Option V) → NamesBound (at_or_past_of k v)
  bound-Names k v = elim (Option-cases (at_or_past_of k v)) [
    | inl e ↦ rw e tt
    | inr (b, e) ↦ rw e (names_rows-at_or_past_of o row k v b e)
  ]

  NotEmpty-append : (xs ys : List (Where V)) → NotEmpty ys → NotEmpty (xs ++ ys)
  NotEmpty-append [] ys h = h
  NotEmpty-append (x ∷ xs) ys h = (x, xs ++ ys, refl)

  -- The last key, which decides alone.
  last-Fits :
      (k : PageKey) (v : Option V)
      → Fits o row (k ∷ []) (v ∷ [])
      → k.nullable ≡ false
      → LevelFits (keyset_level (k ∷ []) (v ∷ [])) (comes_after o (k ∷ []) (v ∷ []) row)
  unfolding keyset_level nested
  last-Fits k none h r = cc (rw r at h.0)
  last-Fits k (some x) h r = record {
    names =
        All-append (λ w. names_rows w ≡ true) (past_of k (some x)) []
          (Names-past_of o row k (some x)) tt;
    some_alternative = unfold past_of in (_, _, refl);
    names_bound = tt;
    exact =
        any-append (λ w. selects o w row) (past_of k (some x)) []
        ∙ ap (λ c. c || false) (selects-past_of o row k (some x) h.1)
        ∙ or_and_false _ _;
  }

  level-Fits :
      (k : PageKey) (keys : List PageKey) (v : Option V) (values : List (Option V))
      → Fits o row (k ∷ keys) (v ∷ values)
      → EndsRequired (k ∷ keys)
      → LevelFits (keyset_level (k ∷ keys) (v ∷ values)) (comes_after o (k ∷ keys) (v ∷ values) row)
  unfolding keyset_level
  level-Fits k [] v [] h r = last-Fits k v h r
  level-Fits k [] v (u ∷ values) h r = absurd h.2
  level-Fits k (l ∷ keys) v [] h r = absurd h.2
  level-Fits k (l ∷ keys) v (u ∷ values) h r =
      let inner = keyset_level (l ∷ keys) (u ∷ values) in
      let ih = level-Fits l keys u values h.2 r in
      let (e, n, g) =
        nested-selects inner.bound inner.alternatives (comes_after o (l ∷ keys) (u ∷ values) row)
          ih in
      record {
        names =
            All-append (λ w. names_rows w ≡ true) (past_of k v) (nested inner)
              (Names-past_of o row k v) n;
        some_alternative = NotEmpty-append (past_of k v) (nested inner) g;
        names_bound = bound-Names k v;
        exact =
            ap₂ ◌&&◌ (bound-selects k v h.1) (
              any-append (λ w. selects o w row) (past_of k v) (nested inner)
              ∙ ap₂ ◌||◌ (selects-past_of o row k v h.1) e)
            ∙ bounded (after o k v (row k.key)) (after o k (row k.key) v) _
                (after_asym o k v (row k.key));
      }

  level-selects :
      (bound : Option (Where V)) (alternatives : List (Where V)) (rows : Bool)
      → LevelFits (record { bound = bound; alternatives = alternatives }) rows
      → all (λ w. selects o w row) (level_clauses bound alternatives) ≡ rows
  level-selects none ws rows f =
      let (e, n) = any_of-selects ws f.some_alternative f.names in and_true _ ∙ e ∙ f.exact
  level-selects (some b) ws rows f =
      let (e, n) = any_of-selects ws f.some_alternative f.names in
      ap (λ c. selects o b row && c) (and_true _ ∙ e) ∙ f.exact

  -- The rows that a page's clauses select are exactly the rows that come after its cursor in the
  -- order of its keys, where the last key holds no null and the cursor and the row hold a value
  -- for each key, a null only where the key is nullable.
  pub keyset_clauses-comes_after :
      (k : PageKey) (keys : List PageKey) (v : Option V) (values : List (Option V))
      → Fits o row (k ∷ keys) (v ∷ values)
      → EndsRequired (k ∷ keys)
      → all (λ w. selects o w row) (keyset_clauses (k ∷ keys) (v ∷ values))
        ≡ comes_after o (k ∷ keys) (v ∷ values) row
  unfolding keyset_clauses
  keyset_clauses-comes_after k keys v values h r =
      let level = keyset_level (k ∷ keys) (v ∷ values) in
      let f = level-Fits k keys v values h r in level-selects level.bound level.alternatives _ f
