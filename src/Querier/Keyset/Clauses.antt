-- ===== src/Querier/Keyset/Clauses.antt =====
-- `keysetClauses` selects exactly the rows past the cursor.
use mathlib.Core.Path.{ap₂}
use uql.Base.{
  is_some, Bool, true, false, ◌&&◌, ◌||◌, not, List, [], ◌∷◌, Option, none, some, if◌then◌else◌,
  ◌≡◌, refl, arith, some_eq, subst, any, All, ◌∙◌, ap, sym, Bool-cases, inl, inr,
}
use uql.Querier.Where.{lte, gte, Where, wheres, where_with, names_rows}
use uql.Querier.Where.Meaning.{
  Truth, is_true, either, Order, Row, joined, true_or_none, where_truth, clauses_truth, selects,
}
use uql.Querier.Where.Laws.{names_rows-where_truth, is_true-either}
use uql.Querier.Keyset.{PageKey, nulls_ahead, any_of, past_of, at_or_past_of}
use uql.Querier.Keyset.Order.{after}

module _ {V : Type 0} where
  abbrev pub Names : List (Where V) → Type 0
  Names = All (λ w. names_rows w ≡ true)

pub or_false : (b : Bool) → b ≡ (b || false)
or_false true = refl
or_false false = refl

is_some-cases : (t : Option Truth) → is_some t ≡ true → (a : Truth) × (t ≡ some a)
is_some-cases none h = cc
is_some-cases (some a) h = (a, refl)

module _ {V : Type 0} (o : Order V) (row : Row V) where
  rendered : (w : Where V) → names_rows w ≡ true → (t : Truth) × (where_truth o w row ≡ some t)
  rendered w h = is_some-cases (where_truth o w row) (sym (names_rows-where_truth o row w) ∙ h)

  -- The clauses of an `$or`, each of which renders a condition.
  some_clause :
      (w : Where V) (ws : List (Where V))
      → Names (w ∷ ws)
      → (t : Truth) × (clauses_truth o either (wheres (w ∷ ws)) row ≡ some t)
        × (is_true t ≡ any (λ v. selects o v row) (w ∷ ws))
  unfolding where_truth
  some_clause w [] (h, _) = let (t, e) = rendered w h in (t, rw e, rw e (or_false (is_true t)))
  some_clause w (v ∷ ws) (h, k) =
      let (t, e) = rendered w h in
      let (u, f, g) = some_clause v ws k in
      (
        either t u,
        ap₂ (joined either) e f,
        is_true-either t u ∙ ap₂ ◌||◌ (sym (ap true_or_none e)) g,
      )

  pub selects-any_of :
      (w : Where V) (ws : List (Where V))
      → Names (w ∷ ws)
      → selects o (any_of (w ∷ ws)) row ≡ any (λ v. selects o v row) (w ∷ ws)
  unfolding where_truth
  selects-any_of w [] h = or_false (selects o w row)
  selects-any_of w (v ∷ ws) h = let (t, e, f) = some_clause w (v ∷ ws) h in rw e f

  pub names_rows-any_of :
      (w : Where V) (ws : List (Where V)) → Names (w ∷ ws) → names_rows (any_of (w ∷ ws)) ≡ true
  unfolding names_rows
  names_rows-any_of w [] h = h.0
  names_rows-any_of w (v ∷ ws) h = rw (h.0)

-- The key takes the value: only a nullable key holds a null.
abbrev pub takes {ℓ} : {A : Type ℓ} → PageKey → Option A → Bool
takes k v = k.nullable || is_some v

module _ {V : Type 0} (o : Order V) (row : Row V) where
  -- A cursor and a row that the page's keys can hold: a value for each key, a null only where the
  -- key is nullable.
  abbrev pub Fits : List PageKey → List (Option V) → Type 0
  Fits [] [] = Unit
  Fits (k ∷ keys) (v ∷ values) =
      (takes k v ≡ true) × (takes k (row k.key) ≡ true) × Fits keys values
  Fits _ _ = ⊥

  pub selects-past_of :
      (k : PageKey) (v : Option V)
      → takes k (row k.key) ≡ true
      → any (λ w. selects o w row) (past_of k v) ≡ after o k v (row k.key)
  unfolding past_of where_truth
  selects-past_of k none h = ground arith
  selects-past_of k (some v) h = ground arith

  Names-nulls_ahead : (k : PageKey) → Names {V = V} (nulls_ahead k)
  unfolding names_rows
  Names-nulls_ahead k = elim (Bool-cases (k.nullable && not k.nulls_first)) [
    | inl e ↦ rw e (refl, tt)
    | inr e ↦ rw e tt
  ]

  any-bound :
      (k : PageKey) (v : V)
      → takes k (row k.key) ≡ true
      → any
          (λ w. selects o w row)
          (where_with k.key (if k.desc then lte v else gte v) ∷ nulls_ahead k)
        ≡ not (after o k (row k.key) (some v))
  unfolding where_truth
  any-bound k v h = ground arith

  pub selects-at_or_past_of :
      (k : PageKey) (v : Option V) (b : Where V)
      → takes k (row k.key) ≡ true
      → at_or_past_of k v ≡ some b
      → selects o b row ≡ not (after o k (row k.key) v)
  unfolding at_or_past_of where_truth
  selects-at_or_past_of k none b h e = ground arith
  selects-at_or_past_of k (some v) b h e =
      let w = where_with k.key (if k.desc then lte v else gte v) in
      subst (λ c. selects o c row ≡ not (after o k (row k.key) (some v))) (some_eq e)
        (selects-any_of o row w (nulls_ahead k) (unfold names_rows in refl, Names-nulls_ahead k)
          ∙ any-bound k v h)

  -- With no bound, every row is at or past the value.
  pub unbounded :
      (k : PageKey) (v : Option V) → at_or_past_of k v ≡ none → after o k (row k.key) v ≡ false
  unfolding at_or_past_of
  unbounded k none e = ground arith
  unbounded k (some v) e = cc

  pub Names-past_of : (k : PageKey) (v : Option V) → Names (past_of k v)
  unfolding past_of names_rows
  Names-past_of k none = elim (Bool-cases k.nulls_first) [
    | inl e ↦ rw e (refl, tt)
    | inr e ↦ rw e tt
  ]
  Names-past_of k (some v) = (refl, Names-nulls_ahead k)

  pub names_rows-at_or_past_of :
      (k : PageKey) (v : Option V) (b : Where V) → at_or_past_of k v ≡ some b → names_rows b ≡ true
  unfolding at_or_past_of names_rows
  names_rows-at_or_past_of k none b e = ground arith
  names_rows-at_or_past_of k (some v) b e =
      subst (λ c. names_rows c ≡ true) (some_eq e)
        (names_rows-any_of o row _ (nulls_ahead k) (unfold names_rows in refl, Names-nulls_ahead k))
