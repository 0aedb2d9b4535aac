-- ===== src/Querier/Keyset/Pages.antt =====
-- Pages of a table: after a cursor come the next rows, whatever the directions and the nulls of the
-- sort.
use mathlib.Core.Option
use uql.Base.{
  ℕ, String, Bool, true, false, List, [], ◌∷◌, ◌++◌, none, some, ◌≡◌, refl, All, filter,
  filter-append, ◌∙◌, ap,
}
use uql.Querier.Where.{Where, wheres, where_and}
use uql.Querier.Where.Meaning.{Order, Row, selects}
use uql.Querier.Keyset.{PageKey, keyset_clauses}
use uql.Querier.Keyset.Refinement.{EndsRequired}
use uql.Querier.Keyset.Read.{Cursor, QueryKeyset, CursorPage, keyset_query, mint, page}
use uql.Querier.Keyset.Paging.{
  run, Stored, follows, follows_asym, selects-past, filter_every, filter-none,
}
use uql.Querier.Keyset.{Direction}

module _ {V : Type 0} (o : Order V) (k : PageKey) (keys : List PageKey) (w : Where V)
    (c : Row V) where
  -- A row that the caller's `$where` matches, on one side of `c` or the other.
  pub record Earlier (row : Row V) : Type 0 where
    pub stored : Stored o (k ∷ keys) row
    pub matched : selects o w row ≡ true
    pub order : follows o (k ∷ keys) row c ≡ true

  pub record Later (row : Row V) : Type 0 where
    pub stored : Stored o (k ∷ keys) row
    pub matched : selects o w row ≡ true
    pub order : follows o (k ∷ keys) c row ≡ true

  unfoldable pub past : Row V → Bool
  past row = selects o (where_and w (wheres (keyset_clauses (k ∷ keys) (mint (k ∷ keys) c)))) row

  module _ (r : EndsRequired (k ∷ keys)) (s : Stored o (k ∷ keys) c)
      (h : selects o w c ≡ true) where
    past-Later : (rows : List (Row V)) → All Later rows → All (λ row. past row ≡ true) rows
    unfolding past
    past-Later [] a = tt
    past-Later (row ∷ rows) a =
        (selects-past o k keys w c row r s a.0.stored a.0.matched ∙ a.0.order, past-Later rows a.1)

    past-Earlier : (rows : List (Row V)) → All Earlier rows → All (λ row. past row ≡ false) rows
    unfolding past
    past-Earlier [] a = tt
    past-Earlier (row ∷ rows) a = (
      selects-past o k keys w c row r s a.0.stored a.0.matched
          ∙ follows_asym o (k ∷ keys) row c a.0.order,
      past-Earlier rows a.1,
    )

    past_self : past c ≡ false
    unfolding past
    past_self =
        selects-past o k keys w c c r s s h
        ∙ follows_irrefl (follows o (k ∷ keys) c c) (follows_asym o (k ∷ keys) c c)
      where
        follows_irrefl : (b : Bool) → (b ≡ true → b ≡ false) → b ≡ false
        follows_irrefl true f = f refl
        follows_irrefl false f = refl

    pub filter-past :
        (earlier later : List (Row V))
        → All Earlier earlier
        → All Later later
        → filter past (earlier ++ c ∷ later) ≡ later
    filter-past earlier later a b =
        filter-append past earlier (c ∷ later)
        ∙ ap (λ l. l ++ filter past (c ∷ later)) (filter-none past earlier (past-Earlier earlier a))
        ∙ (rw past_self (filter_every past later (past-Later later b)))

-- The query of a page after a cursor.
abbrev pub after_query :
    {V : Type 0} → List (String × Direction) → Where V → Cursor V → ℕ → QueryKeyset V
after_query sort w c limit = record {
  skip = false;
  after = some c;
  before = none;
  distinct = false;
  limit = some limit;
  sort = sort;
  matching = w;
}

module _ {V : Type 0} (o : Order V) (order : List PageKey) (k : PageKey) (keys : List PageKey)
    (carried : List String) (sort : List (String × Direction)) (w : Where V) (limit : ℕ) (c : Row V)
    (earlier later : List (Row V)) where
  abbrev pub after_page : CursorPage V
  after_page =
      let q = after_query sort w (mint (k ∷ keys) c) limit in
      page (k ∷ keys) carried limit q
        (run o (keyset_query order (k ∷ keys) limit q) (earlier ++ c ∷ later))
