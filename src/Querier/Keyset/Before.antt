-- ===== src/Querier/Keyset/Before.antt =====
-- Pages of a table read backward: before a cursor come the rows just before it.
use mathlib.Core.Option
use mathlib.Core.Path.{ap₂}
use mathlib.Core.List.{reverse-append, reverse-cons, append_assoc}
use uql.Base.{
  ℕ, suc, String, Bool, true, false, List, [], ◌∷◌, ◌++◌, none, some, ◌≡◌, refl, map, subst, All,
  filter, take, length, reverse, ltb, ◌∙◌, ap,
}
use uql.Querier.Where.{Where, wheres, where_and}
use uql.Querier.Where.Meaning.{Order, Row, selects}
use uql.Querier.Keyset.{PageKey, inverted, keyset_clauses}
use uql.Querier.Keyset.Refinement.{EndsRequired}
use uql.Querier.Keyset.Read.{Cursor, QueryKeyset, CursorPage, keyset_query, mint, without, page}
use uql.Querier.Keyset.Paging.{
  run, Stored, Stored-inverted, EndsRequired-inverted, follows-inverted, take-take, more-take,
  All-reverse,
}
use uql.Querier.Keyset.{Direction}
use native.Mathlib.Numerals.{add-one}
use uql.Querier.Keyset.{page_order}
use uql.Querier.Keyset.Spelling.{page_order-backward_sort}
use uql.Querier.Keyset.Pages.{Earlier, Later, past, filter-past}
use mathlib.Core.List.{head?}

-- The query of a page before a cursor.
abbrev pub before_query :
    {V : Type 0} → List (String × Direction) → Where V → Cursor V → ℕ → QueryKeyset V
before_query sort w c limit = record {
  skip = false;
  after = none;
  before = some c;
  distinct = false;
  limit = some limit;
  sort = sort;
  matching = w;
}

module _ {V : Type 0} (o : Order V) (k : PageKey) (keys : List PageKey) (w : Where V)
    (c : Row V) where
  abbrev inverted_keys : List PageKey
  inverted_keys = map inverted keys

  turn-Earlier :
      (rows : List (Row V))
      → All (Earlier o k keys w c) rows
      → All (Later o (inverted k) inverted_keys w c) rows
  turn-Earlier [] a = tt
  turn-Earlier (row ∷ rows) a = (
    record {
      stored = Stored-inverted o (k ∷ keys) row a.0.stored;
      matched = a.0.matched;
      order = follows-inverted o (k ∷ keys) c row ∙ a.0.order;
    },
    turn-Earlier rows a.1,
  )

  turn-Later :
      (rows : List (Row V))
      → All (Later o k keys w c) rows
      → All (Earlier o (inverted k) inverted_keys w c) rows
  turn-Later [] a = tt
  turn-Later (row ∷ rows) a = (
    record {
      stored = Stored-inverted o (k ∷ keys) row a.0.stored;
      matched = a.0.matched;
      order = follows-inverted o (k ∷ keys) row c ∙ a.0.order;
    },
    turn-Later rows a.1,
  )

mint-inverted :
    {V : Type 0} (keys : List PageKey) (c : Row V) → mint (map inverted keys) c ≡ mint keys c
mint-inverted [] c = refl
mint-inverted (k ∷ keys) c = ap (λ l. c k.key ∷ l) (mint-inverted keys c)

-- A table of an engine: whether nulls sort lowest on it, which of its fields are nullable, and its rows
-- in the order of the keys that a `$sort` resolves to.
pub record Table (V : Type 0) : Type 0 where
  pub nulls_sort_lowest : Bool
  pub nullable : String → Bool
  pub rows : List PageKey → List (Row V)

module _ {V : Type 0} (table : Table V) where
  -- The keys that a `$sort` resolves to, and the table's rows in their order.
  abbrev pub resolved : List (String × Direction) → List PageKey
  resolved sort = page_order table.nulls_sort_lowest table.nullable sort

  abbrev pub rows_by : List (String × Direction) → List (Row V)
  rows_by sort = table.rows (resolved sort)

module _ {V : Type 0} (o : Order V) (table : Table V) (k : PageKey) (keys : List PageKey)
    (carried : List String) (sort : List (String × Direction)) (w : Where V) (limit : ℕ)
    (c : Row V) where
  -- The page of the rows that the engine answers, in the order of the `$sort` that it is asked.
  abbrev pub before_page : CursorPage V
  before_page =
      let q = before_query sort w (mint (k ∷ keys) c) limit in
      let asked = keyset_query (resolved table sort) (k ∷ keys) limit q in
      page (k ∷ keys) carried limit q (run o asked (rows_by table asked.sort))

  module _ (earlier later : List (Row V)) (r : EndsRequired (k ∷ keys)) (s : Stored o (k ∷ keys) c)
      (h : selects o w c ≡ true) (a : All (Earlier o k keys w c) earlier)
      (b : All (Later o k keys w c) later) where
    turned :
        filter (past o (inverted k) (map inverted keys) w c) (reverse (earlier ++ c ∷ later))
        ≡ reverse earlier
    turned =
        ap (filter (past o (inverted k) (map inverted keys) w c)) (
          rw (reverse-append, reverse-cons)
            (append_assoc (reverse later) (c ∷ []) (reverse earlier)))
        ∙ filter-past o (inverted k) (map inverted keys) w c (EndsRequired-inverted o k keys r)
            (Stored-inverted o (k ∷ keys) c s) h (reverse later) (reverse earlier)
            (All-reverse _ later (turn-Later o k keys w c later b))
            (All-reverse _ earlier (turn-Earlier o k keys w c earlier a))

    past-inverted :
        filter
          (λ row.
            selects o
              (where_and w (wheres (keyset_clauses (map inverted (k ∷ keys)) (mint (k ∷ keys) c))))
              row)
          (reverse (earlier ++ c ∷ later))
        ≡ reverse earlier
    unfolding past
    past-inverted =
        subst
          (λ m.
            filter
              (λ row.
                selects o (where_and w (wheres (keyset_clauses (map inverted (k ∷ keys)) m))) row)
              (reverse (earlier ++ c ∷ later))
            ≡ reverse earlier)
          (mint-inverted (k ∷ keys) c) turned

    -- Of a table that the engine answers in the order of a `$sort`'s keys, and the other way round in
    -- the order of those keys inverted, whose rows the `$where` matches and hold a value for each key,
    -- a null only where the key is nullable, as the last is not: the page before the cursor of a row is
    -- the rows just before that row in the `$sort`'s order, as many as the page holds and in that
    -- order. It says that one lies ahead, and that another lies behind exactly where more rows do, and
    -- starts at its first row's cursor.
    pub page-before :
        rows_by table sort ≡ earlier ++ c ∷ later
        → table.rows (map inverted (resolved table sort)) ≡ reverse (rows_by table sort)
        → (let before = reverse (take limit (reverse earlier)) in
            (before_page.items ≡ map (without carried) before)
            × (before_page.has_next_page ≡ true)
            × (before_page.has_prev_page ≡ ltb limit (length (reverse earlier)))
            × (before_page.start_cursor ≡ Option.map (mint (k ∷ keys)) (head? before)))
    unfolding page keyset_query
    page-before t turn =
        let q = before_query sort w (mint (k ∷ keys) c) limit in
        let asked = keyset_query (resolved table sort) (k ∷ keys) limit q in
        let back : rows_by table asked.sort ≡ reverse (earlier ++ c ∷ later) =
          ap table.rows (page_order-backward_sort table.nulls_sort_lowest table.nullable sort)
          ∙ turn
          ∙ ap reverse t in
        let e : run o asked (rows_by table asked.sort) ≡ take (suc limit) (reverse earlier) =
          ap (run o asked) back ∙ ap₂ take (add-one limit) past-inverted in
        rw (e, take-take limit (reverse earlier), more-take limit (reverse earlier))
          (refl, refl, refl, refl)
