-- ===== src/Querier/Keyset/Read.antt =====
-- `keysetRead` and `assertPageable`: the query that reads a page, and the page of the rows that the
-- query returns. A cursor is the values that it decodes to, in the order of the page's keys.
use uql.Base.{
  is_some, ℕ, ◌+◌, String, Bool, ◌&&◌, ◌||◌, not, List, Option, none, some, if◌then◌else◌, ◌==◌,
  nat_eq, string_eq, any, take, length, reverse, map, ltb, get_last?,
}
use mathlib.Core.List.{head?}
use mathlib.Core.Option
use uql.Result.{Result, ok, err, usage, ◌>>◌, guard}
use uql.Querier.Where.{Where, wheres, where_and}
use uql.Querier.Where.Meaning.{Row}
use uql.Querier.Keyset.{PageKey, inverted, Direction, spelling, keyset_clauses}

-- A cursor, as the values of its keys.
abbrev pub Cursor : Type 0 → Type 0
Cursor V = List (Option V)

-- The clauses of a page query. `limit` is `none` where `$limit` is missing or no natural number, and
-- `skip` and `distinct` are whether those are given.
pub record QueryKeyset (V : Type 0) : Type 0 where
  pub skip : Bool
  pub after : Option (Cursor V)
  pub before : Option (Cursor V)
  pub distinct : Bool
  pub limit : Option ℕ
  pub sort : List (String × Direction)
  pub matching : Where V

abbrev pub read_keys : Bool → List PageKey → List PageKey
read_keys backward keys = if backward then map inverted keys else keys

abbrev limit_of : Option ℕ → Result ℕ
limit_of none = err usage
limit_of (some n) = if ltb n 1 then err usage else ok n

module _ {V : Type 0} where
  -- `assertPageable`, with the page size that it leaves known.
  unfoldable pub assert_pageable : QueryKeyset V → Result ℕ
  assert_pageable q = do
    guard (not q.skip) usage
    guard (not (is_some q.after && is_some q.before)) usage
    guard (not q.distinct) usage
    limit_of q.limit

  -- `$before ?? $after`
  abbrev pub cursor_of : QueryKeyset V → Option (Cursor V)
  cursor_of q = elim q.before [ some c ↦ some c | none ↦ q.after ]

  abbrev past_cursor : Option (Cursor V) → List PageKey → Where V → Where V
  past_cursor none keys w = w
  past_cursor (some c) keys w = where_and w (wheres (keyset_clauses keys c))

-- The query that `keysetRead` returns.
pub record Query (V : Type 0) : Type 0 where
  pub sort : List (String × Direction)
  pub matching : Where V
  pub limit : ℕ

-- A page: its rows, whether others lie after and before it, and the cursors of its ends.
pub record CursorPage (V : Type 0) : Type 0 where
  pub items : List (Row V)
  pub has_next_page : Bool
  pub has_prev_page : Bool
  pub start_cursor : Option (Cursor V)
  pub end_cursor : Option (Cursor V)

module _ {V : Type 0} where
  -- The `query` of `keysetRead`: `order` is the resolved `$sort`, and `keys` its total prefix.
  unfoldable pub keyset_query : List PageKey → List PageKey → ℕ → QueryKeyset V → Query V
  keyset_query order keys limit q =
      let backward = is_some q.before in
      record {
        sort =
            if backward then map (λ k. ((inverted k).key, spelling (inverted k))) order else q.sort;
        matching = past_cursor (cursor_of q) (read_keys backward keys) q.matching;
        limit = limit + 1;
      }

  -- The values that `mintCursor` reads off a row.
  abbrev pub mint : List PageKey → Row V → Cursor V
  mint keys row = map (λ k. row k.key) keys

  -- `Reflect.deleteProperty` for each carried key: a field that is not there reads as none.
  abbrev pub without : List String → Row V → Row V
  without carried row = λ key. if any (λ c. c == key) carried then none else row key

  -- The `page` of `keysetRead`; `carried` are the sort keys that the projection left out.
  unfoldable pub page : List PageKey → List String → ℕ → QueryKeyset V → List (Row V) → CursorPage V
  page keys carried limit q rows =
      let backward = is_some q.before in
      let more = ltb limit (length rows) in
      let items = if backward then reverse (take limit rows) else take limit rows in
      record {
        items = map (without carried) items;
        has_next_page = backward || more;
        has_prev_page = if backward then more else is_some (cursor_of q);
        start_cursor = Option.map (mint keys) (head? items);
        end_cursor = Option.map (mint keys) (get_last? items);
      }
