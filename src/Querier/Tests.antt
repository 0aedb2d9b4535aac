-- ===== src/Querier/Tests.antt =====
-- Runs of page queries, and the theorems on `$where` maps and pages at concrete inputs.
use uql.Text.{Text, codes, text_eq}
use uql.Result.{usage, ok, err, ok_eq}
use uql.Http.Json.{Json, null, text, array, Items, no_items, item}
use uql.Querier.Cursor.{
  RowValue, null_value, date_value, bigint_value, CursorKey, CursorPlatform, tagged, decode_value,
  mint_cursor, read_cursor,
}
use uql.Querier.Cursor.RoundTrip.{Carries, read_cursor-mint_cursor}
use uql.Base.{
  any, subst, flat_map, Bool, String, ◌++◌, ℕ, true, false, ◌&&◌, List, [], ◌∷◌, Option, none, some,
  ◌≡◌, refl, All, arith, ◌≢◌, ltb, all, take, map, length, reverse, if◌then◌else◌, string_eq, ◌==◌,
}
use mathlib.Core.Option
use uql.Querier.Transaction.{
  waiting, holding, Connection, claim_turn, free, fresh, Turns, start, turn, claims, frees, root,
  nested_in, root_of, current_transaction,
}
use uql.Querier.Transaction.Exclusion.{Turns-exclusive, Turns-woken, Turns-current_transaction}
use uql.Querier.Where.{
  lt, gt, not_null, op_and, Where, empty, field, group, nil, cons, where_with, where_and,
}
use uql.Querier.Where.Meaning.{both, Order, Row, true_or_none, where_truth, clauses_truth, selects}
use uql.Querier.Where.Laws.{selects-where_and}
use uql.Querier.Keyset.{
  PageKey, Direction, asc, desc_nulls_last, keyset_clauses, page_order, page_key,
  parse_sort_direction,
}
use uql.Querier.Keyset.Prefix.{PageField, PageMeta, uniques, covers, total_from, total_prefix}
use uql.Querier.Keyset.Identifies.{Identifies}
use uql.Querier.Keyset.Total.{sorts_by, total_prefix-sorts_by}
use uql.Querier.Keyset.Order.{comes_after}
use uql.Querier.Keyset.Refinement.{keyset_clauses-comes_after}
use uql.Querier.Keyset.Read.{mint, without}
use uql.Querier.Keyset.Pages.{Earlier, Later}
use uql.Querier.Keyset.Before.{Table, page-before, before_page, resolved}
use mathlib.Core.List.{head?}
use mathlib.Core.Bool.{xor}

-- Numbers, compared as an engine compares them.
numbers : Order ℕ
numbers = record {
  less = ltb;
  irreflexive = λ a. ground arith;
  transitive = λ a b c h k. ground arith;
  connected = λ a b h k. ground arith;
}

abbrev row : Option ℕ → ℕ → Row ℕ
row rank id = λ key. if key == "rank" then rank else some id

-- Sorted by `rank` descending with nulls last, then by `id`.
abbrev by_rank : PageKey
by_rank = record { key = "rank"; desc = true; nulls_first = false; placed = true; nullable = true }

abbrev by_id : PageKey
by_id = record { key = "id"; desc = false; nulls_first = true; placed = false; nullable = false }

abbrev page_keys : List PageKey
page_keys = by_rank ∷ by_id ∷ []

keyset_clauses-comes_after_example :
    all (λ w. selects numbers w (row none 7)) (keyset_clauses page_keys (some 5 ∷ some 9 ∷ []))
    ≡ comes_after numbers page_keys (some 5 ∷ some 9 ∷ []) (row none 7)
keyset_clauses-comes_after_example =
    keyset_clauses-comes_after numbers (row none 7) by_rank (by_id ∷ []) (some 5) (some 9 ∷ [])
      (refl, refl, (refl, refl, tt)) refl

abbrev earlier : List (Row ℕ)
earlier = row (some 9) 4 ∷ row (some 5) 8 ∷ []

abbrev later : List (Row ℕ)
later = row (some 2) 1 ∷ row none 3 ∷ row none 7 ∷ []

earlier_rows : All (Earlier numbers by_rank (by_id ∷ []) empty (row (some 5) 9)) earlier
unfolding where_truth numbers
earlier_rows = (
  record { stored = (refl, (refl, tt)); matched = refl; order = refl },
  (record { stored = (refl, (refl, tt)); matched = refl; order = refl }, tt),
)

later_rows : All (Later numbers by_rank (by_id ∷ []) empty (row (some 5) 9)) later
unfolding where_truth numbers
later_rows = (
  record { stored = (refl, (refl, tt)); matched = refl; order = refl },
  (
    record { stored = (refl, (refl, tt)); matched = refl; order = refl },
    (record { stored = (refl, (refl, tt)); matched = refl; order = refl }, tt),
  ),
)

-- The table by rank, the highest first, or the other way round.
abbrev rows_of_rank : List PageKey → List (Row ℕ)
rows_of_rank [] = []
rows_of_rank (k ∷ ks) =
    if k.desc
    then earlier ++ row (some 5) 9 ∷ later
    else reverse (earlier ++ row (some 5) 9 ∷ later)

abbrev ranked : Table ℕ
ranked = record { nulls_sort_lowest = true; nullable = λ key. key == "rank"; rows = rows_of_rank }

abbrev rank_sort : List (String × Direction)
rank_sort = ("rank", desc_nulls_last) ∷ ("id", asc) ∷ []

rank_sort_run : resolved ranked rank_sort ≡ page_keys
unfolding page_order page_key parse_sort_direction xor
rank_sort_run = refl

page-before_example :
    let p = before_page numbers ranked by_rank (by_id ∷ []) [] rank_sort empty 1 (row (some 5) 9) in
    let before = reverse (take 1 (reverse earlier)) in
    (p.items ≡ map (without []) before)
    × (p.has_next_page ≡ true)
    × (p.has_prev_page ≡ ltb 1 (length (reverse earlier)))
    × (p.start_cursor ≡ Option.map (mint page_keys) (head? before))
unfolding where_truth numbers page_order page_key parse_sort_direction xor
page-before_example =
    page-before numbers ranked by_rank (by_id ∷ []) [] rank_sort empty 1 (row (some 5) 9) earlier
      later refl (refl, (refl, tt)) refl earlier_rows later_rows refl refl

abbrev narrowed : Where ℕ
narrowed = field "rank" (gt 3 ∷ []) (group op_and (cons (where_with "id" (lt 5)) nil) empty)

selects-where_and_example :
    selects numbers (where_and narrowed (cons (where_with "id" not_null) nil)) (row (some 4) 1) ≡ (
      selects numbers narrowed (row (some 4) 1)
      && true_or_none
          (clauses_truth numbers both (cons (where_with "id" not_null) nil) (row (some 4) 1)))
selects-where_and_example =
    selects-where_and numbers (row (some 4) 1) narrowed (cons (where_with "id" not_null) nil)

-- Transaction 1 holds the slot, and 2 waits for it.
abbrev waits : Connection
waits = claim_turn 2 (claim_turn 1 fresh)

waits-Turns : Turns fresh waits
unfolding claim_turn
waits-Turns = turn (turn start (claims 1 refl)) (claims 2 refl)

abbrev ended : Connection
ended = free waits

ended-Turns : Turns fresh ended
unfolding claim_turn
ended-Turns = turn waits-Turns (frees 1 refl)

Turns-exclusive_example : waits.phase 2 ≢ holding
unfolding claim_turn
Turns-exclusive_example = Turns-exclusive {c = waits} 1 2 waits-Turns refl (λ e. ground arith)

Turns-woken_example : ended.phase 2 ≢ waiting
unfolding claim_turn free
Turns-woken_example = Turns-woken {c = ended} 2 ended-Turns refl

Turns-current_transaction_example :
    current_transaction (claim_turn 2 ended) (nested_in (root 1)) ≡ none
unfolding claim_turn free root_of
Turns-current_transaction_example =
    Turns-current_transaction (nested_in (root 1)) ended-Turns refl (turn start (claims 2 refl))

abbrev by_name : PageKey
by_name = record { key = "name"; desc = true; nulls_first = true; placed = false; nullable = true }

abbrev id_last : PageKey
id_last = record { key = "id"; desc = false; nulls_first = false; placed = true; nullable = false }

-- An entity without a primary key, whose field `code` is unique, and so are an index on `id` that is
-- partial and one on `name`, nullable or not, and `id`.
abbrev some_field : Bool → String → PageField
some_field nullable key = record {
  key = key;
  nullable = nullable;
  is_index = false;
  is_unique = key == "code";
}

abbrev pair_meta : Bool → PageMeta
pair_meta nullable = record {
  ids = [];
  fields = some_field nullable "name" ∷ some_field false "id" ∷ some_field false "code" ∷ [];
  indexes =
      record { columns = some "id" ∷ []; is_unique = true; is_partial = true }
      ∷ record { columns = some "name" ∷ some "id" ∷ []; is_unique = true; is_partial = false }
      ∷ [];
}

total_prefix_run :
    total_prefix (pair_meta false) (by_name ∷ id_last ∷ by_name ∷ []) ≡ ok (by_name ∷ id_last ∷ [])
unfolding total_prefix total_from covers uniques flat_map
total_prefix_run = refl

total_prefix_nullable_run :
    total_prefix (pair_meta true) (by_name ∷ id_last ∷ by_name ∷ []) ≡ err usage
unfolding total_prefix total_from covers uniques flat_map
total_prefix_nullable_run = refl

total_prefix-sorts_by_example :
    (rest : List PageKey) × (columns : List String) × (by_name ∷ id_last ∷ by_name ∷ []
      ≡ (by_name ∷ id_last ∷ []) ++ rest)
    × Identifies (pair_meta false) columns
    × (ltb 0 (length columns) ≡ true)
    × (sorts_by (by_name ∷ id_last ∷ []) columns ≡ true)
    × (init : List PageKey) × (last : PageKey) × (by_name ∷ id_last ∷ [] ≡ init ++ last ∷ [])
    × (any (sorts_by init) (uniques (pair_meta false)) ≡ false)
total_prefix-sorts_by_example =
    total_prefix-sorts_by (pair_meta false) (by_name ∷ id_last ∷ by_name ∷ []) total_prefix_run

abbrev by_time : List CursorKey
by_time =
    record { key = codes "createdAt"; nullable = false }
    ∷ record { key = codes "name"; nullable = true }
    ∷ []

abbrev noon : Text
noon = codes "2024-01-01T12:00:00.000Z"

abbrev noon_row : Text → RowValue
noon_row key = if key == codes "name" then null_value else date_value noon

abbrev noon_values : Items
noon_values = item (tagged (codes "d") noon) (item null no_items)

abbrev noon_document : Json
noon_document = array (item (text (codes "createdAt")) noon_values)

-- A platform that writes one document.
abbrev one_document : CursorPlatform
one_document = record {
  encode = λ t. t;
  decode = λ bytes. some bytes;
  btoa = λ bytes. bytes;
  atob = λ t. some t;
  stringify = λ j. codes "WzFd";
  parse = λ t. some noon_document;
  date_of = λ t. some t;
  bigint_of = λ t. t;
}

read_cursor-mint_cursor_example :
    (cursor : Text) × (mint_cursor one_document (codes "createdAt") by_time noon_row ≡ ok cursor)
    × (read_cursor one_document (codes "createdAt") by_time cursor
        ≡ ok (date_value noon ∷ null_value ∷ []))
    × ((other : Text)
        → (codes "createdAt" == other) ≡ false
        → read_cursor one_document other by_time cursor ≡ err usage)
unfolding uql.Querier.Cursor.encode_value
read_cursor-mint_cursor_example =
    read_cursor-mint_cursor one_document (codes "createdAt") by_time noon_row (refl, (refl, tt))
      (λ values e.
        subst (λ vs. Carries one_document (array (item (text (codes "createdAt")) vs))) (ok_eq e)
          (record {
            json = refl;
            utf8 = refl;
            base64 = refl;
            alphabet = ((refl, refl), ((refl, refl), ((refl, refl), ((refl, refl), tt))));
          }))

-- A whole number is read as a `bigint`, and one with a point is not.
decode_value_run :
    (decode_value one_document (tagged (codes "n") (codes "-42"))
      ≡ some (bigint_value (codes "-42")))
    × (decode_value one_document (tagged (codes "n") (codes "4.2")) ≡ none)
unfolding decode_value
decode_value_run = (refl, refl)
