-- ===== src/Querier/Keyset/Spelling.antt =====
-- How a `$sort` spells the keys of a page's order, inverted ones too.
use mathlib.Core.Bool.{xor}
use mathlib.Core.Path.{ap₂}
use uql.Base.{map, String, Bool, true, false, List, [], ◌∷◌, ◌≡◌, refl, ap, sym}
use uql.Querier.Keyset.{
  PageKey, inverted, Direction, asc, desc, asc_nulls_first, asc_nulls_last, desc_nulls_first,
  desc_nulls_last, spelling, parse_sort_direction, page_key, page_order,
}

page_key_of : Bool → Bool → Bool → String → Bool → PageKey
page_key_of d first p key nullable = record {
  key = key;
  desc = d;
  nulls_first = first;
  placed = p;
  nullable = nullable;
}

page_key-spelled :
    (low d first p : Bool) (key : String) (nullable : Bool)
    → (p ≡ false → first ≡ xor d low)
    → page_key low key nullable (spelling (page_key_of d first p key nullable))
      ≡ page_key_of d first p key nullable
unfolding page_key spelling parse_sort_direction page_key_of
page_key-spelled low true true true key nullable h = refl
page_key-spelled low true false true key nullable h = refl
page_key-spelled low false true true key nullable h = refl
page_key-spelled low false false true key nullable h = refl
page_key-spelled low true first false key nullable h =
    ap (λ f. page_key_of true f false key nullable) (sym (h refl))
page_key-spelled low false first false key nullable h =
    ap (λ f. page_key_of false f false key nullable) (sym (h refl))

-- A key's spelling in a `$sort` reads back as the key, where one that states no placement of nulls has
-- the placement of its engine.
pub page_key-spelling :
    (low : Bool) (k : PageKey)
    → (k.placed ≡ false → k.nulls_first ≡ xor k.desc low)
    → page_key low k.key k.nullable (spelling k) ≡ k
unfolding page_key_of
page_key-spelling low k h = page_key-spelled low k.desc k.nulls_first k.placed k.key k.nullable h

placed_when :
    (low : Bool) (key : String) (nullable : Bool) (d : Direction)
    → (inverted (page_key low key nullable d)).placed ≡ false
    → (inverted (page_key low key nullable d)).nulls_first
      ≡ xor (inverted (page_key low key nullable d)).desc low
unfolding page_key parse_sort_direction xor
placed_when true key nullable asc h = refl
placed_when false key nullable asc h = refl
placed_when true key nullable desc h = refl
placed_when false key nullable desc h = refl
placed_when low key nullable asc_nulls_first h = cc
placed_when low key nullable asc_nulls_last h = cc
placed_when low key nullable desc_nulls_first h = cc
placed_when low key nullable desc_nulls_last h = cc

-- The `$sort` that a page is read backward by.
abbrev pub backward_sort : List PageKey → List (String × Direction)
backward_sort order = map (λ k. ((inverted k).key, spelling (inverted k))) order

-- It resolves to the page's order with every key inverted.
pub page_order-backward_sort :
    (low : Bool) (nullable : String → Bool) (sort : List (String × Direction))
    → page_order low nullable (backward_sort (page_order low nullable sort))
      ≡ map inverted (page_order low nullable sort)
unfolding page_order page_key
page_order-backward_sort low nullable [] = refl
page_order-backward_sort low nullable ((key, d) ∷ sort) =
    ap₂ (λ k ks. k ∷ ks)
      (page_key-spelling low (inverted (page_key low key (nullable key) d))
        (placed_when low key (nullable key) d))
      (page_order-backward_sort low nullable sort)
