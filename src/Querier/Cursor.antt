-- ===== src/Querier/Cursor.antt =====
-- packages/orm/src/querier/cursor.ts: the cursor of a row, as a client carries it. The platform's own functions are
-- fields of CursorPlatform.
pub mod RoundTrip
use uql.Base.{
  ℕ, zero, suc, ◌+◌, Bool, true, false, ◌&&◌, ◌||◌, not, Option, none, some, if◌then◌else◌, ◌==◌,
  Equal, nat_eq, List, [], ◌∷◌, all, map, leb,
}
use uql.Text.{Text, codes, text_eq}
use uql.Result.{usage, Result, ok, err, guard, ◌>>◌, ◌>>=◌}
use uql.Http.Json.{
  Json, null, boolean, number, text, array, object, Items, no_items, item, Members, no_members,
  member,
}

-- A row's value under a sort key: null or undefined, a `Date` by its ISO text, a `bigint` by its digits, a scalar,
-- or another object.
pub data RowValue : Type 0 where
  null_value object_value : RowValue
  date_value bigint_value text_value : Text → RowValue
  number_value : Bool → Text → RowValue
  boolean_value : Bool → RowValue

-- A key, and whether its value may be null.
pub record CursorKey : Type 0 where
  pub key : Text
  pub nullable : Bool

-- `TextEncoder` and `TextDecoder`, `btoa` and `atob` over bytes, `JSON`, `new Date(text)` where it is valid, and the
-- digits of `BigInt(text)`.
pub record CursorPlatform : Type 0 where
  pub encode : Text → List ℕ
  pub decode : List ℕ → Option Text
  pub btoa : List ℕ → Text
  pub atob : Text → Option (List ℕ)
  pub stringify : Json → Text
  pub parse : Text → Option Json
  pub date_of : Text → Option Text
  pub bigint_of : Text → Text

-- `.replace(/\+/g, '-').replace(/\//g, '_')`, and the reverse.
abbrev pub url_char : ℕ → ℕ
url_char c = if c == b'+' then b'-' else if c == b'/' then b'_' else c

abbrev pub plain_char : ℕ → ℕ
plain_char c = if c == b'-' then b'+' else if c == b'_' then b'/' else c

-- `.replace(/=+$/, '')`
abbrev pub kept_before : ℕ → Text → Text
kept_before c [] = if c == b'=' then [] else c ∷ []
kept_before c (d ∷ t) = c ∷ d ∷ t

abbrev pub without_padding : Text → Text
without_padding [] = []
without_padding (c ∷ t) = kept_before c (without_padding t)

-- `WHOLE`
abbrev pub is_digit : ℕ → Bool
is_digit c = leb b'0' c && leb c b'9'

abbrev pub are_digits : Text → Bool
are_digits [] = false
are_digits (c ∷ t) = all is_digit (c ∷ t)

abbrev pub is_whole : Text → Bool
is_whole [] = false
is_whole (c ∷ t) = if c == b'-' then are_digits t else are_digits (c ∷ t)

abbrev pub tagged : Text → Text → Json
tagged tag value = object (member tag (text value) no_members)

unfoldable pub encode_value : RowValue → Result Json
encode_value null_value = ok null
encode_value (date_value iso) = ok (tagged (codes "d") iso)
encode_value (bigint_value digits) = ok (tagged (codes "n") digits)
encode_value object_value = err usage
encode_value (text_value t) = ok (text t)
encode_value (number_value b t) = ok (number b t)
encode_value (boolean_value b) = ok (boolean b)

abbrev pub encode_values : (Text → RowValue) → List CursorKey → Result Items
encode_values row [] = ok no_items
encode_values row (k ∷ ks) =
    encode_value (row k.key) >>= λ value. encode_values row ks >>= λ values. ok (item value values)

abbrev pub items_length : Items → ℕ
items_length no_items = 0
items_length (item v vs) = suc (items_length vs)

abbrev pub keys_length : List CursorKey → ℕ
keys_length [] = 0
keys_length (k ∷ ks) = suc (keys_length ks)

-- Whether a value may stand under the key.
abbrev pub checked : CursorKey → Option RowValue → Result RowValue
checked key none = err usage
checked key (some null_value) = if key.nullable then ok null_value else err usage
checked key (some value) = ok value

abbrev pub date_read : Option Text → Option RowValue
date_read none = none
date_read (some iso) = some (date_value iso)

module _ (p : CursorPlatform) where
  unfoldable pub to_base64_url : Text → Text
  to_base64_url t = without_padding (map url_char (p.btoa (p.encode t)))

  abbrev pub decoded : Option (List ℕ) → Option Text
  decoded none = none
  decoded (some bytes) = p.decode bytes

  unfoldable pub from_base64_url : Text → Option Text
  from_base64_url cursor = decoded (p.atob (map plain_char cursor))

  abbrev pub tagged_value : Text → Text → Option RowValue
  tagged_value tag value =
      if tag == codes "d"
      then date_read (p.date_of value)
      else if tag == codes "n" && is_whole value
      then some (bigint_value (p.bigint_of value))
      else none

  unfoldable pub decode_value : Json → Option RowValue
  decode_value null = some null_value
  decode_value (boolean b) = some (boolean_value b)
  decode_value (number b t) = some (number_value b t)
  decode_value (text t) = some (text_value t)
  decode_value (array vs) = none
  decode_value (object (member tag (text value) no_members)) = tagged_value tag value
  decode_value (object _) = none

  unfoldable pub mint_cursor : Text → List CursorKey → (Text → RowValue) → Result Text
  mint_cursor fingerprint keys row = encode_values row keys >>= λ values.
      ok (to_base64_url (p.stringify (array (item (text fingerprint) values))))

  abbrev pub decode_values : List CursorKey → Items → Result (List RowValue)
  decode_values [] values = ok []
  decode_values (k ∷ ks) no_items = err usage
  decode_values (k ∷ ks) (item value values) =
      checked k (decode_value value) >>= λ v. decode_values ks values >>= λ vs. ok (v ∷ vs)

  abbrev pub minted_by : Text → Json → Bool
  minted_by fingerprint (text t) = t == fingerprint
  minted_by fingerprint _ = false

  abbrev pub read_values : Text → List CursorKey → Option Json → Result (List RowValue)
  read_values fingerprint keys (some (array (item minted values))) =
      guard (items_length values == keys_length keys) usage
      >> guard (minted_by fingerprint minted) usage
      >> decode_values keys values
  read_values fingerprint keys _ = err usage

  abbrev pub parsed : Option Text → Option Json
  parsed none = none
  parsed (some t) = p.parse t

  unfoldable pub read_cursor : Text → List CursorKey → Text → Result (List RowValue)
  read_cursor fingerprint keys cursor =
      read_values fingerprint keys (parsed (from_base64_url cursor))
