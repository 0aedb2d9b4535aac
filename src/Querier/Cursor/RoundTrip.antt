-- ===== src/Querier/Cursor/RoundTrip.antt =====
-- A cursor is read back to the values of the row that it was minted for.
use uql.Base.{
  ℕ, suc, true, false, some, if◌then◌else◌, ◌==◌, ==_iff, ==_refl, nat_eq, List, [], ◌∷◌, map, ◌≡◌,
  refl, sym, ap, ◌∙◌, subst, All, Bool-cases, inl, inr,
}
use uql.Text.{Text, text_eq}
use uql.Result.{usage, ok, err, ok_eq, ◌>>=◌, >>=-eq-ok}
use uql.Http.Json.{Json, text, array, Items, no_items, item}
use uql.Querier.Cursor.{
  RowValue, null_value, object_value, date_value, bigint_value, text_value, number_value,
  boolean_value, CursorKey, CursorPlatform, url_char, plain_char, kept_before, without_padding,
  is_whole, encode_value, encode_values, items_length, keys_length, checked, to_base64_url,
  from_base64_url, decode_value, mint_cursor, decode_values, read_cursor, parsed,
}

-- Neither of the characters that replace two of base64's.
abbrev pub IsBase64 : ℕ → Type 0
IsBase64 c = ((c == b'-') ≡ false) × ((c == b'_') ≡ false)

-- The platform reads back the one document that it wrote: its JSON, its UTF-8, and its base64, padded or not.
pub record Carries (p : CursorPlatform) (document : Json) : Type 0 where
  pub json : p.parse (p.stringify document) ≡ some document
  pub utf8 : p.decode (p.encode (p.stringify document)) ≡ some (p.stringify document)
  pub base64 :
      p.atob (without_padding (p.btoa (p.encode (p.stringify document))))
      ≡ some (p.encode (p.stringify document))
  pub alphabet : All IsBase64 (p.btoa (p.encode (p.stringify document)))

-- What a key may hold: a null only where it is nullable, and a date and a `bigint` by the text that the
-- platform gives them.
abbrev pub MayHold : CursorPlatform → CursorKey → RowValue → Type 0
MayHold p key null_value = key.nullable ≡ true
MayHold p key object_value = ⊥
MayHold p key (date_value iso) = p.date_of iso ≡ some iso
MayHold p key (bigint_value digits) = (is_whole digits ≡ true) × (p.bigint_of digits ≡ digits)
MayHold p key (text_value t) = Unit
MayHold p key (number_value b t) = Unit
MayHold p key (boolean_value b) = Unit

plain_char-url_char : (c : ℕ) → IsBase64 c → plain_char (url_char c) ≡ c
plain_char-url_char c (m, u) = elim (Bool-cases (c == b'+')) [
  | inl e ↦ rw e (sym ((==_iff c b'+').0 e))
  | inr e ↦ elim (Bool-cases (c == b'/')) [
    | inl f ↦ rw (e, f) (sym ((==_iff c b'/').0 f))
    | inr f ↦ rw (e, f) (rw (m, u) refl)
  ]
]

url_char-padding : (c : ℕ) → (url_char c == b'=') ≡ (c == b'=')
url_char-padding c = elim (Bool-cases (c == b'+')) [
  | inl e ↦ rw e (ap (λ x. x == b'=') (sym ((==_iff c b'+').0 e)))
  | inr e ↦ elim (Bool-cases (c == b'/')) [
    | inl f ↦ rw (e, f) (ap (λ x. x == b'=') (sym ((==_iff c b'/').0 f)))
    | inr f ↦ rw (e, f) refl
  ]
]

kept_before-url_char :
    (c : ℕ) (t : Text)
    → IsBase64 c
    → map plain_char (kept_before (url_char c) t) ≡ kept_before c (map plain_char t)
kept_before-url_char c [] b = elim (Bool-cases (c == b'=')) [
  | inl e ↦
      subst (λ x. map plain_char (if x then [] else url_char c ∷ []) ≡ kept_before c [])
        (sym (url_char-padding c)) (rw e refl)
  | inr e ↦
      subst (λ x. map plain_char (if x then [] else url_char c ∷ []) ≡ kept_before c [])
        (sym (url_char-padding c)) (rw e (ap (λ x. x ∷ []) (plain_char-url_char c b)))
]
kept_before-url_char c (d ∷ t) b =
    ap (λ x. x ∷ plain_char d ∷ map plain_char t) (plain_char-url_char c b)

without_padding-url_char :
    (t : Text)
    → All IsBase64 t
    → map plain_char (without_padding (map url_char t)) ≡ without_padding t
without_padding-url_char [] h = refl
without_padding-url_char (c ∷ t) (b, h) =
    kept_before-url_char c (without_padding (map url_char t)) b
    ∙ ap (kept_before c) (without_padding-url_char t h)

length-encode_values :
    (row : Text → RowValue) (keys : List CursorKey) (values : Items)
    → encode_values row keys ≡ ok values
    → items_length values ≡ keys_length keys
length-encode_values row [] values h = ap items_length (sym (ok_eq h))
length-encode_values row (k ∷ ks) values h =
    let (v, a, b) =
      >>=-eq-ok (encode_value (row k.key))
        (λ value. encode_values row ks >>= λ vs. ok (item value vs)) h in
    let (vs, c, d) = >>=-eq-ok (encode_values row ks) (λ vs. ok (item v vs)) b in
    ap items_length (sym (ok_eq d)) ∙ ap suc (length-encode_values row ks vs c)

module _ (p : CursorPlatform) where
  checked-encode_value :
      (k : CursorKey) (v : RowValue) (j : Json)
      → encode_value v ≡ ok j
      → MayHold p k v
      → checked k (decode_value p j) ≡ ok v
  unfolding encode_value decode_value
  checked-encode_value k null_value j h m =
      subst (λ i. checked k (decode_value p i) ≡ ok null_value) (ok_eq h) (rw m refl)
  checked-encode_value k object_value j h m = elim m [ ]
  checked-encode_value k (date_value iso) j h m =
      subst (λ i. checked k (decode_value p i) ≡ ok (date_value iso)) (ok_eq h) (rw m refl)
  checked-encode_value k (bigint_value digits) j h (a, b) =
      subst (λ i. checked k (decode_value p i) ≡ ok (bigint_value digits)) (ok_eq h)
        (rw (a, b) refl)
  checked-encode_value k (text_value t) j h m =
      subst (λ i. checked k (decode_value p i) ≡ ok (text_value t)) (ok_eq h) refl
  checked-encode_value k (number_value b t) j h m =
      subst (λ i. checked k (decode_value p i) ≡ ok (number_value b t)) (ok_eq h) refl
  checked-encode_value k (boolean_value b) j h m =
      subst (λ i. checked k (decode_value p i) ≡ ok (boolean_value b)) (ok_eq h) refl

  decode_values-encode_values :
      (row : Text → RowValue) (keys : List CursorKey) (values : Items)
      → encode_values row keys ≡ ok values
      → All (λ k. MayHold p k (row k.key)) keys
      → decode_values p keys values ≡ ok (map (λ k. row k.key) keys)
  decode_values-encode_values row [] values h m = refl
  decode_values-encode_values row (k ∷ ks) values h (m, ms) =
      let (v, a, b) =
        >>=-eq-ok (encode_value (row k.key))
          (λ value. encode_values row ks >>= λ vs. ok (item value vs)) h in
      let (vs, c, d) = >>=-eq-ok (encode_values row ks) (λ vs. ok (item v vs)) b in
      subst (λ i. decode_values p (k ∷ ks) i ≡ ok (map (λ k. row k.key) (k ∷ ks))) (ok_eq d)
        (rw (checked-encode_value k (row k.key) v a m, decode_values-encode_values row ks vs c ms)
          refl)

  parsed-to_base64_url :
      (document : Json)
      → Carries p document
      → parsed p (from_base64_url p (to_base64_url p (p.stringify document))) ≡ some document
  unfolding from_base64_url to_base64_url
  parsed-to_base64_url document c =
      rw (without_padding-url_char (p.btoa (p.encode (p.stringify document))) c.alphabet)
        (rw c.base64 (rw c.utf8 c.json))

  encode_value-ok :
      (k : CursorKey) (v : RowValue) → MayHold p k v → (j : Json) × (encode_value v ≡ ok j)
  unfolding encode_value
  encode_value-ok k null_value m = (_, refl)
  encode_value-ok k object_value m = elim m [ ]
  encode_value-ok k (date_value iso) m = (_, refl)
  encode_value-ok k (bigint_value digits) m = (_, refl)
  encode_value-ok k (text_value t) m = (_, refl)
  encode_value-ok k (number_value b t) m = (_, refl)
  encode_value-ok k (boolean_value b) m = (_, refl)

  encode_values-ok :
      (row : Text → RowValue) (keys : List CursorKey)
      → All (λ k. MayHold p k (row k.key)) keys
      → (values : Items) × (encode_values row keys ≡ ok values)
  encode_values-ok row [] m = (no_items, refl)
  encode_values-ok row (k ∷ ks) (m, ms) =
      let (j, e) = encode_value-ok k (row k.key) m in
      let (values, f) = encode_values-ok row ks ms in (item j values, rw (e, f) refl)

  -- Where each key may hold its value and the platform reads back the document that it wrote of the
  -- row, the row's cursor is minted: a page of the same keys and fingerprint reads the row's values
  -- back out of it, and one of another fingerprint refuses it.
  pub read_cursor-mint_cursor :
      (fingerprint : Text) (keys : List CursorKey) (row : Text → RowValue)
      → All (λ k. MayHold p k (row k.key)) keys
      → ((values : Items)
          → encode_values row keys ≡ ok values
          → Carries p (array (item (text fingerprint) values)))
      → (cursor : Text) × (mint_cursor p fingerprint keys row ≡ ok cursor)
        × (read_cursor p fingerprint keys cursor ≡ ok (map (λ k. row k.key) keys))
        × ((other : Text)
            → (fingerprint == other) ≡ false
            → read_cursor p other keys cursor ≡ err usage)
  unfolding mint_cursor read_cursor
  read_cursor-mint_cursor fingerprint keys row m carries =
      let (values, h) = encode_values-ok row keys m in
      let cursor = to_base64_url p (p.stringify (array (item (text fingerprint) values))) in
      let whole : parsed p (from_base64_url p cursor)
          ≡ some (array (item (text fingerprint) values)) =
        parsed-to_base64_url (array (item (text fingerprint) values)) (carries values h) in
      let long = length-encode_values row keys values h in
      (
        cursor,
        (rw h refl),
        (rw whole (
            rw (long, ==_refl fingerprint)
              (rw (==_refl (keys_length keys)) (decode_values-encode_values row keys values h m)))),
        λ other e. rw whole (rw (long, e) (rw (==_refl (keys_length keys)) refl)),
      )
