-- ===== src/Schema/CanonicalType.antt =====
-- packages/orm/src/schema/canonicalType.ts: the canonical types of columns, compared and named. An
-- `undefined` mark is one that is not set.
pub mod Compare
pub mod Names
use uql.Base.{
  ℕ, String, Bool, true, false, ◌&&◌, ◌||◌, not, List, [], ◌∷◌, Option, none, some, if◌then◌else◌,
  ◌==◌, nat_eq, string_eq, ltb, ◌≡◌, refl, ap, sym, ◌∙◌, ◌↔◌, Equal, ==_iff,
}
use mathlib.Core.Bool.{xor}

pub data TypeCategory : Type 0 where
  integer float decimal string boolean date time timestamp json uuid blob vector halfvec sparsevec :
      TypeCategory

pub data SizeVariant : Type 0 where
  tiny small medium big : SizeVariant

pub record CanonicalType : Type 0 where
  pub category : TypeCategory
  pub size : Option SizeVariant
  pub length : Option ℕ
  pub precision : Option ℕ
  pub scale : Option ℕ
  pub unsigned : Bool
  pub with_timezone : Bool

-- `SIZE_ORDER.indexOf(size)`
abbrev pub size_order : SizeVariant → ℕ
size_order tiny = 0
size_order small = 1
size_order medium = 2
size_order big = 3

abbrev pub place : TypeCategory → ℕ
place integer = 0
place float = 1
place decimal = 2
place string = 3
place boolean = 4
place date = 5
place time = 6
place timestamp = 7
place json = 8
place uuid = 9
place blob = 10
place vector = 11
place halfvec = 12
place sparsevec = 13

at_place : ℕ → TypeCategory
at_place n =
    if n == 0
    then integer
    else if n == 1
    then float
    else if n == 2
    then decimal
    else if n == 3
    then string
    else if n == 4
    then boolean
    else if n == 5
    then date
    else if n == 6
    then time
    else if n == 7
    then timestamp
    else if n == 8
    then json
    else if n == 9
    then uuid
    else if n == 10
    then blob
    else if n == 11
    then vector
    else if n == 12
    then halfvec
    else sparsevec

at_place-place : (c : TypeCategory) → at_place (place c) ≡ c
unfolding at_place
at_place-place integer = refl
at_place-place float = refl
at_place-place decimal = refl
at_place-place string = refl
at_place-place boolean = refl
at_place-place date = refl
at_place-place time = refl
at_place-place timestamp = refl
at_place-place json = refl
at_place-place uuid = refl
at_place-place blob = refl
at_place-place vector = refl
at_place-place halfvec = refl
at_place-place sparsevec = refl

at_size : ℕ → SizeVariant
at_size n = if n == 0 then tiny else if n == 1 then small else if n == 2 then medium else big

at_size-size_order : (s : SizeVariant) → at_size (size_order s) ≡ s
unfolding at_size
at_size-size_order tiny = refl
at_size-size_order small = refl
at_size-size_order medium = refl
at_size-size_order big = refl

abbrev pub same_category : TypeCategory → TypeCategory → Bool
same_category a b = place a == place b

pub same_category_iff : (a b : TypeCategory) → (same_category a b ≡ true) ↔ (a ≡ b)
same_category_iff a b = (
  λ h. sym (at_place-place a) ∙ ap at_place ((==_iff (place a) (place b)).0 h) ∙ at_place-place b,
  λ e. (==_iff (place a) (place b)).1 (ap place e),
)

abbrev pub same_size : SizeVariant → SizeVariant → Bool
same_size a b = size_order a == size_order b

pub same_size_iff : (a b : SizeVariant) → (same_size a b ≡ true) ↔ (a ≡ b)
same_size_iff a b = (
  λ h.
      sym (at_size-size_order a)
      ∙ ap at_size ((==_iff (size_order a) (size_order b)).0 h)
      ∙ at_size-size_order b,
  λ e. (==_iff (size_order a) (size_order b)).1 (ap size_order e),
)

instance abbrev pub category_eq : Equal TypeCategory
category_eq = record { same = same_category; same_iff = same_category_iff }

instance abbrev pub size_eq : Equal SizeVariant
size_eq = record { same = same_size; same_iff = same_size_iff }

-- `===` on a value that may be `undefined`.
module _ {V : Type 0} ⦃by_value : Equal V⦄ where
  abbrev pub same_option : Option V → Option V → Bool
  same_option none none = true
  same_option (some x) (some y) = x == y
  same_option _ _ = false

unfoldable pub are_types_equal : CanonicalType → CanonicalType → Bool
are_types_equal a b =
    a.category == b.category
    && same_option a.size b.size
    && same_option a.length b.length
    && same_option a.precision b.precision
    && same_option a.scale b.scale
    && not (xor a.with_timezone b.with_timezone)
    && not (xor a.unsigned b.unsigned)

-- A bound narrowed, where an unstated one is unbounded.
abbrev pub narrows : Option ℕ → Option ℕ → Bool
narrows from none = false
narrows none (some n) = true
narrows (some m) (some n) = ltb n m

abbrev pub shrinks : Option SizeVariant → Option SizeVariant → Bool
shrinks (some s) (some t) = ltb (size_order t) (size_order s)
shrinks _ _ = false

unfoldable pub is_breaking_type_change : CanonicalType → CanonicalType → Bool
is_breaking_type_change from to =
    if not (from.category == to.category)
    then true
    else if shrinks from.size to.size
    then true
    else narrows from.length to.length
      || narrows from.precision to.precision
      || narrows from.scale to.scale
      || xor from.unsigned to.unsigned
      || from.with_timezone && not to.with_timezone

-- `withTimestampPrecision`: `digits` is `none` where the engine counts none.
unfoldable pub with_timestamp_precision : CanonicalType → Option ℕ → CanonicalType
with_timestamp_precision type digits = record type {
  precision = elim type.precision [
    | some p ↦ some p
    | none ↦ if type.category == timestamp then digits else none
  ];
}
