-- ===== src/Schema/CanonicalType/Compare.antt =====
-- What a change of type that is not breaking keeps.
use mathlib.Core.Bool.{xor}
use uql.Base.{
  ℕ, ◌≤◌, Bool, true, false, ◌&&◌, not, Option, none, some, if◌then◌else◌, ◌==◌, nat_eq, ◌≡◌, refl,
  Equal, ap, sym, ◌∙◌, arith, ==_iff, ==_refl, or_false, subst, is_some,
}
use uql.Schema.CanonicalType.{
  TypeCategory, SizeVariant, size_order, CanonicalType, category_eq, size_eq, same_option,
  are_types_equal, narrows, shrinks, is_breaking_type_change,
}

-- What a value asks of its type, each on its own: its category, the rank of the smallest size that
-- holds it, its length, its digits, those after the point, and whether it is negative or keeps an
-- offset. The digits before the point, which a precision and a scale bound together, are none of it.
pub record Demand : Type 0 where
  pub category : TypeCategory
  pub rank : ℕ
  pub length : ℕ
  pub precision : ℕ
  pub scale : ℕ
  pub negative : Bool
  pub offset : Bool

-- A bound holds what is within it; one that is not stated holds anything.
abbrev pub Within : ℕ → Option ℕ → Type 0
Within n none = Unit
Within n (some k) = n ≤ k

abbrev pub WithinSize : ℕ → Option SizeVariant → Type 0
WithinSize n none = Unit
WithinSize n (some s) = n ≤ size_order s

abbrev pub Meets : CanonicalType → Demand → Type 0
Meets t v =
    (t.category ≡ v.category)
    × WithinSize v.rank t.size
    × Within v.length t.length
    × Within v.precision t.precision
    × Within v.scale t.scale
    × ((v.negative && t.unsigned) ≡ false)
    × ((v.offset && not t.with_timezone) ≡ false)

Within-narrows : (n : ℕ) (a b : Option ℕ) → narrows a b ≡ false → Within n a → Within n b
Within-narrows n a none h w = tt
Within-narrows n none (some k) h w = cc
Within-narrows n (some m) (some k) h w = ground arith

WithinSize-shrinks :
    (n : ℕ) (a b : Option SizeVariant)
    → is_some a ≡ is_some b
    → shrinks a b ≡ false
    → WithinSize n a
    → WithinSize n b
WithinSize-shrinks n a none s h w = tt
WithinSize-shrinks n none (some t) s h w = cc
WithinSize-shrinks n (some r) (some t) s h w = ground arith

neither :
    (a b c : Bool)
    → (if not a then true else if b then true else c) ≡ false
    → (a ≡ true) × (b ≡ false) × (c ≡ false)
neither true false c h = (refl, refl, h)
neither true true c h = cc
neither false b c h = cc

unsigned_kept : (n u v : Bool) → xor u v ≡ false → (n && u) ≡ false → (n && v) ≡ false
unfolding xor
unsigned_kept n true true h w = w
unsigned_kept n false false h w = w
unsigned_kept n true false h w = cc
unsigned_kept n false true h w = cc

offset_kept : (o y z : Bool) → (y && not z) ≡ false → (o && not y) ≡ false → (o && not z) ≡ false
offset_kept false y z h w = refl
offset_kept true true z h w = h
offset_kept true false z h w = cc

-- A change that is not breaking, between types that both state a size or neither does, keeps each bound:
-- the new type meets each demand that the old one does.
pub is_breaking_type_change-Meets :
    (from to : CanonicalType) (v : Demand)
    → is_breaking_type_change from to ≡ false
    → is_some from.size ≡ is_some to.size
    → Meets from v
    → Meets to v
unfolding is_breaking_type_change
is_breaking_type_change-Meets from to v h s (c, z, l, p, d, n, o) =
    let (same, fits, bounds) =
      neither (from.category == to.category) (shrinks from.size to.size) _ h in
    let (h1, hz) = or_false _ (from.with_timezone && not to.with_timezone) bounds in
    let (h2, hu) = or_false _ (xor from.unsigned to.unsigned) h1 in
    let (h3, hd) = or_false _ (narrows from.scale to.scale) h2 in
    let (hl, hp) = or_false _ (narrows from.precision to.precision) h3 in
    (
      sym ((==_iff from.category to.category).0 same) ∙ c,
      WithinSize-shrinks v.rank from.size to.size s fits z,
      Within-narrows v.length from.length to.length hl l,
      Within-narrows v.precision from.precision to.precision hp p,
      Within-narrows v.scale from.scale to.scale hd d,
      unsigned_kept v.negative from.unsigned to.unsigned hu n,
      offset_kept v.offset from.with_timezone to.with_timezone hz o,
    )

both : (a b : Bool) → (a && b) ≡ true → (a ≡ true) × (b ≡ true)
both true b h = (refl, h)
both false b h = cc

same_option-eq : {V : Type 0} ⦃e : Equal V⦄ (x y : Option V) → same_option x y ≡ true → x ≡ y
same_option-eq none none h = refl
same_option-eq (some x) (some y) h = ap some ((==_iff x y).0 h)
same_option-eq none (some y) h = cc
same_option-eq (some x) none h = cc

pub not-xor : (a b : Bool) → not (xor a b) ≡ true → a ≡ b
unfolding xor
not-xor true true h = refl
not-xor false false h = refl
not-xor true false h = cc
not-xor false true h = cc

narrows_same : (o : Option ℕ) → narrows o o ≡ false
narrows_same none = refl
narrows_same (some n) = ground arith

shrinks_same : (o : Option SizeVariant) → shrinks o o ≡ false
shrinks_same none = refl
shrinks_same (some s) = ground arith

pub xor_same : (a : Bool) → xor a a ≡ false
unfolding xor
xor_same true = refl
xor_same false = refl

and_not : (a : Bool) → (a && not a) ≡ false
and_not true = refl
and_not false = refl

is_breaking_type_change_refl : (a : CanonicalType) → is_breaking_type_change a a ≡ false
unfolding is_breaking_type_change
is_breaking_type_change_refl a =
    rw
      (
        ==_refl a.category,
        shrinks_same a.size,
        narrows_same a.length,
        narrows_same a.precision,
        narrows_same a.scale,
        xor_same a.unsigned,
      )
      (and_not a.with_timezone)

-- Types that compare as equal are one type, and a change between them is not breaking.
pub are_types_equal-is_breaking_type_change :
    (a b : CanonicalType)
    → are_types_equal a b ≡ true
    → (a ≡ b) × (is_breaking_type_change a b ≡ false)
unfolding are_types_equal
are_types_equal-is_breaking_type_change a b h =
    let (h1, hu) = both _ (not (xor a.unsigned b.unsigned)) h in
    let (h2, hz) = both _ (not (xor a.with_timezone b.with_timezone)) h1 in
    let (h3, hd) = both _ (same_option a.scale b.scale) h2 in
    let (h4, hp) = both _ (same_option a.precision b.precision) h3 in
    let (h5, hl) = both _ (same_option a.length b.length) h4 in
    let (hc, hs) = both _ (same_option a.size b.size) h5 in
    let c = (==_iff a.category b.category).0 hc in
    let s = same_option-eq a.size b.size hs in
    let l = same_option-eq a.length b.length hl in
    let p = same_option-eq a.precision b.precision hp in
    let d = same_option-eq a.scale b.scale hd in
    let z = not-xor a.with_timezone b.with_timezone hz in
    let u = not-xor a.unsigned b.unsigned hu in
    let e : a ≡ b = λ i. record {
      category = c i;
      size = s i;
      length = l i;
      precision = p i;
      scale = d i;
      unsigned = u i;
      with_timezone = z i;
    } in
    (e, subst (λ x. is_breaking_type_change a x ≡ false) e (is_breaking_type_change_refl a))

same_option_refl : {V : Type 0} ⦃e : Equal V⦄ (o : Option V) → same_option o o ≡ true
same_option_refl none = refl
same_option_refl (some x) = ==_refl x

pub are_types_equal_refl : (t : CanonicalType) → are_types_equal t t ≡ true
unfolding are_types_equal
are_types_equal_refl t =
    rw
      (
        ==_refl t.category,
        same_option_refl t.size,
        same_option_refl t.length,
        same_option_refl t.precision,
        same_option_refl t.scale,
        xor_same t.with_timezone,
        xor_same t.unsigned,
      )
      refl
