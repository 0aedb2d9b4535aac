-- ===== src/Base/Tests.antt =====
-- Boolean tests on numbers and names, the conditional, and case lemmas on computed values.
use Prim.Native.Nat.{ℕ, compare, Ordering}
use Prim.Native.String.{String}
use mathlib.Core.Path.{◌≡◌, refl}
use mathlib.Core.Logic.{◌↔◌, ◌⊎◌, inl, inr}
use mathlib.Core.Bool.{Bool, true, false, ◌||◌, ◌&&◌}
use mathlib.Core.Option.{Option, none, some}
use native.Mathlib.Omega.{arith}
use text.Mathlib.Text.{◌==◌ as string_beq}
use text.Mathlib.TextEquality.{eq_iff}

abbrev pub ltb : ℕ → ℕ → Bool
ltb a b = elim (compare a b) [ Ordering.lt ↦ true | _ ↦ false ]

abbrev pub leb : ℕ → ℕ → Bool
leb a b = elim (compare a b) [ Ordering.gt ↦ false | _ ↦ true ]

abbrev pub nat_beq : ℕ → ℕ → Bool
nat_beq a b = elim (compare a b) [ Ordering.eq ↦ true | _ ↦ false ]

pub nat_beq_iff : (a b : ℕ) → (nat_beq a b ≡ true) ↔ (a ≡ b)
nat_beq_iff a b = ground arith

-- JavaScript's `===` on values that it compares by value.
pub record Equal {κ} (V : Type κ) : Type κ where
  pub same : V → V → Bool
  pub same_iff : (x y : V) → (same x y ≡ true) ↔ (x ≡ y)

instance abbrev pub nat_eq : Equal ℕ
nat_eq = record { same = nat_beq; same_iff = nat_beq_iff }

instance abbrev pub string_eq : Equal String
string_eq = record { same_iff = eq_iff; same = string_beq }

module _ {κ} {V : Type κ} ⦃by_value : Equal V⦄ where
  infix 50 ◌==◌
  abbrev pub ◌==◌ : V → V → Bool
  ◌==◌ = by_value.same

  pub ==_iff : (x y : V) → ((x == y) ≡ true) ↔ (x ≡ y)
  ==_iff = by_value.same_iff

  pub ==_refl : (x : V) → (x == x) ≡ true
  ==_refl x = (by_value.same_iff x x).1 refl

infix 1 if◌then◌else◌
abbrev pub if◌then◌else◌ {ℓ} : {A : Type ℓ} → Bool → A → A → A
if true then x else y = x
if false then x else y = y

pub Bool-cases : (b : Bool) → (b ≡ true) ⊎ (b ≡ false)
Bool-cases true = inl refl
Bool-cases false = inr refl

pub Option-cases {ℓ} : {A : Type ℓ} (o : Option A) → (o ≡ none) ⊎ ((a : A) × (o ≡ some a))
Option-cases none = inl refl
Option-cases (some a) = inr (a, refl)

abbrev pub is_some {ℓ} : {A : Type ℓ} → Option A → Bool
is_some none = false
is_some (some a) = true

pub or_false : (a b : Bool) → (a || b) ≡ false → (a ≡ false) × (b ≡ false)
or_false false b h = (refl, h)
or_false true b h = cc

pub some_eq {ℓ} : {A : Type ℓ} {a b : A} → some a ≡ some b → a ≡ b
some_eq h = cc

pub false_true {ℓ} : {A : Type ℓ} → true ≡ false → A
false_true h = cc

pub and_false : (b : Bool) → (b && false) ≡ false
and_false true = refl
and_false false = refl
