-- ===== src/Base/Lists.antt =====
-- Lists measured by native numbers, their Boolean tests, and predicates on every element.
use Prim.Native.Nat.{ℕ, zero, suc, ◌+◌}
use mathlib.Core.Path.{◌≡◌, refl, sym, ap, ◌∙◌, subst}
use mathlib.Core.Logic.{◌⊎◌, inl, inr}
use mathlib.Core.Bool.{Bool, true, false, ◌&&◌, ◌||◌}
use mathlib.Core.Option.{Option, none, some}
use mathlib.Core.List.{List, [], ◌∷◌, ◌++◌}
use native.Mathlib.Omega.{arith}
use uql.Base.Tests.{if◌then◌else◌, Bool-cases}

module _ {ℓ} {A : Type ℓ} where
  abbrev pub length : List A → ℕ
  length [] = 0
  length (x ∷ xs) = suc (length xs)

  abbrev pub take : ℕ → List A → List A
  take zero xs = []
  take (suc n) [] = []
  take (suc n) (x ∷ xs) = x ∷ take n xs

  abbrev pub get_last? : List A → Option A
  get_last? [] = none
  get_last? (x ∷ []) = some x
  get_last? (x ∷ y ∷ xs) = get_last? (y ∷ xs)

  abbrev pub any : (A → Bool) → List A → Bool
  any p [] = false
  any p (x ∷ xs) = p x || any p xs

  abbrev pub all : (A → Bool) → List A → Bool
  all p [] = true
  all p (x ∷ xs) = p x && all p xs

  -- `xs.filter(p)`; the library's `filter` takes a decision.
  abbrev pub filter : (A → Bool) → List A → List A
  filter p [] = []
  filter p (x ∷ xs) = let rest = filter p xs in if p x then x ∷ rest else rest

module _ {ℓ} {A : Type ℓ} where
  pub length-append : (xs ys : List A) → length (xs ++ ys) ≡ length xs + length ys
  length-append [] ys = omega arith
  length-append (x ∷ xs) ys = omega (arith, length-append xs ys)

  pub any-append : (p : A → Bool) (xs ys : List A) → any p (xs ++ ys) ≡ (any p xs || any p ys)
  any-append p [] ys = refl
  any-append p (x ∷ xs) ys = ground (arith, any-append p xs ys)

  pub filter-append :
      (p : A → Bool) (xs ys : List A) → filter p (xs ++ ys) ≡ filter p xs ++ filter p ys
  filter-append p [] ys = refl
  filter-append p (x ∷ xs) ys = ground (arith, filter-append p xs ys)

module _ {ℓ κ} {A : Type ℓ} (P : A → Type κ) where
  abbrev pub All : List A → Type κ
  All [] = Unit
  All (x ∷ xs) = P x × All xs

  pub All-append : (xs ys : List A) → All xs → All ys → All (xs ++ ys)
  All-append [] ys _ k = k
  All-append (x ∷ xs) ys (p, h) k = (p, All-append xs ys h k)

module _ {ℓ κ} {A : Type ℓ} (P : A → Type κ) where
  pub All-take : (xs ys : List A) → All P (xs ++ ys) → All P xs × All P ys
  All-take [] ys h = (tt, h)
  All-take (x ∷ xs) ys (p, h) = let (a, b) = All-take xs ys h in ((p, a), b)

module _ {ℓ κ₁ κ₂} {A : Type ℓ} {P : A → Type κ₁} {Q : A → Type κ₂} where
  pub All-map : ((x : A) → P x → Q x) → (xs : List A) → All P xs → All Q xs
  All-map f [] h = tt
  All-map f (x ∷ xs) (p, h) = (f x p, All-map f xs h)

pub All-filter {ℓ κ} :
    {A : Type ℓ} (P : A → Type κ) (p : A → Bool) (xs : List A) → All P xs → All P (filter p xs)
All-filter P p [] h = tt
All-filter P p (x ∷ xs) (q, h) = elim (Bool-cases (p x)) [
  | inl e ↦ rw e (q, All-filter P p xs h)
  | inr e ↦ rw e (All-filter P p xs h)
]

module _ {ℓ κ₁ κ₂} {A : Type ℓ} (P : A → Type κ₁) (Q : A → Type κ₂) where
  pub All-both : (xs : List A) → All P xs → All Q xs → All (λ x. P x × Q x) xs
  All-both [] h k = tt
  All-both (x ∷ xs) (p, h) (q, k) = ((p, q), All-both xs h k)

module _ {ℓ κ} {A : Type ℓ} {P : A → Type κ} where
  pub All-every : ((x : A) → P x) → (xs : List A) → All P xs
  All-every f [] = tt
  All-every f (x ∷ xs) = (f x, All-every f xs)

-- What a test of a filter says of each item that is left.
pub filter-All {ℓ} : {A : Type ℓ} (p : A → Bool) (xs : List A) → All (λ x. p x ≡ true) (filter p xs)
filter-All p [] = tt
filter-All p (x ∷ xs) = elim (Bool-cases (p x)) [
  | inl e ↦ rw e (e, filter-All p xs)
  | inr e ↦ rw e (filter-All p xs)
]

-- An item, at some place of a list.
module _ {A : Type 0} where
  abbrev pub Has : A → List A → Type 0
  Has x [] = ⊥
  Has x (y ∷ ys) = (x ≡ y) ⊎ Has x ys

  pub All-Has : (P : A → Type 0) (x : A) (xs : List A) → All P xs → Has x xs → P x
  All-Has P x [] h m = elim m [ ]
  All-Has P x (y ∷ ys) (p, h) (inl e) = subst P (sym e) p
  All-Has P x (y ∷ ys) (p, h) (inr m) = All-Has P x ys h m

  pub Has-filter :
      (p : A → Bool) (x : A) (xs : List A) → Has x xs → p x ≡ true → Has x (filter p xs)
  Has-filter p x [] m h = elim m [ ]
  Has-filter p x (y ∷ ys) (inl e) h = let f : p y ≡ true = ap p (sym e) ∙ h in rw f (inl e)
  Has-filter p x (y ∷ ys) (inr m) h = elim (Bool-cases (p y)) [
    | inl f ↦ rw f (inr (Has-filter p x ys m h))
    | inr f ↦ rw f (Has-filter p x ys m h)
  ]

  filtered-Has :
      (p : A → Bool) (x y : A) (xs ys : List A) (b : Bool)
      → p y ≡ b
      → (Has x xs → Has x ys × (p x ≡ true))
      → Has x (if b then y ∷ xs else xs)
      → Has x (y ∷ ys) × (p x ≡ true)
  filtered-Has p x y xs ys true e f (inl h) = (inl h, ap p h ∙ e)
  filtered-Has p x y xs ys true e f (inr m) = let (n, h) = f m in (inr n, h)
  filtered-Has p x y xs ys false e f m = let (n, h) = f m in (inr n, h)

  pub filter-Has :
      (p : A → Bool) (x : A) (xs : List A) → Has x (filter p xs) → Has x xs × (p x ≡ true)
  filter-Has p x [] m = elim m [ ]
  filter-Has p x (y ∷ ys) m =
      filtered-Has p x y (filter p ys) ys (p y) refl (λ n. filter-Has p x ys n) m

pub Has-append : {A : Type 0} (x : A) (xs ys : List A) → Has x xs ⊎ Has x ys → Has x (xs ++ ys)
Has-append x (y ∷ xs) ys (inl (inl e)) = inl e
Has-append x (y ∷ xs) ys (inl (inr m)) = inr (Has-append x xs ys (inl m))
Has-append x [] ys (inl m) = elim m [ ]
Has-append x [] ys (inr m) = m
Has-append x (y ∷ xs) ys (inr m) = inr (Has-append x xs ys (inr m))

pub append-Has : {A : Type 0} (x : A) (xs ys : List A) → Has x (xs ++ ys) → Has x xs ⊎ Has x ys
append-Has x [] ys m = inr m
append-Has x (y ∷ xs) ys (inl e) = inl (inl e)
append-Has x (y ∷ xs) ys (inr m) = elim (append-Has x xs ys m) [
  | inl n ↦ inl (inr n)
  | inr n ↦ inr n
]
