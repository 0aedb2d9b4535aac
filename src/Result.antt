-- ===== src/Result.antt =====
-- The errors that the program throws (packages/orm/src/util/uqlError.ts), and the result of code
-- that may throw one.
use uql.Base.{ℕ, ◌≡◌, refl, Bool, true, false}

-- `UqlUsageError`, `UqlSecurityError`, an error of other code, and the error that the HTTP layer
-- answers by a status.
pub data Error : Type 0 where
  usage security foreign : Error
  request : ℕ → Error

pub data Result {ℓ} (T : Type ℓ) : Type ℓ where
  ok : T → Result T
  err : Error → Result T

pub ok_eq {ℓ} : {T : Type ℓ} {x y : T} → ok x ≡ ok y → x ≡ y
ok_eq h = cc

-- `if (!test) throw error`
abbrev pub guard : (test : Bool) → (thrown : Error) → Result (Unit {0})
guard false thrown = err thrown
guard true thrown = ok tt

infixl 5 ◌>>◌ ◌>>=◌
abbrev pub ◌>>=◌ {κ ℓ} : {T : Type κ} {R : Type ℓ} → Result T → (T → Result R) → Result R
err thrown >>= next = err thrown
ok x >>= next = next x

abbrev pub ◌>>◌ {ℓ} : {R : Type ℓ} → Result (Unit {0}) → Result R → Result R
first >> next = first >>= λ done. next

-- Where a chain of two steps has a value, each step has one.
pub >>=-eq-ok {κ ℓ} :
    {T : Type κ} {R : Type ℓ} (r : Result T) (next : T → Result R) {y : R}
    → (r >>= next) ≡ ok y
    → (x : T) × (r ≡ ok x) × (next x ≡ ok y)
>>=-eq-ok (err thrown) next h = cc
>>=-eq-ok (ok x) next h = (x, refl, h)
