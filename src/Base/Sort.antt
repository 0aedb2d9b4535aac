-- ===== src/Base/Sort.antt =====
-- `Array.prototype.sort` by a given order: equal items stay in order.
use mathlib.Core.Path.{◌≡◌, refl, ap, ◌∙◌}
use mathlib.Core.Bool.{Bool, ◌||◌}
use mathlib.Core.List.{List, [], ◌∷◌}
use native.Mathlib.Omega.{arith}
use uql.Base.Tests.{if◌then◌else◌}
use uql.Base.Lists.{any}

module _ {ℓ} {A : Type ℓ} where
  abbrev pub insert : (A → A → Bool) → A → List A → List A
  insert leb x [] = x ∷ []
  insert leb x (y ∷ ys) = let later = insert leb x ys in if leb x y then x ∷ y ∷ ys else y ∷ later

  unfoldable pub sort : (A → A → Bool) → List A → List A
  sort leb [] = []
  sort leb (x ∷ xs) = insert leb x (sort leb xs)

  any-insert :
      (p : A → Bool) (leb : A → A → Bool) (x : A) (xs : List A)
      → any p (insert leb x xs) ≡ (p x || any p xs)
  any-insert p leb x [] = refl
  any-insert p leb x (y ∷ ys) = ground (arith, any-insert p leb x ys)

  pub any-sort : (p : A → Bool) (leb : A → A → Bool) (xs : List A) → any p (sort leb xs) ≡ any p xs
  unfolding sort
  any-sort p leb [] = refl
  any-sort p leb (x ∷ xs) =
      any-insert p leb x (sort leb xs) ∙ ap (λ b. p x || b) (any-sort p leb xs)
