-- ===== src/Querier/Keyset/Order.antt =====
-- The order of a page, told without the program: a row comes after another where, on the first key
-- on which the two differ, its value comes after the other's.
use uql.Base.{
  Bool, true, false, ◌&&◌, ◌||◌, not, List, ◌∷◌, Option, none, some, if◌then◌else◌, ◌≡◌, refl,
  arith, Bool-cases, inl, inr,
}
use uql.Querier.Where.Meaning.{Order, Row}
use uql.Querier.Keyset.{PageKey, inverted}

module _ {V : Type 0} (o : Order V) where
  -- Whether the value `x` comes strictly after `v` in the order of the key.
  abbrev pub after : PageKey → Option V → Option V → Bool
  after k none none = false
  after k none (some x) = k.nulls_first
  after k (some v) none = not k.nulls_first
  after k (some v) (some x) = if k.desc then o.less x v else o.less v x

  -- Whether the row comes strictly after a row holding these values.
  abbrev pub comes_after : List PageKey → List (Option V) → Row V → Bool
  comes_after (k ∷ keys) (v ∷ values) row =
      after k v (row k.key) || not (after k (row k.key) v) && comes_after keys values row
  comes_after _ _ row = false

  pub less_asym : (a b : V) → o.less a b ≡ true → o.less b a ≡ false
  less_asym a b h = elim (Bool-cases (o.less b a)) [
    | inl k ↦ cc (o.transitive a b a h k, o.irreflexive a)
    | inr k ↦ k
  ]

  -- A value comes after none that comes after it.
  pub after_asym : (k : PageKey) (v x : Option V) → after k v x ≡ true → after k x v ≡ false
  after_asym k none none h = refl
  after_asym k none (some x) h = ground arith
  after_asym k (some v) none h = ground arith
  after_asym k (some v) (some x) h = ground (arith, less_asym v x, less_asym x v)

  -- Inverting a key turns its order round.
  pub after-inverted : (k : PageKey) (v x : Option V) → after (inverted k) v x ≡ after k x v
  after-inverted k none none = refl
  after-inverted k none (some x) = refl
  after-inverted k (some v) none = ground arith
  after-inverted k (some v) (some x) = ground arith
