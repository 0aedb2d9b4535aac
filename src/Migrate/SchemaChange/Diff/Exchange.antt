-- ===== src/Migrate/SchemaChange/Diff/Exchange.antt =====
-- What `reverseDiff` turns round in a diff whose columns keep their names.
use mathlib.Core.Option
use mathlib.Core.Path.{ap₂}
use uql.Base.{List, [], ◌∷◌, Option, none, some, map, ◌≡◌, refl}
use uql.Migrate.SchemaChange.{Change, Alteration, ColumnChange, changes_of, list_of}
use uql.Migrate.SchemaChange.Diff.{SchemaDiff, RebuiltTable}

-- Each of the second list ends where its fellow of the first begins, and begins where it ends.
abbrev pub Exchanged : {A E : Type 0} (from to : A → E) (xs ys : List A) → Type 0
Exchanged from to xs ys = (map from ys ≡ map to xs) × (map to ys ≡ map from xs)

abbrev pub ExchangedChanges : {T : Type 0} → List (Change T) → List (Change T) → Type 0
ExchangedChanges xs ys = Exchanged (λ c. c.from) (λ c. c.to) xs ys

-- Every list of the diff, the primary key and the rebuild have their sides exchanged.
pub record Exchanges (d r : SchemaDiff) : Type 0 where
  pub primary_key : ExchangedChanges (list_of d.primary_key) (list_of r.primary_key)
  pub columns :
      Exchanged {A = ColumnChange}
        (λ c. c.from)
        (λ c. c.to)
        (changes_of d.columns)
        (changes_of r.columns)
  pub indexes : ExchangedChanges (changes_of d.indexes) (changes_of r.indexes)
  pub foreign_keys : ExchangedChanges (changes_of d.foreign_keys) (changes_of r.foreign_keys)
  pub checks : ExchangedChanges (changes_of d.checks) (changes_of r.checks)
  pub triggers : ExchangedChanges (changes_of d.triggers) (changes_of r.triggers)
  pub rebuild :
      Exchanged {A = Alteration RebuiltTable}
        (λ a. a.from)
        (λ a. a.to)
        (list_of d.rebuild)
        (list_of r.rebuild)

module _ {A E : Type 0} (from to : A → E) (f : A → A) (h : (x : A) → from (f x) ≡ to x)
    (k : (x : A) → to (f x) ≡ from x) where
  map-Exchanged : (xs : List A) → Exchanged from to xs (map f xs)
  map-Exchanged [] = (refl, refl)
  map-Exchanged (x ∷ xs) =
      let (a, b) = map-Exchanged xs in (ap₂ (λ y ys. y ∷ ys) (h x) a, ap₂ (λ y ys. y ∷ ys) (k x) b)

  pub changes_of-Exchanged :
      (o : Option (List A)) → Exchanged from to (changes_of o) (changes_of (Option.map (map f) o))
  changes_of-Exchanged none = (refl, refl)
  changes_of-Exchanged (some xs) = map-Exchanged xs

  pub list_of-Exchanged : (o : Option A) → Exchanged from to (list_of o) (list_of (Option.map f o))
  list_of-Exchanged none = (refl, refl)
  list_of-Exchanged (some x) = map-Exchanged (x ∷ [])
