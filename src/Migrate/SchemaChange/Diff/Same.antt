-- ===== src/Migrate/SchemaChange/Diff/Same.antt =====
-- Changes put back twice, and renames that change no name.
use mathlib.Core.Option
use mathlib.Core.Path.{ap₂}
use uql.Base.{String, List, [], ◌∷◌, Option, none, some, string_eq, map, ◌≡◌, refl, ap}
use uql.Migrate.SchemaChange.{Change, Alteration, put_back}
use uql.Migrate.SchemaChange.Diff.{
  IndexSchema, IndexEntry, EntryRead, column, json, expression, ForeignKeySchema, PrimaryKeySchema,
  name_of, rename_key, rename_index, rename_foreign_key, rename_index_entries, renamed_read,
}

pub option_twice :
    {T : Type 0} (f g : T → T)
    → ((x : T) → g (f x) ≡ x)
    → (o : Option T) → Option.map g (Option.map f o) ≡ o
option_twice f g h none = refl
option_twice f g h (some x) = ap some (h x)

module _ {T : Type 0} where
  map_twice : (f g : T → T) → ((x : T) → g (f x) ≡ x) → (xs : List T) → map g (map f xs) ≡ xs
  map_twice f g h [] = refl
  map_twice f g h (x ∷ xs) = ap₂ (λ y ys. y ∷ ys) (h x) (map_twice f g h xs)

  pub lists_twice :
      (f g : T → T)
      → ((x : T) → g (f x) ≡ x)
      → (o : Option (List T)) → Option.map (map g) (Option.map (map f) o) ≡ o
  lists_twice f g h = option_twice (map f) (map g) (map_twice f g h)

  pub option_same : (h : T → T) → ((x : T) → h x ≡ x) → (o : Option T) → Option.map h o ≡ o
  option_same h e none = refl
  option_same h e (some x) = ap some (e x)

  change_of_ends : Option T → Option T → Change T
  change_of_ends x y = record { from = x; to = y }

  pub put_back_twice :
      (f g : T → T)
      → ((x : T) → f x ≡ x)
      → ((x : T) → g x ≡ x)
      → (c : Change T) → put_back (put_back c f) g ≡ c
  unfolding change_of_ends
  put_back_twice f g hf hg c = ap₂ change_of_ends (option_same f hf c.from) (option_same g hg c.to)

map_same : (f : String → String) → ((x : String) → f x ≡ x) → (xs : List String) → map f xs ≡ xs
map_same f h [] = refl
map_same f h (x ∷ xs) = ap₂ (λ y ys. y ∷ ys) (h x) (map_same f h xs)

pub name_of-none : (rs : List (Alteration String)) → rs ≡ [] → (c : String) → name_of rs c ≡ c
unfolding name_of
name_of-none [] e c = refl
name_of-none (r ∷ rs) e c = cc

module _ (f : String → String) (h : (c : String) → f c ≡ c) where
  pub rename_key_same : (k : PrimaryKeySchema) → rename_key f k ≡ k
  rename_key_same k = ap (λ cs. record k { columns = cs }) (map_same f h k.columns)

  pub rename_foreign_key_same : (k : ForeignKeySchema) → rename_foreign_key f k ≡ k
  rename_foreign_key_same k = ap (λ cs. record k { columns = cs }) (map_same f h k.columns)

  renamed_read_same : (r : EntryRead) → renamed_read f r ≡ r
  renamed_read_same (column c) = ap column (h c)
  renamed_read_same (json c path) = ap (λ x. json x path) (h c)
  renamed_read_same (expression sql) = refl

  entries_same : (es : List IndexEntry) → rename_index_entries es f ≡ es
  entries_same [] = refl
  entries_same (e ∷ es) =
      ap₂ (λ r rest. record e { read = r } ∷ rest) (renamed_read_same e.read) (entries_same es)

  pub rename_index_same : (i : IndexSchema) → rename_index f i ≡ i
  rename_index_same i = ap (λ es. record i { entries = es }) (entries_same i.entries)
