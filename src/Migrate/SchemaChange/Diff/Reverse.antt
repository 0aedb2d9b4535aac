-- ===== src/Migrate/SchemaChange/Diff/Reverse.antt =====
-- What `reverseDiff` undoes.
use mathlib.Core.Option
use uql.Base.{
  String, Bool, true, false, ◌||◌, List, [], ◌∷◌, ◌++◌, Option, none, some, ◌==◌, string_eq, any,
  map, flat_map, ◌≡◌, refl, ap, sym, arith, ==_refl, ==_iff, Bool-cases, or_false, inl, inr, subst,
}
use uql.Migrate.SchemaChange.{
  Change, Alteration, ColumnChange, changes_of, swap, swap_column, put_back, from_side, to_side,
  sides, list_of,
}
use uql.Migrate.SchemaChange.Diff.Same.{
  option_twice, lists_twice, option_same, put_back_twice, rename_key_same, rename_foreign_key_same,
  rename_index_same, name_of-none,
}
use uql.Migrate.SchemaChange.Diff.Exchange.{Exchanges, changes_of-Exchanged, list_of-Exchanged}
use uql.Migrate.SchemaChange.Diff.{
  SchemaDiff, turned, name_of, renames_back, rename_key, rename_index, rename_foreign_key,
  reverse_diff,
}

module _ {T : Type 0} (restore : T → T) where
  list_of-restored :
      (o : Option T) (xs ys : List T)
      → xs ≡ map restore ys
      → list_of (Option.map restore o) ++ xs ≡ map restore (list_of o ++ ys)
  list_of-restored none xs ys e = e
  list_of-restored (some x) xs ys e = ap (λ l. restore x ∷ l) e

  sides-put_back :
      (cs : List (Change T))
      → (sides (map (λ c. put_back c restore) cs) to_side ≡ map restore (sides cs from_side))
        × (sides (map (λ c. put_back c restore) cs) from_side ≡ sides cs to_side)
  unfolding sides flat_map
  sides-put_back [] = (refl, refl)
  sides-put_back (c ∷ cs) =
      let (a, b) = sides-put_back cs in
      (list_of-restored c.from _ _ a, ap (λ l. list_of c.to ++ l) b)

  pub sides-restored :
      (cs : Option (List (Change T)))
      → (let back = changes_of (Option.map (map (λ c. put_back c restore)) cs) in
          (sides back to_side ≡ map restore (sides (changes_of cs) from_side))
          × (sides back from_side ≡ sides (changes_of cs) to_side))
  sides-restored none = unfold sides flat_map in (refl, refl)
  sides-restored (some cs) = sides-put_back cs

-- Whether `r` creates the indexes and foreign keys that `d` drops, each column of theirs under the name
-- that the renames back leave it, and drops those that `d` creates.
abbrev pub Undoes : SchemaDiff → SchemaDiff → Type 0
Undoes d r =
    let rename = name_of (renames_back d) in
    (sides (changes_of r.indexes) to_side
      ≡ map (rename_index rename) (sides (changes_of d.indexes) from_side))
    × (sides (changes_of r.indexes) from_side ≡ sides (changes_of d.indexes) to_side)
    × (sides (changes_of r.foreign_keys) to_side
        ≡ map (rename_foreign_key rename) (sides (changes_of d.foreign_keys) from_side))
    × (sides (changes_of r.foreign_keys) from_side ≡ sides (changes_of d.foreign_keys) to_side)

-- The reversed diff creates each index and foreign key that the diff drops, its columns named as the
-- renames back leave them, and drops each that the diff creates.
pub reverse_diff-sides : (d : SchemaDiff) → Undoes d (reverse_diff d)
unfolding reverse_diff
reverse_diff-sides d =
    let rename = name_of (renames_back d) in
    let indexes = sides-restored (rename_index rename) d.indexes in
    let keys = sides-restored (rename_foreign_key rename) d.foreign_keys in
    (indexes.0, indexes.1, keys.0, keys.1)

-- Whether a column is the name that one of the renames gives.
abbrev pub is_target : List (Alteration String) → String → Bool
is_target rs c = any (λ r. r.to == c) rs

-- No two renames give one name.
abbrev pub TargetsDiffer : List (Alteration String) → Type 0
TargetsDiffer [] = Unit
TargetsDiffer (r ∷ rs) = (is_target rs r.to ≡ false) × TargetsDiffer rs

any-turned :
    (rs : List (Alteration String)) (c : String)
    → any (λ q. q.from == c) (map turned rs) ≡ is_target rs c
any-turned [] c = refl
any-turned (r ∷ rs) c = ap (λ b. (r.to == c) || b) (any-turned rs c)

name_of-untouched :
    (rs : List (Alteration String)) (c : String)
    → any (λ q. q.from == c) rs ≡ false
    → name_of rs c ≡ c
unfolding name_of
name_of-untouched [] c h = refl
name_of-untouched (r ∷ rs) c h = ground (arith)

is_target-name_of :
    (rs : List (Alteration String)) (c : String)
    → any (λ q. q.from == c) rs ≡ true
    → is_target rs (name_of rs c) ≡ true
unfolding name_of
is_target-name_of [] c h = cc
is_target-name_of (r ∷ rs) c h = elim (Bool-cases (any (λ q. q.from == c) rs)) [
  | inl e ↦ ground (arith, is_target-name_of rs c e)
  | inr e ↦ ground (arith, ==_refl r.to)
]

-- A rename back gives each column the name that it had, where no two renames give one name and the
-- column is not itself a name that one gives.
pub name_of-turned :
    (rs : List (Alteration String)) (c : String)
    → TargetsDiffer rs
    → is_target rs c ≡ false
    → name_of (map turned rs) (name_of rs c) ≡ c
unfolding name_of
name_of-turned [] c h u = refl
name_of-turned (r ∷ rs) c (h, hs) u = elim (Bool-cases (any (λ q. q.from == c) rs)) [
  | inl e ↦
      let n : name_of (r ∷ rs) c ≡ name_of rs c = rw e refl in
      let back = name_of-turned rs c hs (or_false (r.to == c) _ u).1 in
      subst (λ x. name_of (map turned (r ∷ rs)) x ≡ c) (sym n)
        (rw (any-turned rs (name_of rs c), is_target-name_of rs c e) back)
  | inr e ↦ elim (Bool-cases (r.from == c)) [
    | inl s ↦
        let n : name_of (r ∷ rs) c ≡ r.to = rw (e, s) refl in
        subst (λ x. name_of (map turned (r ∷ rs)) x ≡ c) (sym n)
          (rw (any-turned rs r.to, h, ==_refl r.to) ((==_iff r.from c).0 s))
    | inr s ↦
        let n : name_of (r ∷ rs) c ≡ c = rw (e, s) refl in
        subst (λ x. name_of (map turned (r ∷ rs)) x ≡ c) (sym n)
          (rw (any-turned rs c, (or_false (r.to == c) _ u).1, (or_false (r.to == c) _ u).0) refl)
  ]
]

-- A column's change, said to break nothing.
abbrev pub unmarked : ColumnChange → ColumnChange
unmarked c = record c { is_breaking = false }

columns_twice : (cs : List ColumnChange) → map swap_column (map swap_column cs) ≡ map unmarked cs
columns_twice [] = refl
columns_twice (c ∷ cs) = ap (λ l. unmarked c ∷ l) (columns_twice cs)

optional_columns_twice :
    (o : Option (List ColumnChange))
    → Option.map (map swap_column) (Option.map (map swap_column) o) ≡ Option.map (map unmarked) o
optional_columns_twice none = refl
optional_columns_twice (some cs) = ap some (columns_twice cs)

reverse_diff_twice :
    (d : SchemaDiff)
    → d.renamed_columns ≡ none
    → reverse_diff (reverse_diff d) ≡ record d { columns = Option.map (map unmarked) d.columns }
unfolding reverse_diff
reverse_diff_twice d e =
    let back = name_of (renames_back d) in
    let again = name_of (renames_back (reverse_diff d)) in
    let hb : (c : String) → back c ≡ c = name_of-none (renames_back d) (rw e refl) in
    let ha : (c : String) → again c ≡ c =
      name_of-none (renames_back (reverse_diff d)) (rw e refl) in
    let key =
      option_twice (λ c. put_back c (rename_key back)) (λ c. put_back c (rename_key again))
        (put_back_twice _ _ (rename_key_same back hb) (rename_key_same again ha)) d.primary_key in
    let indexes =
      lists_twice _ _ (put_back_twice _ _ (rename_index_same back hb) (rename_index_same again ha))
        d.indexes in
    let keys =
      lists_twice _ _
        (put_back_twice _ _ (rename_foreign_key_same back hb) (rename_foreign_key_same again ha))
        d.foreign_keys in
    let columns = optional_columns_twice d.columns in
    let checks = lists_twice swap swap (λ c. refl) d.checks in
    let triggers = lists_twice swap swap (λ c. refl) d.triggers in
    let renames = lists_twice turned turned (λ c. refl) d.renamed_columns in
    let rebuild = option_twice turned turned (λ c. refl) d.rebuild in
    λ i. record d {
      primary_key = key i;
      columns = columns i;
      indexes = indexes i;
      foreign_keys = keys i;
      checks = checks i;
      triggers = triggers i;
      renamed_columns = renames i;
      rebuild = rebuild i;
    }

put_back-Exchanged :
    {T : Type 0} (f : T → T) → ((x : T) → f x ≡ x) → (c : Change T) → (put_back c f).to ≡ c.from
put_back-Exchanged f h c = option_same f h c.from

reverse_diff-Exchanges : (d : SchemaDiff) → d.renamed_columns ≡ none → Exchanges d (reverse_diff d)
unfolding reverse_diff
reverse_diff-Exchanges d e =
    let back = name_of (renames_back d) in
    let same : (c : String) → back c ≡ c = name_of-none (renames_back d) (rw e refl) in
    record {
      primary_key =
          list_of-Exchanged (λ c. c.from) (λ c. c.to) (λ c. put_back c (rename_key back))
            (λ c. refl) (put_back-Exchanged _ (rename_key_same back same)) d.primary_key;
      columns =
          changes_of-Exchanged (λ c. c.from) (λ c. c.to) swap_column (λ c. refl) (λ c. refl)
            d.columns;
      indexes =
          changes_of-Exchanged (λ c. c.from) (λ c. c.to) (λ c. put_back c (rename_index back))
            (λ c. refl) (put_back-Exchanged _ (rename_index_same back same)) d.indexes;
      foreign_keys =
          changes_of-Exchanged (λ c. c.from) (λ c. c.to) (λ c. put_back c (rename_foreign_key back))
            (λ c. refl) (put_back-Exchanged _ (rename_foreign_key_same back same)) d.foreign_keys;
      checks = changes_of-Exchanged (λ c. c.from) (λ c. c.to) swap (λ c. refl) (λ c. refl) d.checks;
      triggers =
          changes_of-Exchanged (λ c. c.from) (λ c. c.to) swap (λ c. refl) (λ c. refl) d.triggers;
      rebuild =
          list_of-Exchanged (λ a. a.from) (λ a. a.to) turned (λ a. refl) (λ a. refl) d.rebuild;
    }

-- A diff that renames no column is undone by one whose every change goes the other way, of columns,
-- keys, indexes, checks, triggers and the rebuild, and undone twice it is the diff again, less its
-- marks of breaking changes.
pub reverse_diff-reverse_diff :
    (d : SchemaDiff)
    → d.renamed_columns ≡ none
    → Exchanges d (reverse_diff d)
      × (reverse_diff (reverse_diff d) ≡ record d { columns = Option.map (map unmarked) d.columns })
unfolding reverse_diff
reverse_diff-reverse_diff d e = (reverse_diff-Exchanges d e, reverse_diff_twice d e)
