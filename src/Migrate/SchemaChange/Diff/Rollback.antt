-- ===== src/Migrate/SchemaChange/Diff/Rollback.antt =====
-- What a rollback puts back, and what is left of a diff without its rebuild.
use mathlib.Core.Option
use uql.Base.{
  Bool, true, false, not, List, [], ◌∷◌, Option, none, some, string_eq, any, map, filter, flat_map,
  ◌≡◌, refl, sym, arith, ==_refl, Bool-cases, inl, inr, subst, All, All-map, All-append, All-take,
}
use uql.Migrate.SchemaChange.{
  ColumnSchema, ColumnChange, change_of, changes_of, added, dropped, added_by, lacks_value,
  swap_column, non_empty, only_rebuilt,
}
use uql.Migrate.SchemaChange.Diff.{
  SchemaDiff, needs_rebuild, without_rebuild, unfillable_restores, reverse_diff, rollback_diff,
  restore_column, restored, is_among,
}

-- Whether every column that lacks a value is among `unfillable`.
Covered : List ColumnSchema → ColumnSchema → Type 0
Covered unfillable c = lacks_value c ≡ true → is_among unfillable c ≡ true

is_among-filter :
    (p : ColumnSchema → Bool) (cs : List ColumnSchema)
    → All (λ c. p c ≡ true → is_among (filter p cs) c ≡ true) cs
is_among-filter p [] = tt
is_among-filter p (c ∷ cs) = (
  λ e. rw (e, ==_refl c.name) refl,
  All-map (λ x h e. ground (arith, h e)) cs (is_among-filter p cs),
)

restored-fillable :
    (unfillable : List ColumnSchema) (c : ColumnSchema)
    → Covered unfillable c
    → All (λ x. lacks_value x ≡ false) (added_by none (restored unfillable (some c)))
unfolding Covered lacks_value
restored-fillable unfillable c h = elim (Bool-cases (lacks_value c)) [
  | inl e ↦ (rw (h e) refl, tt)
  | inr e ↦ (ground arith, tt)
]

any-filter-not :
    (cs : List ColumnChange) → any only_rebuilt (filter (λ c. not (only_rebuilt c)) cs) ≡ false
any-filter-not [] = refl
any-filter-not (c ∷ cs) = elim (Bool-cases (only_rebuilt c)) [
  | inl e ↦ rw e (any-filter-not cs)
  | inr e ↦ rw (e, e) (any-filter-not cs)
]

changes_of-non_empty : (cs : List ColumnChange) → changes_of (non_empty cs) ≡ cs
changes_of-non_empty [] = refl
changes_of-non_empty (c ∷ cs) = refl

-- What is left of a diff without its rebuild needs none.
pub needs_rebuild-without_rebuild : (d : SchemaDiff) → needs_rebuild (without_rebuild d) ≡ false
unfolding needs_rebuild without_rebuild
needs_rebuild-without_rebuild d =
    rw (changes_of-non_empty (filter (λ c. not (only_rebuilt c)) (changes_of d.columns)))
      (any-filter-not (changes_of d.columns))

added-restored :
    (unfillable : List ColumnSchema) (from to : Option ColumnSchema)
    → All (Covered unfillable) (added_by to from)
    → All (λ x. lacks_value x ≡ false) (added_by to (restored unfillable from))
added-restored unfillable none none h = tt
added-restored unfillable none (some c) h = tt
added-restored unfillable (some c) none h = restored-fillable unfillable c h.0
added-restored unfillable (some c) (some e) h = tt

added-restore_column :
    (unfillable : List ColumnSchema) (cs : List ColumnChange)
    → All (Covered unfillable) (dropped (map change_of cs))
    → All
        (λ x. lacks_value x ≡ false)
        (added (map change_of (map (restore_column unfillable) (map swap_column cs))))
unfolding dropped added flat_map
added-restore_column unfillable [] h = tt
added-restore_column unfillable (c ∷ cs) h =
    let (here, later) = All-take (Covered unfillable) (added_by c.to c.from) _ h in
    All-append (λ x. lacks_value x ≡ false) (added_by c.to (restored unfillable c.from)) _
      (added-restored unfillable c.from c.to here) (added-restore_column unfillable cs later)

changes_of-restored :
    (f : ColumnChange → ColumnChange) (o : Option (List ColumnChange))
    → changes_of (Option.map (map f) (Option.map (map swap_column) o))
      ≡ map f (map swap_column (changes_of o))
changes_of-restored f none = refl
changes_of-restored f (some cs) = refl

-- A rollback of a diff that rebuilds no table adds no column that the rows there hold nothing for.
pub rollback_diff-fillable :
    (d : SchemaDiff)
    → d.rebuild ≡ none
    → All
        (λ x. lacks_value x ≡ false)
        (added (map change_of (changes_of (rollback_diff d).columns)))
unfolding rollback_diff reverse_diff unfillable_restores Covered
rollback_diff-fillable d e =
    let columns = dropped (map change_of (changes_of d.columns)) in
    let u : unfillable_restores d ≡ filter lacks_value columns = rw e refl in
    subst (λ cs. All (λ x. lacks_value x ≡ false) (added (map change_of cs)))
      (sym (changes_of-restored (restore_column (unfillable_restores d)) d.columns))
      (added-restore_column (unfillable_restores d) (changes_of d.columns)
        (subst (λ l. All (Covered l) columns) (sym u) (is_among-filter lacks_value columns)))
