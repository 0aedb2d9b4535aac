-- ===== src/Migrate/Migrator/Files.antt =====
-- The migration files of a folder, by name.
use uql.Base.{
  String, Bool, true, false, ◌||◌, List, [], ◌∷◌, ◌++◌, Option, none, some, ◌==◌, string_eq, filter,
  map, ◌≡◌, refl, ap, sym, ◌∙◌, Bool-cases, Option-cases, inl, inr, All, All-append, any-append,
  or_false, ==_iff, false_true, subst, if◌then◌else◌,
}
use uql.Result.{Error, usage, ok, err, ok_eq}
use uql.Migrate.Migrator.{is_recorded, get, add_files, migration_files}

abbrev pub names : List (String × String) → List String
names files = map (λ f. f.0) files

-- No name twice.
abbrev pub Distinct : List String → Type 0
Distinct [] = Unit
Distinct (n ∷ ns) = (is_recorded ns n ≡ false) × Distinct ns

differ_back : (a b : String) → (a == b) ≡ false → (b == a) ≡ false
differ_back a b h = elim (Bool-cases (b == a)) [
  | inl e ↦ false_true (sym ((==_iff a b).1 (sym ((==_iff b a).0 e))) ∙ h)
  | inr e ↦ e
]

neither_is : (a b : Bool) → a ≡ false → b ≡ false → (a || (b || false)) ≡ false
neither_is a b h k = rw (h, k) refl

Distinct-last :
    (ns : List String) (n : String)
    → Distinct ns
    → is_recorded ns n ≡ false
    → Distinct (ns ++ n ∷ [])
Distinct-last [] n d h = (refl, tt)
Distinct-last (m ∷ ms) n (a, d) h =
    let (e, rest) = or_false (m == n) (is_recorded ms n) h in
    (
      any-append (λ x. x == m) ms (n ∷ []) ∙ neither_is _ _ a (differ_back m n e),
      Distinct-last ms n d rest,
    )

get-none_step :
    {b : Bool} (a : Bool) (file : String) (later : Option String)
    → (if a then some file else later) ≡ none
    → (later ≡ none → b ≡ false)
    → (a || b) ≡ false
get-none_step true file later h f = cc
get-none_step false file later h f = f h

get-none :
    (files : List (String × String)) (n : String)
    → get files n ≡ none
    → is_recorded (names files) n ≡ false
get-none [] n h = refl
get-none ((m, file) ∷ files) n h = get-none_step (m == n) file (get files n) h (get-none files n)

map-last :
    (files : List (String × String)) (f : String × String)
    → names (files ++ f ∷ []) ≡ names files ++ f.0 ∷ []
map-last [] f = refl
map-last (g ∷ files) f = ap (λ l. g.0 ∷ l) (map-last files f)

err_ok : {A : Type 0} {B : Type 0} {e : Error} {x : A} → err e ≡ ok x → B
err_ok h = cc

add_files-Distinct :
    (base : String → String) (files : List (String × String)) (rest : List String)
    {out : List (String × String)}
    → Distinct (names files)
    → All (λ f. base f.1 ≡ f.0) files
    → add_files base files rest ≡ ok out
    → Distinct (names out) × All (λ f. base f.1 ≡ f.0) out
unfolding add_files
add_files-Distinct base files [] d a h = (
  subst (λ l. Distinct (names l)) (ok_eq h) d,
  subst (λ l. All (λ f. base f.1 ≡ f.0) l) (ok_eq h) a,
)
add_files-Distinct base files (file ∷ rest) d a h = elim (Option-cases (get files (base file))) [
  | inl e ↦
      add_files-Distinct base (files ++ (base file, file) ∷ []) rest
        (subst Distinct (sym (map-last files (base file, file)))
          (Distinct-last (names files) (base file) d (get-none files (base file) e)))
        (All-append (λ f. base f.1 ≡ f.0) files _ a (refl, tt)) (sym (rw (add_files, e) refl) ∙ h)
  | inr (other, e) ↦ err_ok {e = usage} (sym (rw (add_files, e) refl) ∙ h)
]

-- The files of a folder's migrations are each under the name that it has, and no two share one.
pub migration_files-Distinct :
    (is_migration : String → Bool) (base : String → String) (entries : List String)
    {files : List (String × String)}
    → migration_files is_migration base entries ≡ ok files
    → Distinct (names files) × All (λ f. base f.1 ≡ f.0) files
unfolding migration_files
migration_files-Distinct is_migration base entries h =
    add_files-Distinct base [] (filter is_migration entries) tt tt h
