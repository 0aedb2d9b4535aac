-- ===== src/Migrate/Migrator/Runs.antt =====
-- What a run leaves in the schema and the journal, however it ends.
use uql.Base.{
  String, Bool, true, false, not, List, [], ◌∷◌, ◌++◌, if◌then◌else◌, ◌==◌, string_eq, filter, map,
  ◌≡◌, ◌⊎◌, refl, ap, sym, subst, Bool-cases, inl, inr,
}
use uql.Result.{Error, Result, ok, err, foreign, ◌>>=◌}
use uql.Migrate.Migrator.{
  RunDirection, up, down, Migration, MigrationSession, Database, RunOptions, MigrationResult,
  is_recorded, log, unlog, then_record, work, run_migration, also, run_each, narrow_to, narrow_step,
  load_each, run_loaded, run_in_order, names_of, migrate,
}

-- What a session's transaction promises: it ends as its work does, or fails and leaves the database
-- as it was. Work may fail in one that keeps what it did, and a transaction whose work ended may fail.
pub record TransactionLaws {S : Type 0} (session : MigrationSession S) : Type 0 where
  pub ends :
      (w : Database S → Database S × Bool) (d : Database S)
      → (session.transaction w d ≡ w d) ⊎ (session.transaction w d ≡ (d, false))

-- The journal once a migration has run.
abbrev pub recorded : RunDirection → String → List String → List String
recorded up name journal = journal ++ name ∷ []
recorded down name journal = filter (λ n. not (n == name)) journal

module _ {S : Type 0} where
  -- What a migration's own function does to the schema.
  abbrev pub effect : RunDirection → Migration S → S → S × Bool
  effect up m s = m.definition.up s
  effect down m s = m.definition.down s

  -- The database once a migration has run, and once each of some has, in order.
  abbrev pub applied : RunDirection → Migration S → Database S → Database S
  applied direction m d = record {
    schema = (effect direction m d.schema).0;
    journal = recorded direction m.name d.journal;
  }

  abbrev pub applied_each : RunDirection → List (Migration S) → Database S → Database S
  applied_each direction [] d = d
  applied_each direction (m ∷ ms) d = applied_each direction ms (applied direction m d)

  -- Whether the function of each migration ended, on what the ones before it left.
  abbrev pub EndedEach : RunDirection → List (Migration S) → Database S → Type 0
  EndedEach direction [] d = Unit
  EndedEach direction (m ∷ ms) d =
      ((effect direction m d.schema).1 ≡ true) × EndedEach direction ms (applied direction m d)

  -- What a migration that failed leaves: the journal as it was, and the schema too or as the
  -- migration's function left it.
  abbrev pub LeftBy : RunDirection → Migration S → Database S → Database S → Type 0
  LeftBy direction m d after =
      (after.journal ≡ d.journal)
      × ((after.schema ≡ d.schema) ⊎ (after.schema ≡ (effect direction m d.schema).0))

  abbrev pub result_of : RunDirection → Migration S → MigrationResult
  result_of direction m = record { name = m.name; direction = direction }

  abbrev pub Ran : RunDirection → Migration S → Database S → Database S × Bool → Type 0
  Ran direction m d r =
      ((r.1 ≡ true) × ((effect direction m d.schema).1 ≡ true) × (r.0 ≡ applied direction m d))
      ⊎ ((r.1 ≡ false) × LeftBy direction m d r.0)

  -- Every migration ended, in order; or those before one that failed did.
  abbrev pub Applied :
      RunDirection
      → List (Migration S)
      → Database S
      → Database S × Result (List MigrationResult)
      → Type 0
  Applied direction ms d out =
      (EndedEach direction ms d
        × (out ≡ (applied_each direction ms d, ok (map (result_of direction) ms))))
      ⊎ ((done : List (Migration S)) × (failed : Migration S) × (rest : List (Migration S)) × (ms
            ≡ done ++ failed ∷ rest)
          × EndedEach direction done d
          × LeftBy direction failed (applied_each direction done d) out.0
          × (out.1 ≡ err foreign))

  log-Ran :
      (m : Migration S) (d : Database S) (s : S)
      → m.definition.up d.schema ≡ (s, true)
      → Ran up m d (log m.name (record d { schema = s }))
  log-Ran m d s e = elim (Bool-cases (is_recorded d.journal m.name)) [
    | inl a ↦ rw a (inr (refl, (refl, inr (sym (ap (λ r. r.0) e)))))
    | inr a ↦
        let (ended, left) : (((effect up m d.schema).1 ≡ true) × (s ≡ (effect up m d.schema).0)) =
          (ap (λ r. r.1) e, sym (ap (λ r. r.0) e)) in
        rw a (
          inl
            (refl, ended, ap (λ t. record { schema = t; journal = d.journal ++ m.name ∷ [] }) left))
  ]

  then_record-up :
      (m : Migration S) (d : Database S) (r : S × Bool)
      → m.definition.up d.schema ≡ r
      → Ran up m d (then_record (log m.name) d r)
  then_record-up m d (s, true) e = log-Ran m d s e
  then_record-up m d (s, false) e = inr (refl, (refl, inr (sym (ap (λ r. r.0) e))))

  then_record-down :
      (m : Migration S) (d : Database S) (r : S × Bool)
      → m.definition.down d.schema ≡ r
      → Ran down m d (then_record (unlog m.name) d r)
  then_record-down m d (s, true) e = inl (
    refl,
    ap (λ r. r.1) e,
    ap (λ t. record { schema = t; journal = recorded down m.name d.journal })
        (sym (ap (λ r. r.0) e)),
  )
  then_record-down m d (s, false) e = inr (refl, (refl, inr (sym (ap (λ r. r.0) e))))

  work-Ran :
      (direction : RunDirection) (m : Migration S) (d : Database S)
      → Ran direction m d (work direction m d)
  work-Ran up m d = then_record-up m d (m.definition.up d.schema) refl
  work-Ran down m d = then_record-down m d (m.definition.down d.schema) refl

pub either_way :
    {A : Type 0} (P : A → Type 0) (b : Bool) (x y : A) → P x → P y → P (if b then x else y)
either_way P true x y p q = p
either_way P false x y p q = q

module _ {S : Type 0} where
  also-Applied :
      (direction : RunDirection) (m : Migration S) (ms : List (Migration S)) (d : Database S)
      (later : Database S × Result (List MigrationResult))
      → (effect direction m d.schema).1 ≡ true
      → Applied direction ms (applied direction m d) later
      → Applied direction (m ∷ ms) d (also (result_of direction m) later)
  also-Applied direction m ms d later h (inl (ends, e)) =
      inl ((h, ends), ap (also (result_of direction m)) e)
  also-Applied direction m ms d (e, ok rs) h (inr (done, failed, rest, split, ends, left, r)) = cc
  also-Applied direction m ms d (e, err x) h (inr (done, failed, rest, split, ends, left, r)) =
      inr (m ∷ done, failed, rest, ap (λ l. m ∷ l) split, (h, ends), left, r)

  step-Applied :
      (direction : RunDirection) (m : Migration S) (ms : List (Migration S)) (d after : Database S)
      (ended : Bool) (later : Database S × Result (List MigrationResult))
      → Ran direction m d (after, ended)
      → Applied direction ms after later
      → Applied direction
          (m ∷ ms)
          d
          (if ended then also (result_of direction m) later else (after, err foreign))
  step-Applied direction m ms d after true later (inl (e, h, q)) a =
      also-Applied direction m ms d later h (subst (λ x. Applied direction ms x later) q a)
  step-Applied direction m ms d after false later (inl (e, h, q)) a = cc
  step-Applied direction m ms d after true later (inr (e, left)) a = cc
  step-Applied direction m ms d after false later (inr (e, left)) a =
      inr ([], m, ms, refl, tt, left, refl)

module _ {S : Type 0} (session : MigrationSession S) (laws : TransactionLaws session) where
  transaction-Ran :
      (direction : RunDirection) (m : Migration S) (d : Database S)
      → Ran direction m d (session.transaction (work direction m) d)
  transaction-Ran direction m d = elim (laws.ends (work direction m) d) [
    | inl t ↦ subst (Ran direction m d) (sym t) (work-Ran direction m d)
    | inr t ↦ subst (Ran direction m d) (sym t) (inr (refl, (refl, inl refl)))
  ]

  run_migration-Ran :
      (direction : RunDirection) (m : Migration S) (d : Database S)
      → Ran direction m d (run_migration session direction m d)
  unfolding run_migration
  run_migration-Ran direction m d =
      either_way (Ran direction m d) m.definition.transaction _ _ (transaction-Ran direction m d)
        (work-Ran direction m d)

  run_each-Applied :
      (direction : RunDirection) (ms : List (Migration S)) (d : Database S)
      → Applied direction ms d (run_each session direction ms d)
  unfolding run_each
  run_each-Applied direction [] d = inl (tt, refl)
  run_each-Applied direction (m ∷ ms) d =
      let r = run_migration session direction m d in
      step-Applied direction m ms d r.0 r.1 _ (run_migration-Ran direction m d)
        (run_each-Applied direction ms r.0)

  -- The migrations that a run selects and loads.
  abbrev pub selected :
      RunDirection → RunOptions → List (String × String) → Database S → Result (List (Migration S))
  selected direction options files d =
      narrow_to options.to (names_of session direction files d) >>= λ l.
      load_each session files (narrow_step options.step l)

  run_loaded-Applied :
      (direction : RunDirection) (d : Database S) (loaded : Result (List (Migration S)))
      → ((ms : List (Migration S)) × (loaded ≡ ok ms)
          × Applied direction ms d (run_loaded session direction loaded d))
        ⊎ ((e : Error) × (run_loaded session direction loaded d ≡ (d, err e)))
  run_loaded-Applied direction d (ok ms) = inl (ms, refl, run_each-Applied direction ms d)
  run_loaded-Applied direction d (err e) = inr (e, refl)

  -- In a session whose transaction ends as its work does, or fails and leaves the database as it was:
  -- a run fails and leaves the database as it is, or loads every migration that it selects. Then each
  -- of them ran, in order, on the schema that the one before it left, and the journal records each; or
  -- those before one that failed did, and that one left the journal as it was, and the schema too or as
  -- its own function left it.
  pub migrate-Applied :
      (direction : RunDirection) (options : RunOptions) (files : List (String × String))
      (d : Database S)
      → ((ms : List (Migration S)) × (selected direction options files d ≡ ok ms)
          × Applied direction ms d (migrate session direction options files d))
        ⊎ ((e : Error) × (migrate session direction options files d ≡ (d, err e)))
  unfolding migrate run_in_order
  migrate-Applied direction options files d =
      run_loaded-Applied direction d (selected direction options files d)
