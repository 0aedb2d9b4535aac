-- ===== src/Migrate/Target.antt =====
-- packages/orm/src/migrate/migrationTarget.ts: the transaction that a session runs a migration in. A SQL
-- engine's own transaction and the statements that it answers are parameters.
use uql.Base.{
  String, Bool, true, false, Option, if◌then◌else◌, ◌≡◌, ◌⊎◌, refl, ap, ◌∙◌, inl, inr, Bool-cases,
}
use uql.Migrate.Migrator.{Database, MigrationDefinition, MigrationSession}
use uql.Migrate.Migrator.Runs.{TransactionLaws, either_way}

-- A querier of a SQL engine: whether a table is rebuilt there to be changed, as SQLite's is, whether
-- foreign keys are enforced on the connection, whether `PRAGMA foreign_key_check` finds every
-- reference of a database whole, and `transaction`.
pub record SqlQuerier (S : Type 0) : Type 0 where
  pub rebuilds_tables : Bool
  pub enforces : Database S → Bool
  pub is_whole : Database S → Bool
  pub transaction : (Database S → Database S × Bool) → Database S → Database S × Bool

-- What the engines promise: a transaction ends as its work does, or fails and leaves the database as
-- it was, which SQLite's does wherever its work fails.
pub record EngineLaws {S : Type 0} (querier : SqlQuerier S) : Type 0 where
  pub ends :
      (w : Database S → Database S × Bool) (d : Database S)
      → (querier.transaction w d ≡ w d) ⊎ (querier.transaction w d ≡ (d, false))
  pub rolls_back :
      querier.rebuilds_tables ≡ true
      → (w : Database S → Database S × Bool) (d : Database S) → (w d).1 ≡ false
      → querier.transaction w d ≡ (d, false)

module _ {S : Type 0} (querier : SqlQuerier S) where
  -- Work that ended fails where it leaves a reference to a missing row.
  abbrev pub checked_end : Database S × Bool → Database S × Bool
  checked_end (d, true) = (d, querier.is_whole d)
  checked_end (d, false) = (d, false)

  -- The switch of foreign keys is the connection's, and no part of the database.
  abbrev pub with_foreign_keys_off :
      (Database S → Database S × Bool) → Database S → Database S × Bool
  with_foreign_keys_off work d =
      if querier.enforces d
      then querier.transaction (λ e. checked_end (work e)) d
      else querier.transaction work d

  abbrev pub session_transaction : (Database S → Database S × Bool) → Database S → Database S × Bool
  session_transaction work d =
      if querier.rebuilds_tables then with_foreign_keys_off work d else querier.transaction work d

  abbrev pub sql_session :
      (String → String → Bool) → (String → Option (MigrationDefinition S)) → MigrationSession S
  sql_session leb imports = record {
    leb = leb;
    imports = imports;
    transaction = session_transaction;
  }

  -- Whether work ended and left every reference whole.
  abbrev pub EndsWhole : Database S × Bool → Type 0
  EndsWhole r = (r.1 ≡ true) × (querier.is_whole r.0 ≡ true)

  checked_end-split :
      (r : Database S × Bool) → (EndsWhole r × (checked_end r ≡ r)) ⊎ ((checked_end r).1 ≡ false)
  checked_end-split (d, true) = elim (Bool-cases (querier.is_whole d)) [
    | inl e ↦ inl ((refl, e), ap (λ b. (d, b)) e)
    | inr e ↦ inr e
  ]
  checked_end-split (d, false) = inr refl

  -- Whether a transaction ended as its work did, or failed and left the database as it was.
  abbrev Ends : (Database S → Database S × Bool) → Database S → Database S × Bool → Type 0
  Ends work d out = (out ≡ work d) ⊎ (out ≡ (d, false))

  module _ (laws : EngineLaws querier) where
    checked-Whole :
        (work : Database S → Database S × Bool) (d : Database S)
        → querier.rebuilds_tables ≡ true
        → (let out = querier.transaction (λ e. checked_end (work e)) d in
            (EndsWhole (work d) × (out ≡ work d)) ⊎ (out ≡ (d, false)))
    checked-Whole work d r = elim (laws.ends (λ e. checked_end (work e)) d) [
      | inr t ↦ inr t
      | inl t ↦ elim (checked_end-split (work d)) [
        | inl (whole, e) ↦ inl (whole, t ∙ e)
        | inr e ↦ inr (laws.rolls_back r (λ e. checked_end (work e)) d e)
      ]
    ]

    checked-Ends :
        (work : Database S → Database S × Bool) (d : Database S)
        → querier.rebuilds_tables ≡ true
        → Ends work d (querier.transaction (λ e. checked_end (work e)) d)
    checked-Ends work d r = elim (checked-Whole work d r) [ inl (whole, e) ↦ inl e | inr e ↦ inr e ]

    session_transaction-Ends :
        (rebuilds : Bool) (work : Database S → Database S × Bool) (d : Database S)
        → querier.rebuilds_tables ≡ rebuilds
        → Ends work d
            (if rebuilds then with_foreign_keys_off work d else querier.transaction work d)
    session_transaction-Ends true work d r =
        either_way (Ends work d) (querier.enforces d) _ _ (checked-Ends work d r) (laws.ends work d)
    session_transaction-Ends false work d r = laws.ends work d

    -- The session's transaction keeps the promise that the runs of migrations rely on.
    pub sql_session-TransactionLaws :
        (leb : String → String → Bool) (imports : String → Option (MigrationDefinition S))
        → TransactionLaws (sql_session leb imports)
    sql_session-TransactionLaws leb imports = record {
      ends = λ work d. session_transaction-Ends querier.rebuilds_tables work d refl;
    }

-- MongoDB's session, which has no transaction for a migration.
abbrev pub mongo_session :
    {S : Type 0}
    → (String → String → Bool)
    → (String → Option (MigrationDefinition S))
    → MigrationSession S
mongo_session leb imports = record { leb = leb; imports = imports; transaction = λ work d. work d }

pub mongo_session-TransactionLaws :
    {S : Type 0} (leb : String → String → Bool) (imports : String → Option (MigrationDefinition S))
    → TransactionLaws (mongo_session leb imports)
mongo_session-TransactionLaws leb imports = record { ends = λ work d. inl refl }
