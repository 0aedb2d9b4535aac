-- ===== src/Querier/ScopeTests.antt =====
-- Transactions at a concrete engine, for packages/orm/src/querier/abstractQuerier.ts.
use uql.Base.{
  Bool-cases, ℕ, false, Option, none, some, List, [], ◌∷◌, ◌++◌, ◌≡◌, refl, inl, inr, ◌==◌, nat_eq,
  if◌then◌else◌, length,
}
use uql.Text.{Text, text_eq}
use uql.Result.{Result, ok, err, foreign, usage}
use uql.Querier.Scope.{
  Engine, SavepointCommand, open_savepoint, release_savepoint, rollback_savepoint, Callback,
  returns, throws, sends, on_commit, nests, Session, transaction, open_slot, close_slot,
  run_callback, run_callbacks,
}
use uql.Querier.Scope.Laws.{
  Work, live, aborted, Mark, marks_without, newest, View, Laws, Sent, Committed, Opened, Released,
  RolledBackTo, stored_after, Begun,
}
use uql.Querier.Scope.Operations.{
  begins, commits, registers, transacts, after_operations, begin_transaction, commit_transaction,
  register, release,
}
use uql.Querier.Scope.Atomic.{transaction-AllOrNothing, AllOrNothing}
use uql.Querier.Scope.Steady.{after_operations-Steady, Steady}

-- An engine of a list of numbers: to send one adds it, and answers how many were there; 0 is refused,
-- and aborts the transaction. A savepoint of the same name is replaced.
data ListEngine : Type 0 where
  list_engine : List ℕ → Work (List ℕ) → List (Mark (List ℕ)) → ListEngine

abbrev list_send : ℕ → ListEngine → Result ℕ × ListEngine
list_send n (list_engine s aborted ms) = (err foreign, list_engine s aborted ms)
list_send n (list_engine s (live db) ms) =
    if n == 0
    then (err foreign, list_engine s aborted ms)
    else (ok (length db), list_engine s (live (db ++ n ∷ [])) ms)

abbrev list_begin : ListEngine → Result (Unit {0}) × ListEngine
list_begin (list_engine s w ms) = (ok tt, list_engine s (live s) [])

abbrev list_commit : ListEngine → Result (Unit {0}) × ListEngine
list_commit (list_engine s w ms) = (ok tt, list_engine (stored_after s w) aborted [])

abbrev list_rollback : ListEngine → Result (Unit {0}) × ListEngine
list_rollback (list_engine s w ms) = (ok tt, list_engine s aborted [])

abbrev list_release :
    List ℕ
    → Work (List ℕ)
    → Option (Work (List ℕ) × List (Mark (List ℕ)))
    → List (Mark (List ℕ))
    → Result (Unit {0}) × ListEngine
list_release s w none ms = (err foreign, list_engine s w ms)
list_release s w (some (x, after)) ms = (ok tt, list_engine s w after)

abbrev list_return :
    Text
    → List ℕ
    → Work (List ℕ)
    → Option (Work (List ℕ) × List (Mark (List ℕ)))
    → List (Mark (List ℕ))
    → Result (Unit {0}) × ListEngine
list_return name s w none ms = (err foreign, list_engine s w ms)
list_return name s w (some (x, after)) ms = (ok tt, list_engine s x ((name, x) ∷ after))

abbrev list_savepoint : SavepointCommand → Text → ListEngine → Result (Unit {0}) × ListEngine
list_savepoint open_savepoint name (list_engine s w ms) =
    (ok tt, list_engine s w ((name, w) ∷ marks_without name ms))
list_savepoint release_savepoint name (list_engine s w ms) = list_release s w (newest name ms) ms
list_savepoint rollback_savepoint name (list_engine s w ms) =
    list_return name s w (newest name ms) ms

abbrev list_on : Engine ListEngine ℕ ℕ
list_on = record {
  send = list_send;
  begin = list_begin;
  commit = list_commit;
  rollback = list_rollback;
  savepoint = list_savepoint;
  number_text = λ n. n ∷ [];
}

abbrev list_stored : ListEngine → List ℕ
list_stored (list_engine s w ms) = s

abbrev list_work : ListEngine → Work (List ℕ)
list_work (list_engine s w ms) = w

abbrev list_marks : ListEngine → List (Mark (List ℕ))
list_marks (list_engine s w ms) = ms

abbrev list_view : View ListEngine ℕ ℕ (List ℕ)
list_view = record {
  stored = list_stored;
  work = list_work;
  marks = list_marks;
  effect = λ n db. db ++ n ∷ [];
  answer = λ n db. length db;
}

list-Sent : (n : ℕ) (c : ListEngine) → Sent list_view c n (list_send n c)
list-Sent n (list_engine s aborted ms) = (inl refl, refl, refl)
list-Sent n (list_engine s (live db) ms) = elim (Bool-cases (n == 0)) [
  | inl e ↦ rw e (inr refl, refl, refl)
  | inr e ↦ rw e (db, refl, refl, refl, refl, refl)
]

list-Begun : (c : ListEngine) → Begun list_view c (list_begin c)
list-Begun (list_engine s w ms) = (refl, refl, refl)

list-Committed : (c : ListEngine) → Committed list_view c (list_commit c)
list-Committed (list_engine s w ms) = refl

list_rollback_stored : (c : ListEngine) → list_stored (list_rollback c).1 ≡ list_stored c
list_rollback_stored (list_engine s w ms) = refl

list-Opened :
    (name : Text) (c : ListEngine) → Opened list_view c name (list_savepoint open_savepoint name c)
list-Opened name (list_engine s w ms) = (refl, inr refl, refl)

list-Released :
    (name : Text) (c : ListEngine) (w : Work (List ℕ)) (after : List (Mark (List ℕ)))
    → newest name (list_marks c) ≡ some (w, after)
    → Released list_view c name after (list_savepoint release_savepoint name c)
list-Released name (list_engine s v ms) w after e = rw e (refl, inr refl, refl)

list-RolledBackTo :
    (name : Text) (c : ListEngine) (w : Work (List ℕ)) (after : List (Mark (List ℕ)))
    → newest name (list_marks c) ≡ some (w, after)
    → RolledBackTo list_view c name w after (list_savepoint rollback_savepoint name c)
list-RolledBackTo name (list_engine s v ms) w after e = rw e (refl, refl, refl)

list-Laws : Laws ListEngine ℕ ℕ (List ℕ) list_on list_view
list-Laws = record {
  sent = list-Sent;
  begun = list-Begun;
  committed = list-Committed;
  rolled_back = list_rollback_stored;
  opened = list-Opened;
  released = list-Released;
  rolled_back_to = list-RolledBackTo;
  number_text_injective = λ m n h. cc;
}

-- The callback of a commit: all but 0 succeed.
abbrev hook : ℕ → Result (Unit {0})
hook n = if n == 0 then err foreign else ok tt

-- A transaction of 1; then a nested one of 2 that registers 7, is refused 0, and throws, which the outer
-- one catches; then another nested one of 3 that registers 8; then 9 is registered.
abbrev both_nested : Callback ℕ ℕ ℕ ℕ
both_nested = sends 1 (λ a.
    nests (sends 2 (λ b. on_commit 7 (sends 0 (λ c. throws usage))))
      (λ r. nests (sends 3 (λ b. on_commit 8 (returns 4))) (λ q. on_commit 9 (returns 5))))

abbrev unused : Session ListEngine ℕ
unused = record {
  engine = list_engine (6 ∷ []) aborted [];
  held = none;
  has_open_transaction = false;
  unusable = false;
  ran = [];
}

both_nested_run :
    transaction list_on hook both_nested unused
    ≡ (ok 5, record unused { engine = list_engine (6 ∷ 1 ∷ 3 ∷ []) aborted []; ran = 8 ∷ 9 ∷ [] })
unfolding transaction open_slot close_slot run_callback run_callbacks
both_nested_run = refl

-- A manual transaction, with a transaction nested in it.
manual_run :
    after_operations list_on hook
      (begins ∷ registers 5 ∷ transacts both_nested ∷ commits ∷ [])
      unused
    ≡ record unused { engine = list_engine (6 ∷ 1 ∷ 3 ∷ []) aborted []; ran = 5 ∷ 8 ∷ 9 ∷ [] }
unfolding after_operations begin_transaction register transaction open_slot close_slot run_callback
    run_callbacks commit_transaction
manual_run = refl

transaction-AllOrNothing_example :
    AllOrNothing list_on list_view hook both_nested unused
      (transaction list_on hook both_nested unused)
transaction-AllOrNothing_example =
    transaction-AllOrNothing list-Laws hook both_nested unused refl refl

after_operations-Steady_example :
    Steady (after_operations list_on hook (begins ∷ transacts both_nested ∷ []) unused)
    × ((release list_on
          (after_operations list_on hook (begins ∷ transacts both_nested ∷ []) unused)).0.held
        ≡ none)
    × ((release list_on (
          after_operations list_on hook
            (begins ∷ transacts both_nested ∷ [])
            unused)).0.has_open_transaction
        ≡ false)
after_operations-Steady_example =
    after_operations-Steady list_on hook (begins ∷ transacts both_nested ∷ []) unused refl refl
