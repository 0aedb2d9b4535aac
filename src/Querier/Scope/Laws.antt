-- ===== src/Querier/Scope/Laws.antt =====
-- What the savepoints of packages/orm/src/querier/abstractQuerier.ts rely on: how an engine keeps the
-- database that it stores, the one that a transaction works on, and the savepoints in it.
use uql.Base.{ℕ, Option, none, some, if◌then◌else◌, List, [], ◌∷◌, ◌≡◌, ◌⊎◌}
use uql.Text.{Text, text_eq}
use uql.Base.{◌==◌}
use uql.Result.{Result, ok, err}
use uql.Querier.Scope.{Engine, open_savepoint, release_savepoint, rollback_savepoint}

-- What a transaction works on: a database, or none, where its engine refuses all but the way back.
pub data Work (D : Type 0) : Type 0 where
  live : D → Work D
  aborted : Work D

-- What a command that failed leaves.
abbrev pub Kept : {D : Type 0} → Work D → Work D → Type 0
Kept w x = (x ≡ w) ⊎ (x ≡ aborted)

-- A commit of aborted work commits nothing.
abbrev pub stored_after : {D : Type 0} → D → Work D → D
stored_after stored (live d) = d
stored_after stored aborted = stored

-- A savepoint of an engine: its name, and the work when it was opened. The last opened is the first.
abbrev pub Mark : Type 0 → Type 0
Mark D = Text × Work D

module _ {D : Type 0} where
  abbrev pub marks_without : Text → List (Mark D) → List (Mark D)
  marks_without name [] = []
  marks_without name (m ∷ ms) =
      let rest = marks_without name ms in if m.0 == name then rest else m ∷ rest

  -- The work of the last opened of a name, and the savepoints before it.
  abbrev pub newest : Text → List (Mark D) → Option (Work D × List (Mark D))
  newest name [] = none
  newest name (m ∷ ms) = let rest = newest name ms in if m.0 == name then some (m.1, ms) else rest

-- How a state of the engine is seen, and what a statement does to a database and answers there.
pub record View (E Q A D : Type 0) : Type 0 where
  pub stored : E → D
  pub work : E → Work D
  pub marks : E → List (Mark D)
  pub effect : Q → D → D
  pub answer : Q → D → A

module _ {E Q A D : Type 0} (view : View E Q A D) (c : E) where
  abbrev pub Sent : Q → Result A × E → Type 0
  Sent q (ok a, d) =
      (db : D) × (view.work c ≡ live db)
      × (a ≡ view.answer q db)
      × (view.work d ≡ live (view.effect q db))
      × (view.marks d ≡ view.marks c)
      × (view.stored d ≡ view.stored c)
  Sent q (err e, d) =
      Kept (view.work c) (view.work d)
      × (view.marks d ≡ view.marks c)
      × (view.stored d ≡ view.stored c)

  abbrev pub Begun : Result (Unit {0}) × E → Type 0
  Begun (ok done, d) =
      (view.work d ≡ live (view.stored c)) × (view.marks d ≡ []) × (view.stored d ≡ view.stored c)
  Begun (err e, d) = view.stored d ≡ view.stored c

  abbrev pub Committed : Result (Unit {0}) × E → Type 0
  Committed (ok done, d) = view.stored d ≡ stored_after (view.stored c) (view.work c)
  Committed (err e, d) = view.stored d ≡ view.stored c

  -- An engine keeps an older savepoint of the name, or replaces it.
  abbrev pub Opened : Text → Result (Unit {0}) × E → Type 0
  Opened name (ok done, d) =
      (view.work d ≡ view.work c)
      × ((view.marks d ≡ (name, view.work c) ∷ view.marks c)
          ⊎ (view.marks d ≡ (name, view.work c) ∷ marks_without name (view.marks c)))
      × (view.stored d ≡ view.stored c)
  Opened name (err e, d) =
      Kept (view.work c) (view.work d)
      × (view.marks d ≡ view.marks c)
      × (view.stored d ≡ view.stored c)

  -- An engine forgets what it releases, or has nothing to do.
  abbrev pub Released : Text → List (Mark D) → Result (Unit {0}) × E → Type 0
  Released name after (ok done, d) =
      (view.work d ≡ view.work c)
      × ((view.marks d ≡ view.marks c) ⊎ (view.marks d ≡ after))
      × (view.stored d ≡ view.stored c)
  Released name after (err e, d) =
      Kept (view.work c) (view.work d)
      × (view.marks d ≡ view.marks c)
      × (view.stored d ≡ view.stored c)

  abbrev pub RolledBackTo : Text → Work D → List (Mark D) → Result (Unit {0}) × E → Type 0
  RolledBackTo name w after (ok done, d) =
      (view.work d ≡ w) × (view.marks d ≡ (name, w) ∷ after) × (view.stored d ≡ view.stored c)
  RolledBackTo name w after (err e, d) =
      (view.work d ≡ aborted) × (view.marks d ≡ view.marks c) × (view.stored d ≡ view.stored c)

-- What an engine documents of its commands. A statement takes effect whole or not at all, and one that
-- fails may abort the transaction.
pub record Laws (E Q A D : Type 0) (on : Engine E Q A) (view : View E Q A D) : Type 0 where
  pub sent : (q : Q) (c : E) → Sent view c q (on.send q c)
  pub begun : (c : E) → Begun view c (on.begin c)
  pub committed : (c : E) → Committed view c (on.commit c)
  pub rolled_back : (c : E) → view.stored (on.rollback c).1 ≡ view.stored c
  pub opened : (name : Text) (c : E) → Opened view c name (on.savepoint open_savepoint name c)
  pub released :
      (name : Text) (c : E) (w : Work D) (after : List (Mark D))
      → newest name (view.marks c) ≡ some (w, after)
      → Released view c name after (on.savepoint release_savepoint name c)
  pub rolled_back_to :
      (name : Text) (c : E) (w : Work D) (after : List (Mark D))
      → newest name (view.marks c) ≡ some (w, after)
      → RolledBackTo view c name w after (on.savepoint rollback_savepoint name c)
  pub number_text_injective : (m n : ℕ) → on.number_text m ≡ on.number_text n → m ≡ n
