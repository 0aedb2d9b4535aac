-- ===== src/Querier/Scope.antt =====
-- `transaction` of packages/orm/src/querier/abstractQuerier.ts, with the savepoints of those nested in
-- it and their `onCommit` callbacks, and the manual transactions of a querier. One flow has the
-- connection, so nothing is waited for.
pub mod Laws
pub mod Effects
pub mod Anchors
pub mod Nested
pub mod Body
pub mod Hooks
pub mod Atomic
pub mod Operations
pub mod Steady
use uql.Base.{
  ℕ, suc, ◌+◌, Bool, true, false, Option, none, some, if◌then◌else◌, List, [], ◌∷◌, ◌++◌, is_some,
}
use uql.Text.{Text, codes}
use uql.Result.{Result, Error, ok, err, usage}

pub data SavepointCommand : Type 0 where
  open_savepoint release_savepoint rollback_savepoint : SavepointCommand

-- The driver and its engine, whose state is `E`: a statement `Q` with its answer `A`, the commands that
-- begin and end a transaction, and those of a savepoint. `number_text` is the platform's `String`.
pub record Engine (E Q A : Type 0) : Type 0 where
  pub send : Q → E → Result A × E
  pub begin : E → Result (Unit {0}) × E
  pub commit : E → Result (Unit {0}) × E
  pub rollback : E → Result (Unit {0}) × E
  pub savepoint : SavepointCommand → Text → E → Result (Unit {0}) × E
  pub number_text : ℕ → Text

-- What the callback of a transaction does: it sends statements, registers what to run at the commit,
-- and nests transactions, each time going on by what it got, until it returns or throws.
pub data Callback (Q A V H : Type 0) : Type 0 where
  returns : V → Callback Q A V H
  throws : Error → Callback Q A V H
  sends : Q → (Result A → Callback Q A V H) → Callback Q A V H
  on_commit : H → Callback Q A V H → Callback Q A V H
  nests : Callback Q A V H → (Result V → Callback Q A V H) → Callback Q A V H

-- What the slot of a connection holds: a transaction that `manual` says to have no callback, and what
-- was registered in its scope outside one.
pub record Held (H : Type 0) : Type 0 where
  pub manual : Bool
  pub registered : List H

-- A querier: its engine, what the slot of its connection holds, its `hasOpenTransaction`, whether its
-- connection is unusable, and the callbacks that ran so far.
pub record Session (E H : Type 0) : Type 0 where
  pub engine : E
  pub held : Option (Held H)
  pub has_open_transaction : Bool
  pub unusable : Bool
  pub ran : List H

abbrev pub is_err {ℓ} : {T : Type ℓ} → Result T → Bool
is_err (ok x) = false
is_err (err e) = true

module _ {E Q A : Type 0} (on : Engine E Q A) where
  abbrev pub savepoint_name : ℕ → Text
  savepoint_name depth = codes "_uql_sp" ++ on.number_text depth

module _ {E Q A V H : Type 0} (on : Engine E Q A) where
  -- `savepointed`, once the callback ended: what it registered is the parent's where it succeeded. A
  -- rollback that fails throws its own error.
  abbrev pub undone : List H → Error → Result (Unit {0}) × E → Result V × List H × E
  undone parent e (ok done, c) = (err e, parent, c)
  undone parent e (err f, c) = (err f, parent, c)

  abbrev pub back_to_savepoint : Text → List H → Error → E → Result V × List H × E
  back_to_savepoint name parent e c = undone parent e (on.savepoint rollback_savepoint name c)

  abbrev pub kept_or : Text → List H → List H → V → Result (Unit {0}) × E → Result V × List H × E
  kept_or name parent own v (ok done, c) = (ok v, parent ++ own, c)
  kept_or name parent own v (err e, c) = back_to_savepoint name parent e c

  abbrev pub closed_savepoint : Text → List H → Result V × List H × E → Result V × List H × E
  closed_savepoint name parent (ok v, own, c) =
      kept_or name parent own v (on.savepoint release_savepoint name c)
  closed_savepoint name parent (err e, own, c) = back_to_savepoint name parent e c

  abbrev pub in_savepoint :
      Text → List H → (E → Result V × List H × E) → Result (Unit {0}) × E → Result V × List H × E
  in_savepoint name parent callback (ok done, c) = closed_savepoint name parent (callback c)
  in_savepoint name parent callback (err e, c) = (err e, parent, c)

  abbrev pub savepointed : Text → List H → (E → Result V × List H × E) → E → Result V × List H × E
  savepointed name parent callback c =
      in_savepoint name parent callback (on.savepoint open_savepoint name c)

  -- A callback in the scope of a transaction, at its depth, with what it registered so far.
  unfoldable pub run_callback : Callback Q A V H → (depth : ℕ) → List H → E → Result V × List H × E
  run_callback (returns v) depth own c = (ok v, own, c)
  run_callback (throws e) depth own c = (err e, own, c)
  run_callback (sends q next) depth own c =
      let r = on.send q c in run_callback (next r.0) depth own r.1
  run_callback (on_commit h next) depth own c = run_callback next depth (own ++ h ∷ []) c
  run_callback (nests inner next) depth own c =
      let name = savepoint_name on (suc depth) in
      let r = savepointed name own (λ d. run_callback inner (suc depth) [] d) c in
      run_callback (next r.0) depth r.1 r.2

module _ {E Q A H : Type 0} (on : Engine E Q A) where
  -- `open`, and `openTransaction` of packages/orm/src/querier/abstractSqlQuerier.ts.
  abbrev pub slot_opened :
      Bool → Session E H → Result (Unit {0}) × E → Result (Unit {0}) × Session E H
  slot_opened manual s (ok done, c) = (
    ok tt,
    record s {
      engine = c;
      held = some (record { registered = []; manual = manual });
      has_open_transaction = true;
    },
  )
  slot_opened manual s (err e, c) = (err e, record s { engine = c; held = none })

  unfoldable pub open_slot : Bool → Session E H → Result (Unit {0}) × Session E H
  open_slot manual s = slot_opened manual s (on.begin s.engine)

  -- `endTransaction` of the same file, in the `try` of `end`: a commit that fails leaves the transaction
  -- open, a rollback always ends it.
  abbrev pub engine_ended :
      Bool → Session E H → Result (Unit {0}) × E → Result (Unit {0}) × Session E H
  engine_ended true s (ok done, c) = (ok tt, record s { engine = c; has_open_transaction = false })
  engine_ended true s (err e, c) = (err e, record s { engine = c })
  engine_ended false s (ok done, c) = (ok tt, record s { engine = c; has_open_transaction = false })
  engine_ended false s (err e, c) =
      (err e, record s { engine = c; has_open_transaction = false; unusable = true })

  abbrev pub end_transaction : Bool → Session E H → Result (Unit {0}) × Session E H
  end_transaction commit s =
      if s.has_open_transaction
      then engine_ended commit s (if commit then on.commit s.engine else on.rollback s.engine)
      else (ok tt, s)

  -- The `finally` of `end`.
  abbrev pub freed : Result (Unit {0}) × Session E H → Result (Unit {0}) × Session E H
  freed (r, s) = (r, record s { held = if s.has_open_transaction then s.held else none })

  unfoldable pub close_slot : Bool → Session E H → Result (Unit {0}) × Session E H
  close_slot commit s = elim s.held [
    | some h ↦ freed (end_transaction commit s)
    | none ↦ ((if commit then err usage else ok tt), s)
  ]

module _ {E H : Type 0} (run_hook : H → Result (Unit {0})) where
  -- `runCallbacks`: one that throws is the last that runs.
  unfoldable pub run_callbacks : List H → Session E H → Result (Unit {0}) × Session E H
  run_callbacks [] s = (ok tt, s)
  run_callbacks (h ∷ hs) s =
      let after = record s { ran = s.ran ++ h ∷ [] } in
      let rest = run_callbacks hs after in if is_err (run_hook h) then (run_hook h, after) else rest

module _ {E V H : Type 0} where
  -- The end of `transaction`: after the commit, what was registered runs.
  abbrev pub answered : V → Result (Unit {0}) × Session E H → Result V × Session E H
  answered v (ok done, s) = (ok v, s)
  answered v (err e, s) = (err e, s)

module _ {E Q A V H : Type 0} (on : Engine E Q A) (run_hook : H → Result (Unit {0})) where
  -- A rollback's own error is only logged.
  abbrev pub unwound : Error → Session E H → Result V × Session E H
  unwound e s = (err e, (close_slot on false s).1)

  abbrev pub after_commit : V → List H → Result (Unit {0}) × Session E H → Result V × Session E H
  after_commit v own (ok done, s) = answered v (run_callbacks run_hook own s)
  after_commit v own (err e, s) = unwound e s

  abbrev pub settled : Session E H → Result V × List H × E → Result V × Session E H
  settled s (ok v, own, c) = after_commit v own (close_slot on true (record s { engine = c }))
  settled s (err e, own, c) = unwound e (record s { engine = c })

  abbrev pub outermost : Callback Q A V H → Result (Unit {0}) × Session E H → Result V × Session E H
  outermost callback (ok done, s) = settled s (run_callback on callback 0 [] s.engine)
  outermost callback (err e, s) = (err e, s)

  abbrev pub in_manual : Held H → Session E H → Result V × List H × E → Result V × Session E H
  in_manual h s (r, own, c) =
      (r, record s { engine = c; held = some (record h { registered = own }) })

  -- `transaction`, called outside a callback: with a manual transaction open it is nested in it.
  unfoldable pub transaction : Callback Q A V H → Session E H → Result V × Session E H
  transaction callback s = elim s.held [
    | none ↦ outermost callback (open_slot on false s)
    | some h ↦ in_manual h s (
        savepointed on (savepoint_name on 1) h.registered (λ c. run_callback on callback 1 [] c)
          s.engine)
  ]
