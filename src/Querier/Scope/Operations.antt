-- ===== src/Querier/Scope/Operations.antt =====
-- The manual transactions of packages/orm/src/querier/abstractQuerier.ts, and `onCommit` and `release`
-- outside a callback.
use uql.Base.{Bool, true, false, none, some, if◌then◌else◌, List, [], ◌∷◌, ◌++◌, is_some}
use uql.Result.{Result, ok, err, usage}
use uql.Querier.Scope.{Engine, Callback, Session, open_slot, close_slot, run_callbacks, transaction}

module _ {E Q A H : Type 0} (on : Engine E Q A) where
  unfoldable pub begin_transaction : Session E H → Result (Unit {0}) × Session E H
  begin_transaction s = if is_some s.held then (err usage, s) else open_slot on true s

  unfoldable pub rollback_transaction : Session E H → Result (Unit {0}) × Session E H
  rollback_transaction s = close_slot on false s

  -- `release`, with no stream open, and whether the connection is discarded; an error of the rollback is
  -- only logged.
  unfoldable pub release : Session E H → Session E H × Bool
  release s = let after = (close_slot on false s).1 in (after, after.unusable)

module _ {E H : Type 0} (run_hook : H → Result (Unit {0})) where
  -- `onCommit`, called outside a callback.
  unfoldable pub register : H → Session E H → Result (Unit {0}) × Session E H
  register h s = elim s.held [
    | none ↦ run_callbacks run_hook (h ∷ []) s
    | some k ↦ (ok tt, record s { held = some (record k { registered = k.registered ++ h ∷ [] }) })
  ]

module _ {E Q A H : Type 0} (on : Engine E Q A) (run_hook : H → Result (Unit {0})) where
  abbrev pub committed_manually :
      List H → Result (Unit {0}) × Session E H → Result (Unit {0}) × Session E H
  committed_manually own (ok done, s) = run_callbacks run_hook own s
  committed_manually own (err e, s) = (err e, s)

  unfoldable pub commit_transaction : Session E H → Result (Unit {0}) × Session E H
  commit_transaction s = elim s.held [
    | none ↦ (err usage, s)
    | some h ↦
        if h.manual then committed_manually h.registered (close_slot on true s) else (err usage, s)
  ]

-- What a querier is asked for, outside a callback.
pub data Operation (Q A V H : Type 0) : Type 0 where
  begins commits rolls_back releases : Operation Q A V H
  registers : H → Operation Q A V H
  transacts : Callback Q A V H → Operation Q A V H

module _ {E Q A V H : Type 0} (on : Engine E Q A) (run_hook : H → Result (Unit {0})) where
  abbrev pub after_operation : Operation Q A V H → Session E H → Session E H
  after_operation begins s = (begin_transaction on s).1
  after_operation commits s = (commit_transaction on run_hook s).1
  after_operation rolls_back s = (rollback_transaction on s).1
  after_operation releases s = (release on s).0
  after_operation (registers h) s = (register run_hook h s).1
  after_operation (transacts callback) s = (transaction on run_hook callback s).1

  unfoldable pub after_operations : List (Operation Q A V H) → Session E H → Session E H
  after_operations [] s = s
  after_operations (o ∷ os) s = after_operations os (after_operation o s)
