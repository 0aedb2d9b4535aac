-- ===== src/Querier/Scope/Steady.antt =====
-- The slot of a connection and the flag of its transaction, through what a querier of
-- packages/orm/src/querier/abstractQuerier.ts is asked for, whatever its engine answers.
use uql.Base.{Bool-cases, true, false, none, some, List, [], ◌∷◌, ◌++◌, ◌≡◌, inl, inr, refl}
use uql.Result.{Result, ok, err}
use uql.Querier.Scope.{
  Engine, Callback, Session, Held, is_err, run_callback, run_callbacks, open_slot, slot_opened,
  engine_ended, freed, close_slot, answered, after_commit, settled, outermost, transaction,
}
use uql.Querier.Scope.Operations.{
  begin_transaction, committed_manually, commit_transaction, rollback_transaction, register,
  release, Operation, begins, commits, rolls_back, releases, registers, transacts, after_operation,
  after_operations,
}

module _ {E H : Type 0} where
  -- Nothing holds the slot and no transaction is open, or a manual one holds it and is open.
  pub data Steady : Session E H → Type 0 where
    idle : {s : Session E H} → s.held ≡ none → s.has_open_transaction ≡ false → Steady s
    manual :
        {s : Session E H}
        → (k : Held H) → s.held ≡ some k
        → k.manual ≡ true
        → s.has_open_transaction ≡ true
        → Steady s

  abbrev Idle : Session E H → Type 0
  Idle s = (s.held ≡ none) × (s.has_open_transaction ≡ false)

  -- A querier in a transaction.
  abbrev pub inside : Session E H → Held H → E → Session E H
  inside s k c = record s { engine = c; held = some k; has_open_transaction = true }

  ran_Steady : (s : Session E H) (l : List H) → Steady s → Steady (record s { ran = l })
  ran_Steady s l (idle e f) = idle e f
  ran_Steady s l (manual k e m f) = manual k e m f

module _ {E H : Type 0} (run_hook : H → Result (Unit {0})) where
  run_callbacks-Steady :
      (hs : List H) (s : Session E H) → Steady s → Steady (run_callbacks run_hook hs s).1
  unfolding run_callbacks
  run_callbacks-Steady [] s st = st
  run_callbacks-Steady (h ∷ hs) s st =
      let after = ran_Steady s (s.ran ++ h ∷ []) st in
      elim (Bool-cases (is_err (run_hook h))) [
        | inl e ↦ rw e after
        | inr e ↦ rw e (run_callbacks-Steady hs (record s { ran = s.ran ++ h ∷ [] }) after)
      ]

module _ {E Q A H : Type 0} (on : Engine E Q A) where
  rolled_back-Idle :
      (s : Session E H) (r : Result (Unit {0}) × E) → Idle (freed on (engine_ended on false s r)).1
  rolled_back-Idle s (ok done, c) = (refl, refl)
  rolled_back-Idle s (err e, c) = (refl, refl)

  close_slot-Idle : (s : Session E H) → Steady s → Idle (close_slot on false s).1
  unfolding close_slot
  close_slot-Idle s (idle h o) = rw h (refl, o)
  close_slot-Idle s (manual k h m o) =
      rw (h, o) (rolled_back-Idle (inside s k s.engine) (on.rollback s.engine))

  closed-Steady :
      (s : Session E H) (k : Held H) (r : Result (Unit {0}) × E)
      → k.manual ≡ true
      → Steady (freed on (engine_ended on true (inside s k s.engine) r)).1
  closed-Steady s k (ok done, c) m = idle refl refl
  closed-Steady s k (err e, c) m = manual k refl m refl

  slot_opened-Steady :
      (s : Session E H) (r : Result (Unit {0}) × E)
      → s.has_open_transaction ≡ false
      → Steady (slot_opened on true s r).1
  slot_opened-Steady s (ok done, c) o =
      manual (record { registered = []; manual = true }) refl refl refl
  slot_opened-Steady s (err e, c) o = idle refl o

  begin_transaction-Steady : (s : Session E H) → Steady s → Steady (begin_transaction on s).1
  unfolding begin_transaction open_slot
  begin_transaction-Steady s (idle h o) =
      rw h (slot_opened-Steady (record s { held = none }) (on.begin s.engine) o)
  begin_transaction-Steady s (manual k h m o) = rw h (manual k refl m o)

module _ {E H : Type 0} (run_hook : H → Result (Unit {0})) where
  register-Steady : (h : H) (s : Session E H) → Steady s → Steady (register run_hook h s).1
  unfolding register
  register-Steady g s (idle h o) =
      rw h (run_callbacks-Steady run_hook (g ∷ []) (record s { held = none }) (idle refl o))
  register-Steady g s (manual k h m o) =
      rw h (manual (record k { registered = k.registered ++ g ∷ [] }) refl m o)

module _ {E Q A H : Type 0} (on : Engine E Q A) (run_hook : H → Result (Unit {0})) where
  committed_manually-Steady :
      (own : List H) (r : Result (Unit {0})) (s : Session E H)
      → Steady s
      → Steady (committed_manually on run_hook own (r, s)).1
  committed_manually-Steady own (ok done) s st = run_callbacks-Steady run_hook own s st
  committed_manually-Steady own (err e) s st = st

  commit_transaction-Steady :
      (s : Session E H) → Steady s → Steady (commit_transaction on run_hook s).1
  unfolding commit_transaction close_slot
  commit_transaction-Steady s (idle h o) = rw h (idle refl o)
  commit_transaction-Steady s (manual k h m o) =
      let j = record k { manual = true } in
      let r = freed on (engine_ended on true (inside s j s.engine) (on.commit s.engine)) in
      rw (h, o, m)
        (committed_manually-Steady k.registered r.0 r.1
          (closed-Steady on s j (on.commit s.engine) refl))

module _ {E Q A H : Type 0} (on : Engine E Q A) where
  unwound-Steady :
      (s : Session E H) (k : Held H) (c : E) → Steady (close_slot on false (inside s k c)).1
  unfolding close_slot
  unwound-Steady s k c = let (h, o) = rolled_back-Idle on (inside s k c) (on.rollback c) in idle h o

module _ {E Q A V H : Type 0} (on : Engine E Q A) (run_hook : H → Result (Unit {0})) where
  answered-Steady :
      (v : V) (p : Result (Unit {0}) × Session E H) → Steady p.1 → Steady (answered v p).1
  answered-Steady v (ok done, s) h = h
  answered-Steady v (err e, s) h = h

  after_commit-Steady :
      (s : Session E H) (k : Held H) (c : E) (v : V) (own : List H) (r : Result (Unit {0}) × E)
      → Steady (after_commit on run_hook v own (freed on (engine_ended on true (inside s k c) r))).1
  after_commit-Steady s k c v own (ok done, d) =
      let t = record s { engine = d; held = none; has_open_transaction = false } in
      answered-Steady v (run_callbacks run_hook own t)
        (run_callbacks-Steady run_hook own t (idle refl refl))
  after_commit-Steady s k c v own (err e, d) = unwound-Steady on s k d

  settled-Steady :
      (s : Session E H) (k : Held H) (c : E) (p : Result V × List H × E)
      → Steady (settled on run_hook (inside s k c) p).1
  unfolding close_slot
  settled-Steady s k c (ok v, own, d) = after_commit-Steady s k d v own (on.commit d)
  settled-Steady s k c (err e, own, d) = unwound-Steady on s k d

  outermost-Steady :
      (callback : Callback Q A V H) (s : Session E H) (r : Result (Unit {0}) × E)
      → s.has_open_transaction ≡ false
      → Steady (outermost on run_hook callback (slot_opened on false s r)).1
  outermost-Steady callback s (ok done, c) o =
      settled-Steady s (record { registered = []; manual = false }) c
        (run_callback on callback 0 [] c)
  outermost-Steady callback s (err e, c) o = idle refl o

  transaction-Steady :
      (callback : Callback Q A V H) (s : Session E H)
      → Steady s
      → Steady (transaction on run_hook callback s).1
  unfolding transaction open_slot
  transaction-Steady callback s (idle h o) =
      rw h (outermost-Steady callback (record s { held = none }) (on.begin s.engine) o)
  transaction-Steady callback s (manual k h m o) = rw h (manual _ refl m o)

  after_operation-Steady :
      (op : Operation Q A V H) (s : Session E H)
      → Steady s
      → Steady (after_operation on run_hook op s)
  unfolding rollback_transaction release
  after_operation-Steady begins s st = begin_transaction-Steady on s st
  after_operation-Steady commits s st = commit_transaction-Steady on run_hook s st
  after_operation-Steady rolls_back s st = let (h, o) = close_slot-Idle on s st in idle h o
  after_operation-Steady releases s st = let (h, o) = close_slot-Idle on s st in idle h o
  after_operation-Steady (registers h) s st = register-Steady run_hook h s st
  after_operation-Steady (transacts callback) s st = transaction-Steady callback s st

  all_operations-Steady :
      (os : List (Operation Q A V H)) (s : Session E H)
      → Steady s
      → Steady (after_operations on run_hook os s)
  unfolding after_operations
  all_operations-Steady [] s st = st
  all_operations-Steady (o ∷ os) s st =
      all_operations-Steady os (after_operation on run_hook o s) (after_operation-Steady o s st)

  -- Whatever a querier with no transaction is asked for, in whatever order, and whatever its engine answers:
  -- its flag of an open transaction is set exactly while the slot of the connection is held, a transaction
  -- that is left is a manual one, and releasing the querier then leaves none and frees the slot.
  pub after_operations-Steady :
      (os : List (Operation Q A V H)) (s : Session E H)
      → s.held ≡ none
      → s.has_open_transaction ≡ false
      → Steady (after_operations on run_hook os s)
        × ((release on (after_operations on run_hook os s)).0.held ≡ none)
        × ((release on (after_operations on run_hook os s)).0.has_open_transaction ≡ false)
  unfolding release
  after_operations-Steady os s h o =
      let st = all_operations-Steady os s (idle h o) in
      let (i, j) = close_slot-Idle on (after_operations on run_hook os s) st in (st, i, j)
