-- ===== src/Querier/Scope/Atomic.antt =====
-- The outermost transaction of packages/orm/src/querier/abstractQuerier.ts: all of what its callback did
-- that stood, or nothing.
use uql.Base.{true, false, none, List, [], ◌≡◌, ◌⊎◌, inl, inr, refl, sym, ap, ◌∙◌, subst}
use uql.Result.{Result, Error, ok, err}
use uql.Querier.Scope.{
  Engine, Callback, Session, Held, freed, open_slot, slot_opened, engine_ended, close_slot,
  run_callback, answered, unwound, after_commit, settled, outermost, transaction,
}
use uql.Querier.Scope.Laws.{Work, live, stored_after, View, Laws, Begun, Committed}
use uql.Querier.Scope.Effects.{Does}
use uql.Querier.Scope.Anchors.{bare, Anchored}
use uql.Querier.Scope.Hooks.{RanHooks, Runs, all_run, stopped, run_callbacks-Runs}
use uql.Querier.Scope.Steady.{inside}
use uql.Querier.Scope.Nested.{Inside, Ran}
use uql.Querier.Scope.Body.{run_callback-Does}

module _ {E Q A D V H : Type 0} (on : Engine E Q A) (view : View E Q A D)
    (run_hook : H → Result (Unit {0})) where
  -- The transaction committed what its callback did, and what was registered ran then.
  abbrev pub Stood : Callback Q A V H → Session E H → Result V × Session E H → Type 0
  Stood callback s (r, t) =
      (v : V) × (x : Work D) × (hs : List H) × Does view callback (live (view.stored s.engine))
        (ok v) x hs
      × (view.stored t.engine ≡ stored_after (view.stored s.engine) x)
      × RanHooks run_hook v hs s.ran r t.ran

  -- The transaction threw the error of its callback, or one of its beginning or its commit.
  abbrev pub Threw : Callback Q A V H → Session E H → Error → Type 0
  Threw callback s e =
      ((x : Work D) × (hs : List H) × Does view callback (live (view.stored s.engine)) (err e) x hs)
      ⊎ (((c : E) × (on.begin s.engine ≡ (err e, c)))
          ⊎ ((c : E) × (d : E) × (on.commit c ≡ (err e, d))))

  abbrev pub Fell : Callback Q A V H → Session E H → Result V × Session E H → Type 0
  Fell callback s (r, t) =
      (e : Error) × (r ≡ err e)
      × Threw callback s e
      × (view.stored t.engine ≡ view.stored s.engine)
      × (t.ran ≡ s.ran)

  abbrev pub AllOrNothing : Callback Q A V H → Session E H → Result V × Session E H → Type 0
  AllOrNothing callback s (r, t) =
      (t.held ≡ none)
      × (t.has_open_transaction ≡ false)
      × (Stood callback s (r, t) ⊎ Fell callback s (r, t))

module _ {E Q A D V H : Type 0} {on : Engine E Q A} {view : View E Q A D}
    (laws : Laws E Q A D on view) (run_hook : H → Result (Unit {0})) where
  module _ (callback : Callback Q A V H) (s : Session E H) (k : Held H) where
    freed-Fell :
        (c : E) (e : Error) (r : Result (Unit {0}) × E)
        → Threw on view run_hook callback s e
        → view.stored r.1 ≡ view.stored s.engine
        → AllOrNothing on view run_hook callback s
            (err e, (freed on (engine_ended on false (inside s k c) r)).1)
    freed-Fell c e (ok done, d) threw same = (refl, refl, inr (e, refl, threw, same, refl))
    freed-Fell c e (err f, d) threw same = (refl, refl, inr (e, refl, threw, same, refl))

    unwound-Fell :
        (c : E) (e : Error)
        → Threw on view run_hook callback s e
        → view.stored c ≡ view.stored s.engine
        → AllOrNothing on view run_hook callback s (unwound on run_hook e (inside s k c))
    unfolding close_slot
    unwound-Fell c e threw same = freed-Fell c e (on.rollback c) threw (laws.rolled_back c ∙ same)

    answered-Stood :
        (v : V) (x : Work D) (hs : List H) (d : E) (p : Result (Unit {0}) × Session E H)
        → Does view callback (live (view.stored s.engine)) (ok v) x hs
        → view.stored d ≡ stored_after (view.stored s.engine) x
        → Runs run_hook (record s { engine = d; held = none; has_open_transaction = false }) hs p
        → AllOrNothing on view run_hook callback s (answered v p)
    answered-Stood v x hs d p does st (all_run k e) =
        rw e (refl, refl, inl (v, x, hs, does, st, inl (k, refl, refl)))
    answered-Stood v x hs d p does st (stopped before h rest e split k f g) =
        rw g
          (refl, refl, inl (v, x, hs, does, st, inr (before, h, rest, e, split, k, f, refl, refl)))

    after_commit-AllOrNothing :
        (v : V) (x : Work D) (hs : List H) (c : E) (r : Result (Unit {0}) × E)
        → on.commit c ≡ r
        → Does view callback (live (view.stored s.engine)) (ok v) x hs
        → Inside on view 0 [] (view.stored s.engine) x c
        → Committed view c r
        → AllOrNothing on view run_hook callback s
            (after_commit on run_hook v hs (freed on (engine_ended on true (inside s k c) r)))
    after_commit-AllOrNothing v x hs c (ok done, d) o does i st =
        answered-Stood v x hs d _ does
          (st ∙ ap (stored_after (view.stored c)) i.work ∙ ap (λ b. stored_after b x) i.stored)
          (run_callbacks-Runs run_hook hs
            (record s { engine = d; held = none; has_open_transaction = false }))
    after_commit-AllOrNothing v x hs c (err e, d) o does i st =
        unwound-Fell d e (inr (inr (c, d, o))) (st ∙ i.stored)

    settled-AllOrNothing :
        (c : E) (p : Result V × List H × E)
        → Ran laws callback 0 [] (view.stored s.engine) (live (view.stored s.engine)) [] p
        → AllOrNothing on view run_hook callback s (settled on run_hook (inside s k c) p)
    unfolding close_slot
    settled-AllOrNothing c (ok v, own, d) (x, hs, does, e, i) =
        rw e (after_commit-AllOrNothing v x hs d (on.commit d) refl does i (laws.committed d))
    settled-AllOrNothing c (err e, own, d) (x, hs, does, f, i) =
        unwound-Fell d e (inl (x, hs, does)) i.stored

  outermost-AllOrNothing :
      (callback : Callback Q A V H) (s : Session E H) (r : Result (Unit {0}) × E)
      → s.has_open_transaction ≡ false
      → on.begin s.engine ≡ r
      → Begun view s.engine r
      → AllOrNothing on view run_hook callback s
          (outermost on run_hook callback (slot_opened on false s r))
  outermost-AllOrNothing callback s (ok done, c) shut o (w, m, st) =
      settled-AllOrNothing callback s (record { registered = []; manual = false }) c
        (run_callback on callback 0 [] c)
        (run_callback-Does laws callback 0 [] (view.stored s.engine) (live (view.stored s.engine))
          [] c (record { stored = st; work = w; marks = subst (Anchored on 0 []) (sym m) bare }))
  outermost-AllOrNothing callback s (err e, c) shut o st =
      (refl, shut, inr (e, refl, inr (inl (c, o)), st, refl))

  -- On an engine that keeps its laws, `transaction` on a connection with none open leaves none, however it
  -- ends. Either it committed what its callback did, of its nested transactions those that stood, and nothing
  -- where the engine had aborted it, then ran what these registered, in order, all of it or until one threw;
  -- or it threw the error of its callback, of its beginning or of a commit, the stored database is as
  -- before, and nothing that was registered ran.
  pub transaction-AllOrNothing :
      (callback : Callback Q A V H) (s : Session E H)
      → s.held ≡ none
      → s.has_open_transaction ≡ false
      → AllOrNothing on view run_hook callback s (transaction on run_hook callback s)
  unfolding transaction open_slot
  transaction-AllOrNothing callback s idle shut =
      rw idle
        (outermost-AllOrNothing callback s (on.begin s.engine) shut refl (laws.begun s.engine))
