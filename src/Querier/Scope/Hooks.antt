-- ===== src/Querier/Scope/Hooks.antt =====
-- What runs after a commit: `runCallbacks` of packages/orm/src/querier/abstractQuerier.ts.
use uql.Base.{List, [], ◌∷◌, ◌++◌, ◌≡◌, ◌⊎◌, refl, sym, ap, ◌∙◌, All}
use mathlib.Core.List.{append_assoc, append-nil}
use uql.Result.{Result, Error, ok, err}
use uql.Querier.Scope.{Session, run_callbacks}

-- The callbacks of a commit ran in order: all of them, or until the first that threw.
module _ {V H : Type 0} (run_hook : H → Result (Unit {0})) where
  abbrev pub RanHooks : V → List H → List H → Result V → List H → Type 0
  RanHooks v hs ran r ran_after =
      (All (λ h. run_hook h ≡ ok tt) hs × (r ≡ ok v) × (ran_after ≡ ran ++ hs))
      ⊎ ((before : List H) × (h : H) × (rest : List H) × (e : Error) × (hs ≡ before ++ h ∷ rest)
          × All (λ g. run_hook g ≡ ok tt) before
          × (run_hook h ≡ err e)
          × (r ≡ err e)
          × (ran_after ≡ ran ++ (before ++ h ∷ [])))

module _ {E H : Type 0} (run_hook : H → Result (Unit {0})) where
  -- A run of registered callbacks, by whether each succeeds.
  pub data Runs (s : Session E H) : List H → Result (Unit {0}) × Session E H → Type 0 where
    all_run :
        {hs : List H} {p : Result (Unit {0}) × Session E H}
        → All (λ h. run_hook h ≡ ok tt) hs
        → p ≡ (ok tt, record s { ran = s.ran ++ hs })
        → Runs s hs p
    stopped :
        {hs : List H} {p : Result (Unit {0}) × Session E H}
        → (before : List H) (h : H) (rest : List H) (e : Error) → hs ≡ before ++ h ∷ rest
        → All (λ g. run_hook g ≡ ok tt) before
        → run_hook h ≡ err e
        → p ≡ (err e, record s { ran = s.ran ++ (before ++ h ∷ []) })
        → Runs s hs p

  Runs-more :
      (h : H) (hs : List H) (s : Session E H) {p : Result (Unit {0}) × Session E H}
      → run_hook h ≡ ok tt
      → Runs (record s { ran = s.ran ++ h ∷ [] }) hs p
      → Runs s (h ∷ hs) p
  Runs-more h hs s o (all_run k e) =
      all_run (o, k) (e ∙ ap (λ l. (ok tt, record s { ran = l })) (append_assoc s.ran (h ∷ []) hs))
  Runs-more h hs s o (stopped before g rest f split k x e) =
      stopped (h ∷ before) g rest f (ap (λ l. h ∷ l) split) (o, k) x
        (e
          ∙ ap (λ l. (err f, record s { ran = l }))
              (append_assoc s.ran (h ∷ []) (before ++ g ∷ [])))

  Runs-next :
      (h : H) (hs : List H) (s : Session E H) (r : Result (Unit {0}))
      → run_hook h ≡ r
      → Runs
          (record s { ran = s.ran ++ h ∷ [] })
          hs
          (run_callbacks run_hook hs (record s { ran = s.ran ++ h ∷ [] }))
      → Runs s (h ∷ hs) (run_callbacks run_hook (h ∷ hs) s)
  unfolding run_callbacks
  Runs-next h hs s (ok done) o k = rw o (Runs-more h hs s o k)
  Runs-next h hs s (err e) o k = rw o (stopped [] h hs e refl tt o refl)

  pub run_callbacks-Runs : (hs : List H) (s : Session E H) → Runs s hs (run_callbacks run_hook hs s)
  unfolding run_callbacks
  run_callbacks-Runs [] s =
      all_run tt (ap (λ l. (ok tt, record s { ran = l })) (sym (append-nil s.ran)))
  run_callbacks-Runs (h ∷ hs) s =
      Runs-next h hs s (run_hook h) refl
        (run_callbacks-Runs hs (record s { ran = s.ran ++ h ∷ [] }))
