-- ===== src/Querier/Scope/Body.antt =====
-- The callback of a transaction, as packages/orm/src/querier/abstractQuerier.ts runs it, does what
-- Effects has it do, whatever the depth.
use uql.Base.{ℕ, suc, List, [], ◌∷◌, ◌++◌, refl, ap, sym, ◌∙◌, subst}
use mathlib.Core.List.{append_assoc, append-nil}
use uql.Result.{Result, ok, err}
use uql.Querier.Scope.{
  Engine, Callback, returns, throws, sends, on_commit, nests, savepoint_name, savepointed,
  run_callback,
}
use uql.Querier.Scope.Laws.{Work, live, Kept, View, Laws, Sent}
use uql.Querier.Scope.Effects.{Does}
use uql.Querier.Scope.Effects
use uql.Querier.Scope.Nested.{Inside, Ran, Ended, savepointed-Ended}
use uql.Querier.Scope.Anchors.{Anchored}

module _ {E Q A D V H : Type 0} {on : Engine E Q A} {view : View E Q A D}
    (laws : Laws E Q A D on view) where
  sends-Does :
      (q : Q) (next : Result A → Callback Q A V H) (d : ℕ) (ws : List (Work D)) (s : D) (w : Work D)
      (own : List H) (c : E)
      → Inside on view d ws s w c
      → (r : Result A × E) → Sent view c q r
      → ((a : Result A) (x : Work D) (y : E)
          → Inside on view d ws s x y
          → Ran laws (next a) d ws s x own (run_callback on (next a) d own y))
      → Ran laws (sends q next) d ws s w own (run_callback on (next r.0) d own r.1)
  sends-Does q next d ws s w own c i (ok a, y) (db, f, e, g, m, st) run =
      let j : Inside on view d ws s (live (view.effect q db)) y = record {
        stored = st ∙ i.stored;
        work = g;
        marks = subst (Anchored on d ws) (sym m) i.marks;
      } in
      let (x, hs, does, all, k) = run (ok a) (live (view.effect q db)) y j in
      (
        x,
        hs,
        subst (λ v. Does view (sends q next) v (run_callback on (next (ok a)) d own y).0 x hs)
            (sym f ∙ i.work)
            (Effects.sent (
              subst
                (λ b.
                  Does view (next (ok b)) (live (view.effect q db))
                    (run_callback on (next (ok a)) d own y).0 x hs)
                e does)),
        all,
        k,
      )
  sends-Does q next d ws s w own c i (err e, y) (kept, m, st) run =
      let j : Inside on view d ws s (view.work y) y = record {
        stored = st ∙ i.stored;
        work = refl;
        marks = subst (Anchored on d ws) (sym m) i.marks;
      } in
      let (x, hs, does, all, k) = run (err e) (view.work y) y j in
      (x, hs, Effects.refused e (subst (λ v. Kept v (view.work y)) i.work kept) does, all, k)

  nests-Does :
      (inner : Callback Q A V H) (next : Result V → Callback Q A V H) (d : ℕ) (ws : List (Work D))
      (s : D) (w : Work D) (own : List H) (r : Result V × List H × E)
      → Ended laws inner d ws s w own r
      → ((a : Result V) (x : Work D) (all : List H) (y : E)
          → Inside on view d ws s x y
          → Ran laws (next a) d ws s x all (run_callback on (next a) d all y))
      → Ran laws (nests inner next) d ws s w own (run_callback on (next r.0) d r.1 r.2)
  nests-Does inner next d ws s w own (ok v, all, y) (u, hs, does, e, j) run =
      let (x, gs, then_does, f, k) = run (ok v) u all y j in
      (
        x,
        hs ++ gs,
        Effects.nested does then_does,
        f ∙ ap (λ l. l ++ gs) e ∙ append_assoc own hs gs,
        k,
      )
  nests-Does inner next d ws s w own (err v, all, y) (u, kept, e, j) run =
      let (x, gs, does, f, k) = run (err v) u all y j in
      (x, gs, Effects.undone v kept does, f ∙ ap (λ l. l ++ gs) e, k)

  -- The engine inside some transactions runs a callback: what it did, and that it is inside them still.
  pub run_callback-Does :
      (callback : Callback Q A V H) (d : ℕ) (ws : List (Work D)) (s : D) (w : Work D) (own : List H)
      (c : E)
      → Inside on view d ws s w c
      → Ran laws callback d ws s w own (run_callback on callback d own c)
  unfolding run_callback
  run_callback-Does (returns v) d ws s w own c i =
      (w, [], Effects.returned, sym (append-nil own), i)
  run_callback-Does (throws e) d ws s w own c i = (w, [], Effects.threw, sym (append-nil own), i)
  run_callback-Does (sends q next) d ws s w own c i =
      sends-Does q next d ws s w own c i (on.send q c) (laws.sent q c)
        (λ a x y. run_callback-Does (next a) d ws s x own y)
  run_callback-Does (on_commit h next) d ws s w own c i =
      let (x, hs, does, e, j) = run_callback-Does next d ws s w (own ++ h ∷ []) c i in
      (x, h ∷ hs, Effects.registered does, e ∙ append_assoc own (h ∷ []) hs, j)
  run_callback-Does (nests inner next) d ws s w own c i =
      let name = savepoint_name on (suc d) in
      nests-Does inner next d ws s w own
        (savepointed on name own (λ x. run_callback on inner (suc d) [] x) c)
        (savepointed-Ended laws inner d ws s w own (λ x. run_callback on inner (suc d) [] x) c i
          (λ x j. run_callback-Does inner (suc d) (w ∷ ws) s w [] x j))
        (λ r x all y. run_callback-Does (next r) d ws s x all y)
