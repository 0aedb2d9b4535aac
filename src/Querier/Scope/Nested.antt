-- ===== src/Querier/Scope/Nested.antt =====
-- `savepointed` of packages/orm/src/querier/abstractQuerier.ts: a callback between a savepoint and its
-- release, or its rollback.
use uql.Base.{ℕ, suc, List, [], ◌∷◌, ◌++◌, ◌≡◌, refl, ap, sym, ◌∙◌, subst, arith, inl, inr}
use uql.Result.{Result, Error, ok, err}
use uql.Querier.Scope.{
  Engine, Callback, open_savepoint, release_savepoint, rollback_savepoint, savepoint_name, undone,
  back_to_savepoint, kept_or, closed_savepoint, in_savepoint, savepointed,
}
use uql.Querier.Scope.Laws.{Work, aborted, Kept, Mark, View, Laws, Opened, Released, RolledBackTo}
use uql.Querier.Scope.Effects.{Does}
use uql.Querier.Scope.Anchors.{
  Anchored, anchor, Anchored-without, Anchored-newest, Anchored-loosened,
}

module _ {E Q A D : Type 0} (on : Engine E Q A) (view : View E Q A D) where
  -- An engine inside the open transactions of a depth.
  pub record Inside (d : ℕ) (ws : List (Work D)) (s : D) (w : Work D) (c : E) : Type 0 where
    pub stored : view.stored c ≡ s
    pub work : view.work c ≡ w
    pub marks : Anchored on d ws (view.marks c)

module _ {E Q A D V H : Type 0} {on : Engine E Q A} {view : View E Q A D}
    (laws : Laws E Q A D on view) where
  abbrev pub Ran :
      Callback Q A V H → ℕ → List (Work D) → D → Work D → List H → Result V × List H × E → Type 0
  Ran callback d ws s w own (r, all, c) =
      (x : Work D) × (hs : List H) × Does view callback w r x hs
      × (all ≡ own ++ hs)
      × Inside on view d ws s x c

  -- How a nested transaction ends for the one around it.
  abbrev pub Ended :
      Callback Q A V H → ℕ → List (Work D) → D → Work D → List H → Result V × List H × E → Type 0
  Ended inner d ws s w own (ok v, all, c) =
      (u : Work D) × (hs : List H) × Does view inner w (ok v) u hs
      × (all ≡ own ++ hs)
      × Inside on view d ws s u c
  Ended inner d ws s w own (err e, all, c) =
      (u : Work D) × Kept w u × (all ≡ own) × Inside on view d ws s u c

  module _ (inner : Callback Q A V H) (d : ℕ) (ws : List (Work D)) (s : D) (w : Work D)
      (own : List H) where
    marked :
        {u : Work D}
        → u ≡ w
        → (ms : List (Mark D))
        → (savepoint_name on (suc d), u) ∷ ms ≡ (savepoint_name on (suc d), w) ∷ ms
    marked e ms = ap (λ v. (savepoint_name on (suc d), v) ∷ ms) e

    undone-Ended :
        {u : Work D} {c : E} (e : Error) (after : List (Mark D)) (r : Result (Unit {0}) × E)
        → Inside on view (suc d) (w ∷ ws) s u c
        → Anchored on d ws after
        → RolledBackTo view c (savepoint_name on (suc d)) w after r
        → Ended inner d ws s w own (undone on own e r)
    undone-Ended e after (ok done, x) i b (f, m, st) = (
      w,
      inl refl,
      refl,
      record {
        stored = st ∙ i.stored;
        work = f;
        marks = subst (Anchored on d ws) (sym m) (Anchored-loosened (anchor b));
      },
    )
    undone-Ended e after (err g, x) i b (f, m, st) = (
      aborted,
      inr refl,
      refl,
      record {
        stored = st ∙ i.stored;
        work = f;
        marks = subst (Anchored on d ws) (sym m) (Anchored-loosened i.marks);
      },
    )

    back_to_savepoint-Ended :
        {u : Work D} {c : E} (e : Error)
        → Inside on view (suc d) (w ∷ ws) s u c
        → Ended inner d ws s w own (back_to_savepoint on (savepoint_name on (suc d)) own e c)
    back_to_savepoint-Ended {c = c} e i =
        let (after, n, b) = Anchored-newest laws i.marks in
        undone-Ended e after (on.savepoint rollback_savepoint (savepoint_name on (suc d)) c) i b
          (laws.rolled_back_to (savepoint_name on (suc d)) c w after n)

    kept_or-Ended :
        {u : Work D} {c : E} {v : V} {hs : List H} (after : List (Mark D))
        (r : Result (Unit {0}) × E)
        → Inside on view (suc d) (w ∷ ws) s u c
        → Does view inner w (ok v) u hs
        → Anchored on d ws after
        → Released view c (savepoint_name on (suc d)) after r
        → Ended inner d ws s w own (kept_or on (savepoint_name on (suc d)) own hs v r)
    kept_or-Ended {u = u} {hs = hs} after (ok done, x) i does b (f, m, st) = (
      u,
      hs,
      does,
      refl,
      record {
        stored = st ∙ i.stored;
        work = f ∙ i.work;
        marks = elim m [
          | inl same ↦ subst (Anchored on d ws) (sym same) (Anchored-loosened i.marks)
          | inr forgot ↦ subst (Anchored on d ws) (sym forgot) b
        ];
      },
    )
    kept_or-Ended after (err e, x) i does b (f, m, st) =
        back_to_savepoint-Ended {u = view.work x} e (record {
          stored = st ∙ i.stored;
          work = refl;
          marks = subst (Anchored on (suc d) (w ∷ ws)) (sym m) i.marks;
        })

    closed_savepoint-Ended :
        (r : Result V × List H × E)
        → Ran inner (suc d) (w ∷ ws) s w [] r
        → Ended inner d ws s w own (closed_savepoint on (savepoint_name on (suc d)) own r)
    closed_savepoint-Ended (ok v, all, c) (u, hs, does, e, i) =
        let (after, n, b) = Anchored-newest laws i.marks in
        kept_or-Ended after (on.savepoint release_savepoint (savepoint_name on (suc d)) c) i
          (subst (Does view inner w (ok v) u) (sym e) does) b
          (laws.released (savepoint_name on (suc d)) c w after n)
    closed_savepoint-Ended (err e, all, c) (u, hs, does, f, i) = back_to_savepoint-Ended e i

    in_savepoint-Ended :
        (f : E → Result V × List H × E) (c : E) (r : Result (Unit {0}) × E)
        → Inside on view d ws s w c
        → Opened view c (savepoint_name on (suc d)) r
        → ((x : E)
            → Inside on view (suc d) (w ∷ ws) s w x
            → Ran inner (suc d) (w ∷ ws) s w [] (f x))
        → Ended inner d ws s w own (in_savepoint on (savepoint_name on (suc d)) own f r)
    in_savepoint-Ended f c (ok done, x) i (g, m, st) run = closed_savepoint-Ended (f x) (
        run x (record {
          stored = st ∙ i.stored;
          work = g ∙ i.work;
          marks = elim m [
            | inl e ↦
                subst (Anchored on (suc d) (w ∷ ws)) (sym (e ∙ marked i.work _)) (anchor i.marks)
            | inr e ↦
                subst (Anchored on (suc d) (w ∷ ws)) (sym (e ∙ marked i.work _))
                  (anchor (Anchored-without laws (suc d) (omega arith) i.marks))
          ];
        }))
    in_savepoint-Ended f c (err e, x) i (k, m, st) run = (
      view.work x,
      subst (λ v. Kept v (view.work x)) i.work k,
      refl,
      record {
        stored = st ∙ i.stored;
        work = refl;
        marks = subst (Anchored on d ws) (sym m) i.marks;
      },
    )

    pub savepointed-Ended :
        (f : E → Result V × List H × E) (c : E)
        → Inside on view d ws s w c
        → ((x : E)
            → Inside on view (suc d) (w ∷ ws) s w x
            → Ran inner (suc d) (w ∷ ws) s w [] (f x))
        → Ended inner d ws s w own (savepointed on (savepoint_name on (suc d)) own f c)
    savepointed-Ended f c i run =
        in_savepoint-Ended f c (on.savepoint open_savepoint (savepoint_name on (suc d)) c) i
          (laws.opened (savepoint_name on (suc d)) c) run
