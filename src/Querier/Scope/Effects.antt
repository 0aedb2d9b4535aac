-- ===== src/Querier/Scope/Effects.antt =====
-- What the callback of a transaction may do to the work, apart from savepoints
-- (packages/orm/src/querier/abstractQuerier.ts): the specification that `transaction` refines.
use uql.Base.{List, [], ◌∷◌, ◌++◌}
use uql.Result.{Result, Error, ok, err}
use uql.Querier.Scope.{Callback, returns, throws, sends, on_commit, nests}
use uql.Querier.Scope.Laws.{Work, live, Kept, View}

-- A callback run on some work has a result, leaves some work, and has registered callbacks for the commit.
-- A nested transaction that ends well leaves what its callback leaves, registered callbacks included. One
-- that fails leaves the work as it was, or aborted, and nothing registered.
pub data Does {E Q A D V H : Type 0} (view : View E Q A D)
    : Callback Q A V H → Work D → Result V → Work D → List H → Type 0 where
  returned : {v : V} {w : Work D} → Does view (returns v) w (ok v) w []
  threw : {e : Error} {w : Work D} → Does view (throws e) w (err e) w []
  sent :
      {q : Q} {next : Result A → Callback Q A V H} {db : D} {r : Result V} {x : Work D}
      {hs : List H}
      → Does view (next (ok (view.answer q db))) (live (view.effect q db)) r x hs
      → Does view (sends q next) (live db) r x hs
  refused :
      {q : Q} {next : Result A → Callback Q A V H} {w u : Work D} {r : Result V} {x : Work D}
      {hs : List H}
      → (e : Error) → Kept w u
      → Does view (next (err e)) u r x hs
      → Does view (sends q next) w r x hs
  registered :
      {h : H} {next : Callback Q A V H} {w : Work D} {r : Result V} {x : Work D} {hs : List H}
      → Does view next w r x hs
      → Does view (on_commit h next) w r x (h ∷ hs)
  nested :
      {inner : Callback Q A V H} {next : Result V → Callback Q A V H} {w u : Work D} {v : V}
      {r : Result V} {x : Work D} {own hs : List H}
      → Does view inner w (ok v) u own
      → Does view (next (ok v)) u r x hs
      → Does view (nests inner next) w r x (own ++ hs)
  undone :
      {inner : Callback Q A V H} {next : Result V → Callback Q A V H} {w u : Work D} {r : Result V}
      {x : Work D} {hs : List H}
      → (e : Error) → Kept w u
      → Does view (next (err e)) u r x hs
      → Does view (nests inner next) w r x hs
