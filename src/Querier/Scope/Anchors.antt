-- ===== src/Querier/Scope/Anchors.antt =====
-- The savepoints of the open transactions among those of an engine
-- (packages/orm/src/querier/abstractQuerier.ts, `savepointed`).
use uql.Base.{
  ℕ, suc, ◌<◌, false, some, List, [], ◌∷◌, ◌++◌, ◌≡◌, ◌≢◌, refl, arith, inl, inr, Bool-cases, ◌==◌,
  ==_iff, ==_refl,
}
use uql.Text.{Text, codes, text_eq}
use uql.Querier.Scope.{Engine, savepoint_name}
use uql.Querier.Scope.Laws.{Work, Mark, marks_without, newest, View, Laws}

module _ {E Q A D : Type 0} (on : Engine E Q A) where
  -- At a depth, with the works at which the open transactions began, the innermost first: their savepoints
  -- in order, and between them others of deeper transactions that ended.
  pub data Anchored : ℕ → List (Work D) → List (Mark D) → Type 0 where
    bare : Anchored 0 [] []
    leftover :
        {d n : ℕ} {ws : List (Work D)} {x : Work D} {ms : List (Mark D)}
        → d < n
        → Anchored d ws ms
        → Anchored d ws ((savepoint_name on n, x) ∷ ms)
    anchor :
        {d : ℕ} {ws : List (Work D)} {w : Work D} {ms : List (Mark D)}
        → Anchored d ws ms
        → Anchored (suc d) (w ∷ ws) ((savepoint_name on (suc d), w) ∷ ms)

module _ {E Q A D : Type 0} {on : Engine E Q A} where
  pub Anchored-loosened :
      {d : ℕ} {ws : List (Work D)} {w : Work D} {ms : List (Mark D)}
      → Anchored on (suc d) (w ∷ ws) ms
      → Anchored on d ws ms
  Anchored-loosened (leftover deep a) = leftover (omega arith) (Anchored-loosened a)
  Anchored-loosened (anchor a) = leftover (omega arith) a

append_cancel : (xs : Text) {ys zs : Text} → xs ++ ys ≡ xs ++ zs → ys ≡ zs
append_cancel [] h = h
append_cancel (x ∷ xs) {ys} {zs} h = let e : xs ++ ys ≡ xs ++ zs = cc in append_cancel xs e

module _ {E Q A D : Type 0} {on : Engine E Q A} {view : View E Q A D}
    (laws : Laws E Q A D on view) where
  savepoint_name_apart : (m n : ℕ) → m ≢ n → (savepoint_name on m == savepoint_name on n) ≡ false
  savepoint_name_apart m n h = elim (Bool-cases (savepoint_name on m == savepoint_name on n)) [
    | inr e ↦ e
    | inl e ↦
        let never : ⊥ =
          h (laws.number_text_injective m n (append_cancel (codes "_uql_sp") ((==_iff _ _).0 e))) in
        elim never [ ]
  ]

  pub Anchored-without :
      (n : ℕ) {d : ℕ} {ws : List (Work D)} {ms : List (Mark D)}
      → d < n
      → Anchored on d ws ms
      → Anchored on d ws (marks_without (savepoint_name on n) ms)
  Anchored-without n h bare = bare
  Anchored-without n h (leftover {n = k} deep a) =
      elim (Bool-cases (savepoint_name on k == savepoint_name on n)) [
        | inl e ↦ rw e (Anchored-without n h a)
        | inr e ↦ rw e (leftover deep (Anchored-without n h a))
      ]
  Anchored-without n h (anchor {d = d} a) =
      rw (savepoint_name_apart (suc d) n (λ e. omega arith))
        (anchor (Anchored-without n (omega arith) a))

  pub Anchored-newest :
      {d : ℕ} {ws : List (Work D)} {w : Work D} {ms : List (Mark D)}
      → Anchored on (suc d) (w ∷ ws) ms
      → (after : List (Mark D)) × (newest (savepoint_name on (suc d)) ms ≡ some (w, after))
        × Anchored on d ws after
  Anchored-newest {d = d} (leftover {n = k} deep a) =
      let (after, e, b) = Anchored-newest a in
      (after, rw (savepoint_name_apart k (suc d) (λ f. omega arith)) e, b)
  Anchored-newest {d = d} (anchor {ms = ms} a) =
      (ms, rw (==_refl (savepoint_name on (suc d))) refl, a)
