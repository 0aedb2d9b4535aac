-- ===== src/Schema/CreateOrder/Dependencies.antt =====
-- Where no node depends on itself, through others or not, dependencies come first.
use uql.Base.{
  false_true, Has-append, append-Has, ℕ, zero, suc, ◌<◌, ◌≤◌, true, Option, some, ◌==◌, ==_iff,
  Equal, List, [], ◌∷◌, ◌++◌, any, ◌≡◌, ◌⊎◌, inl, inr, refl, sym, ap, ◌∙◌, subst, All, All-map, Has,
  arith, Bool-cases,
}
use uql.Schema.CreateOrder.{Walked, mark, visit_each, visit, create_order}

-- Each node of a list after all that it depends on, of which some may come before the list.
abbrev pub DependsFirst : {N : Type 0} → (N → List N) → List N → List N → Type 0
DependsFirst dependencies_of before [] = Unit
DependsFirst dependencies_of before (n ∷ ns) =
    All (λ d. Has d before) (dependencies_of n) × DependsFirst dependencies_of (n ∷ before) ns

Has-last : {A : Type 0} (x : A) (xs : List A) → Has x (xs ++ x ∷ [])
Has-last x [] = inl refl
Has-last x (y ∷ xs) = inr (Has-last x xs)

DependsFirst-append :
    {N : Type 0} (deps : N → List N) (before xs : List N) (n : N)
    → DependsFirst deps before xs
    → All (λ d. Has d before ⊎ Has d xs) (deps n)
    → DependsFirst deps before (xs ++ n ∷ [])
DependsFirst-append deps before [] n h a =
    (All-map (λ d m. elim m [ inl k ↦ k | inr k ↦ elim k [ ] ]) (deps n) a, tt)
DependsFirst-append deps before (x ∷ xs) n (p, h) a = (
  p,
  DependsFirst-append deps (x ∷ before) xs n h (
      All-map
        (λ d m. elim m [
          | inl k ↦ inl (inr k)
          | inr k ↦ elim k [ inl e ↦ inl (inl e) | inr l ↦ inr l ]
        ])
        (deps n) a),
)

any-Has :
    {N : Type 0} ⦃same_node : Equal N⦄ (n : N) (xs : List N)
    → any (λ x. x == n) xs ≡ true
    → Has n xs
any-Has n [] h = cc
any-Has n (x ∷ xs) h = elim (Bool-cases (x == n)) [
  | inl e ↦ inl (sym ((==_iff x n).0 e))
  | inr e ↦ inr (any-Has n xs (sym (rw e refl) ∙ h))
]

Has-any :
    {N : Type 0} ⦃same_node : Equal N⦄ (n : N) (xs : List N)
    → Has n xs
    → any (λ x. x == n) xs ≡ true
Has-any n [] m = elim m [ ]
Has-any n (x ∷ xs) (inl e) = let found : (x == n) ≡ true = (==_iff x n).1 (sym e) in rw found refl
Has-any n (x ∷ xs) (inr m) = elim (Bool-cases (x == n)) [
  | inl e ↦ rw e refl
  | inr e ↦ rw e (Has-any n xs m)
]

-- No item twice.
abbrev pub Distinct : {N : Type 0} → List N → Type 0
Distinct [] = Unit
Distinct (x ∷ xs) = (Has x xs → ⊥) × Distinct xs

Distinct-append :
    {N : Type 0} (xs : List N) (n : N) → Distinct xs → (Has n xs → ⊥) → Distinct (xs ++ n ∷ [])
Distinct-append [] n h f = (λ m. m, tt)
Distinct-append (x ∷ xs) n (p, h) f = (
  λ m. elim (append-Has x xs (n ∷ []) m) [
    | inl k ↦ p k
    | inr k ↦ elim k [ inl e ↦ f (inl (sym e)) | inr l ↦ l ]
  ],
  Distinct-append xs n h (λ m. f (inr m)),
)

module _ {N : Type 0} ⦃same_node : Equal N⦄ (deps : N → List N) (rank : N → ℕ)
    (falls : (n : N) → All (λ d. rank d < rank n) (deps n)) where
  -- Each node that was visited and ranks no higher is ordered by now.
  Settled : ℕ → Walked N → Type 0
  Settled k w = (v : N) → Has v w.visited → rank v ≤ k → Has v w.ordered

  -- What is ordered so far: dependencies first, no node twice, and each one visited.
  record Sound (w : Walked N) : Type 0 where
    first : DependsFirst deps [] w.ordered
    once : Distinct w.ordered
    marked : (v : N) → Has v w.ordered → Has v w.visited

  -- What visiting keeps and adds: a node that was visited before is ordered by nothing below.
  record Grows (w out : Walked N) : Type 0 where
    kept : (v : N) → Has v w.ordered → Has v out.ordered
    fresh : (v : N) → Has v out.visited → Has v out.ordered ⊎ Has v w.visited
    seen : (v : N) → Has v w.visited → Has v out.visited
    old : (v : N) → Has v out.ordered → Has v w.visited → Has v w.ordered
    sound : Sound out

  Grows-none : (w : Walked N) → Sound w → Grows w w
  Grows-none w h = record {
    kept = λ v m. m;
    fresh = λ v m. inr m;
    seen = λ v m. m;
    old = λ v m k. m;
    sound = h;
  }

  Grows-both : (w x y : Walked N) → Grows w x → Grows x y → Grows w y
  Grows-both w x y g h = record {
    kept = λ v m. h.kept v (g.kept v m);
    fresh = λ v m. elim (h.fresh v m) [
      | inl k ↦ inl k
      | inr k ↦ elim (g.fresh v k) [ inl l ↦ inl (h.kept v l) | inr l ↦ inr l ]
    ];
    seen = λ v m. h.seen v (g.seen v m);
    old = λ v m k. g.old v (h.old v m (g.seen v k)) k;
    sound = h.sound;
  }

  Settled-Grows : (k : ℕ) (w out : Walked N) → Settled k w → Grows w out → Settled k out
  unfolding Settled
  Settled-Grows k w out s g v m l = elim (g.fresh v m) [ inl o ↦ o | inr o ↦ g.kept v (s v o l) ]

  Visits : (N → Walked N → Option (Walked N)) → N → Type 0
  Visits visiting n =
      (w : Walked N)
      → Settled (rank n) w
      → Sound w
      → (out : Walked N) × (visiting n w ≡ some out) × Grows w out × Has n out.ordered

  Visits-each :
      (visiting : N → Walked N → Option (Walked N)) (ns : List N) (w : Walked N)
      → All (Visits visiting) ns
      → All (λ n. Settled (rank n) w) ns
      → Sound w
      → (out : Walked N) × (visit_each deps visiting ns w ≡ some out)
        × Grows w out
        × All (λ n. Has n out.ordered) ns
  unfolding visit_each Visits
  Visits-each visiting [] w vs ss h = (w, refl, Grows-none w h, tt)
  Visits-each visiting (n ∷ ns) w (v, vs) (s, ss) h =
      let (x, e, g, m) = v w s h in
      let (y, f, k, l) =
        Visits-each visiting ns x vs (All-map (λ i t. Settled-Grows (rank i) w x t g) ns ss)
          g.sound in
      (y, rw e f, Grows-both w x y g k, (k.kept n m, l))

  Settled-mark :
      (d n : N) (w : Walked N) → rank d < rank n → Settled (rank n) w → Settled (rank d) (mark n w)
  unfolding Settled
  Settled-mark d n w l s v (inl e) k =
      let same : rank v ≡ rank n = ap rank e in let never : ⊥ = omega arith in elim never [ ]
  Settled-mark d n w l s v (inr m) k = s v m (omega arith)

  Sound-mark : (n : N) (w : Walked N) → Sound w → Sound (mark n w)
  Sound-mark n w h = record { first = h.first; once = h.once; marked = λ v m. inr (h.marked v m) }

  -- A node that was not visited is not ordered by what is visited below it.
  unordered :
      (n : N) (w x : Walked N)
      → Grows (mark n w) x
      → Sound w
      → (Has n w.visited → ⊥)
      → Has n x.ordered
      → ⊥
  unordered n w x g h f m = f (h.marked n (g.old n m (inl refl)))

  Sound-push :
      (n : N) (w x : Walked N)
      → Grows (mark n w) x
      → Sound w
      → (Has n w.visited → ⊥)
      → All (λ d. Has d x.ordered) (deps n)
      → Sound (record { visited = x.visited; ordered = x.ordered ++ n ∷ [] })
  Sound-push n w x g h f m = record {
    first =
        DependsFirst-append deps [] x.ordered n g.sound.first (All-map (λ d k. inr k) (deps n) m);
    once = Distinct-append x.ordered n g.sound.once (unordered n w x g h f);
    marked = λ v k. elim (append-Has v x.ordered (n ∷ []) k) [
      | inl o ↦ g.sound.marked v o
      | inr i ↦ elim i [
        | inl e ↦ subst (λ y. Has y x.visited) (sym e) (g.seen n (inl refl))
        | inr j ↦ elim j [ ]
      ]
    ];
  }

  Grows-push :
      (n : N) (w x : Walked N)
      → Grows (mark n w) x
      → Sound w
      → (Has n w.visited → ⊥)
      → All (λ d. Has d x.ordered) (deps n)
      → Grows w (record { visited = x.visited; ordered = x.ordered ++ n ∷ [] })
  Grows-push n w x g h f m = record {
    kept = λ v k. Has-append v x.ordered (n ∷ []) (inl (g.kept v k));
    fresh = λ v k. elim (g.fresh v k) [
      | inl o ↦ inl (Has-append v x.ordered (n ∷ []) (inl o))
      | inr i ↦ elim i [
        | inl e ↦ inl (subst (λ y. Has y (x.ordered ++ n ∷ [])) (sym e) (Has-last n x.ordered))
        | inr j ↦ inr j
      ]
    ];
    seen = λ v k. g.seen v (inr k);
    old = λ v k j. elim (append-Has v x.ordered (n ∷ []) k) [
      | inl o ↦ g.old v o (inr j)
      | inr i ↦ elim i [
        | inl e ↦ elim (f (subst (λ y. Has y w.visited) e j)) [ ]
        | inr l ↦ elim l [ ]
      ]
    ];
    sound = Sound-push n w x g h f m;
  }

  visit-Visits : (fuel : ℕ) (n : N) → rank n < fuel → Visits (visit deps fuel) n
  unfolding visit Visits Settled
  visit-Visits zero n l w s h = ground arith
  visit-Visits (suc fuel) n l w s h = elim (Bool-cases (any (λ x. x == n) w.visited)) [
    | inl e ↦ (w, (rw e refl), Grows-none w h, s n (any-Has n w.visited e) (omega arith))
    | inr e ↦
        let (x, f, g, m) =
          Visits-each (visit deps fuel) (deps n) (mark n w)
            (All-map (λ d k. visit-Visits fuel d (omega arith)) (deps n) (falls n))
            (All-map (λ d k. Settled-mark d n w k s) (deps n) (falls n)) (Sound-mark n w h) in
        (
          record { visited = x.visited; ordered = x.ordered ++ n ∷ [] },
          (rw e (rw f refl)),
          Grows-push n w x g h (λ k. false_true (sym (Has-any n w.visited k) ∙ e)) m,
          Has-last n x.ordered,
        )
  ]

  -- Where each node ranks above those that it depends on, fuel above the nodes' ranks is enough, and the order
  -- that results has each node once, after all that it depends on, and every node that was asked for.
  pub create_order-DependsFirst :
      (fuel : ℕ) (nodes : List N)
      → All (λ n. rank n < fuel) nodes
      → (order : List N) × (create_order deps fuel nodes ≡ some order)
        × DependsFirst deps [] order
        × Distinct order
        × All (λ n. Has n order) nodes
  unfolding create_order Settled
  create_order-DependsFirst fuel nodes l =
      let (out, e, g, m) =
        Visits-each (visit deps fuel) nodes (record { visited = []; ordered = [] })
          (All-map (λ n k. visit-Visits fuel n k) nodes l)
          (All-map (λ n k v o j. elim o [ ]) nodes l)
          (record { first = tt; once = tt; marked = λ v k. k }) in
      (out.ordered, (rw e refl), g.sound.first, g.sound.once, m)
