-- ===== src/Schema/Match/Splits.antt =====
-- What `matchByKey` splits its two sides into.
use mathlib.Core.List.{Perm, perm_middle, append_assoc, append-nil}
use mathlib.Core.List.Perm
use uql.Base.{
  false, List, [], ◌∷◌, ◌++◌, Option, none, some, ◌==◌, ==_iff, Equal, any, map, ◌≡◌, refl, sym, ap,
  ◌∙◌, subst, Bool-cases, inl, inr, All, All-append, All-take, All-map, or_false, false_true,
}
use uql.Schema.Match.{
  Matches, add_to_group, group_from, shift, shift_group, ungrouped, split_item, match_from,
  match_by_key,
}

differ_back : {K : Type 0} ⦃by_value : Equal K⦄ (a b : K) → (a == b) ≡ false → (b == a) ≡ false
differ_back a b h = elim (Bool-cases (b == a)) [
  | inl e ↦ false_true (sym ((==_iff a b).1 (sym ((==_iff b a).0 e))) ∙ h)
  | inr e ↦ e
]

module _ {A : Type 0} where
  perm_into : (x : A) (xs ys : List A) → Perm (x ∷ (xs ++ ys)) ((xs ++ x ∷ []) ++ ys)
  perm_into x xs ys =
      subst (λ l. Perm (x ∷ (xs ++ ys)) l) (sym (append_assoc xs (x ∷ []) ys))
        (Perm.symm (perm_middle xs ys))

module _ {K T : Type 0} ⦃by_value : Equal K⦄ (key : T → K) where
  -- Groups of distinct keys, the items of each having its key.
  abbrev pub Grouped : List (K × List T) → Type 0
  Grouped [] = Unit
  Grouped ((j, xs) ∷ gs) = All (λ x. key x ≡ j) xs × (any (λ g. g.0 == j) gs ≡ false) × Grouped gs

  -- No item has the key.
  abbrev pub Free : K → List T → Type 0
  Free k xs = All (λ x. (key x == k) ≡ false) xs

  abbrev pub Shifted : K → List (K × List T) → Option T × List (K × List T) → Type 0
  Shifted k gs (none, rest) = Grouped rest × (ungrouped rest ≡ ungrouped gs) × Free k (ungrouped gs)
  Shifted k gs (some t, rest) =
      Grouped rest × Perm (ungrouped gs) (t ∷ ungrouped rest) × (key t ≡ k)

  add_to_group-Perm :
      (k : K) (x : T) (gs : List (K × List T))
      → Perm (x ∷ ungrouped gs) (ungrouped (add_to_group k x gs))
  unfolding add_to_group
  add_to_group-Perm k x [] = Perm.refl _
  add_to_group-Perm k x ((j, xs) ∷ gs) = elim (Bool-cases (j == k)) [
    | inl e ↦ rw e (perm_into x xs (ungrouped gs))
    | inr e ↦ rw e (
        Perm.trans (Perm.symm (perm_middle xs (ungrouped gs)))
          (Perm.append_left xs (add_to_group-Perm k x gs)))
  ]

  absent_add :
      (i k : K) (x : T) (gs : List (K × List T))
      → (k == i) ≡ false
      → any (λ g. g.0 == i) gs ≡ false
      → any (λ g. g.0 == i) (add_to_group k x gs) ≡ false
  unfolding add_to_group
  absent_add i k x [] e h = rw e refl
  absent_add i k x ((j, xs) ∷ gs) e h =
      let (a, b) = or_false (j == i) _ h in
      elim (Bool-cases (j == k)) [
        | inl f ↦ rw (f, a) b
        | inr f ↦ rw (f, a) (absent_add i k x gs e b)
      ]

  add_to_group-Grouped :
      (x : T) (gs : List (K × List T)) → Grouped gs → Grouped (add_to_group (key x) x gs)
  unfolding add_to_group
  add_to_group-Grouped x [] h = ((refl, tt), refl, tt)
  add_to_group-Grouped x ((j, xs) ∷ gs) (a, b, c) = elim (Bool-cases (j == key x)) [
    | inl e ↦
        rw e (All-append (λ y. key y ≡ j) xs (x ∷ []) a (sym ((==_iff j (key x)).0 e), tt), b, c)
    | inr e ↦
        rw e (a, absent_add j (key x) x gs (differ_back j (key x) e) b, add_to_group-Grouped x gs c)
  ]

  pub group_from-Grouped :
      (gs : List (K × List T)) (xs : List T) → Grouped gs → Grouped (group_from key gs xs)
  unfolding group_from
  group_from-Grouped gs [] h = h
  group_from-Grouped gs (x ∷ xs) h =
      group_from-Grouped (add_to_group (key x) x gs) xs (add_to_group-Grouped x gs h)

  group_from-Perm :
      (gs : List (K × List T)) (xs : List T)
      → Perm (xs ++ ungrouped gs) (ungrouped (group_from key gs xs))
  unfolding group_from
  group_from-Perm gs [] = Perm.refl _
  group_from-Perm gs (x ∷ xs) = Perm.trans (Perm.symm (perm_middle xs (ungrouped gs))) (
      Perm.trans (Perm.append_left xs (add_to_group-Perm (key x) x gs))
        (group_from-Perm (add_to_group (key x) x gs) xs))

  Free-others :
      (k : K) (gs : List (K × List T))
      → Grouped gs
      → any (λ g. g.0 == k) gs ≡ false
      → Free k (ungrouped gs)
  Free-others k [] h e = tt
  Free-others k ((j, xs) ∷ gs) (a, b, c) e =
      let (f, g) = or_false (j == k) _ e in
      All-append (λ x. (key x == k) ≡ false) xs (ungrouped gs)
        (All-map (λ x q. ap (λ i. i == k) q ∙ f) xs a) (Free-others k gs c g)

  shift_group-Shifted :
      (j : K) (xs : List T) (gs : List (K × List T))
      → Grouped ((j, xs) ∷ gs)
      → Shifted j ((j, xs) ∷ gs) (shift_group j xs gs)
  shift_group-Shifted j [] gs (a, b, c) = ((tt, b, c), refl, Free-others j gs c b)
  shift_group-Shifted j (x ∷ xs) gs ((e, a), b, c) = ((a, b, c), Perm.refl _, e)

  shift-step :
      (j k : K) (xs : List T) (gs : List (K × List T)) (r : Option T × List (K × List T))
      → (j == k) ≡ false
      → All (λ x. key x ≡ j) xs
      → (any (λ g. g.0 == j) r.1 ≡ false)
      → Shifted k gs r
      → Shifted k ((j, xs) ∷ gs) (r.0, (j, xs) ∷ r.1)
  shift-step j k xs gs (none, rest) e a b (g, u, f) = (
    (a, b, g),
    ap (λ l. xs ++ l) u,
    All-append (λ x. (key x == k) ≡ false) xs (ungrouped gs)
        (All-map (λ x q. ap (λ i. i == k) q ∙ e) xs a) f,
  )
  shift-step j k xs gs (some t, rest) e a b (g, p, q) =
      ((a, b, g), Perm.trans (Perm.append_left xs p) (perm_middle xs (ungrouped rest)), q)

  shift_group-absent :
      (i j : K) (xs : List T) (gs : List (K × List T))
      → (j == i) ≡ false
      → any (λ g. g.0 == i) gs ≡ false
      → any (λ g. g.0 == i) (shift_group j xs gs).1 ≡ false
  shift_group-absent i j [] gs e h = rw e h
  shift_group-absent i j (x ∷ xs) gs e h = rw e h

  shift-absent :
      (i k : K) (gs : List (K × List T))
      → any (λ g. g.0 == i) gs ≡ false
      → any (λ g. g.0 == i) (shift k gs).1 ≡ false
  unfolding shift
  shift-absent i k [] h = refl
  shift-absent i k ((j, xs) ∷ gs) h =
      let (a, b) = or_false (j == i) _ h in
      elim (Bool-cases (j == k)) [
        | inl e ↦ rw e (shift_group-absent i j xs gs a b)
        | inr e ↦ rw (e, a) (shift-absent i k gs b)
      ]

  pub shift-Shifted : (k : K) (gs : List (K × List T)) → Grouped gs → Shifted k gs (shift k gs)
  unfolding shift
  shift-Shifted k [] h = (tt, refl, tt)
  shift-Shifted k ((j, xs) ∷ gs) (a, b, c) = elim (Bool-cases (j == k)) [
    | inl e ↦ rw e (
        subst (λ i. Shifted i ((j, xs) ∷ gs) (shift_group j xs gs)) ((==_iff j k).0 e)
          (shift_group-Shifted j xs gs (a, b, c)))
    | inr e ↦
        rw e (shift-step j k xs gs (shift k gs) e a (shift-absent j k gs b) (shift-Shifted k gs c))
  ]

  pub Shifted-Grouped :
      (k : K) (gs : List (K × List T)) (r : Option T × List (K × List T))
      → Shifted k gs r
      → Grouped r.1
  Shifted-Grouped k gs (none, rest) (g, u, f) = g
  Shifted-Grouped k gs (some t, rest) (g, p, q) = g

  shift_group-All :
      (P : T → Type 0) (j : K) (xs : List T) (gs : List (K × List T))
      → All P (xs ++ ungrouped gs)
      → All P (ungrouped (shift_group j xs gs).1)
  shift_group-All P j [] gs h = h
  shift_group-All P j (x ∷ xs) gs (p, h) = h

  pub shift-All :
      (P : T → Type 0) (k : K) (gs : List (K × List T))
      → All P (ungrouped gs)
      → All P (ungrouped (shift k gs).1)
  unfolding shift
  shift-All P k [] h = h
  shift-All P k ((j, xs) ∷ gs) h = elim (Bool-cases (j == k)) [
    | inl e ↦ rw e (shift_group-All P j xs gs h)
    | inr e ↦
        let (a, b) = All-take P xs (ungrouped gs) h in
        rw e (All-append P xs _ a (shift-All P k gs b))
  ]

split_item-dropped :
    {S T : Type 0} (P : T → Type 0) (s : S) (o : Option T) (later : Matches S T)
    → All P later.dropped
    → All P (split_item s o later).dropped
split_item-dropped P s none later h = h
split_item-dropped P s (some t) later h = h

-- What a split of two keyed lists promises: each item is in one part, each pair shares a key, and no
-- two items that are left over do.
pub record Splits {K S T : Type 0} (by_value : Equal K) (source_key : S → K) (target_key : T → K)
    (source : List S) (target : List T) (out : Matches S T) : Type 0 where
  pub sources : Perm source (out.created ++ map (λ p. p.0) out.matched)
  pub targets : Perm target (out.dropped ++ map (λ p. p.1) out.matched)
  pub keys : All (λ p. source_key p.0 ≡ target_key p.1) out.matched
  pub left_over :
      All
        (λ s. All (λ t. by_value.same (target_key t) (source_key s) ≡ false) out.dropped)
        out.created

module _ {K S T : Type 0} ⦃by_value : Equal K⦄ (source_key : S → K) (target_key : T → K) where
  match_from-dropped :
      (P : T → Type 0) (gs : List (K × List T)) (ss : List S)
      → All P (ungrouped gs)
      → All P (match_from source_key gs ss).dropped
  unfolding match_from
  match_from-dropped P gs [] h = h
  match_from-dropped P gs (s ∷ ss) h =
      split_item-dropped P s (shift (source_key s) gs).0
        (match_from source_key (shift (source_key s) gs).1 ss)
        (match_from-dropped P (shift (source_key s) gs).1 ss
          (shift-All target_key P (source_key s) gs h))

  split_item-Splits :
      (s : S) (ss : List S) (gs : List (K × List T)) (r : Option T × List (K × List T))
      (later : Matches S T)
      → Shifted target_key (source_key s) gs r
      → (Free target_key (source_key s) (ungrouped gs)
          → Free target_key (source_key s) later.dropped)
      → Splits by_value source_key target_key ss (ungrouped r.1) later
      → Splits by_value source_key target_key (s ∷ ss) (ungrouped gs) (split_item s r.0 later)
  split_item-Splits s ss gs (none, rest) later (g, u, f) keep h = record {
    sources = Perm.cons s h.sources;
    targets = subst (λ l. Perm l (later.dropped ++ map (λ p. p.1) later.matched)) u h.targets;
    keys = h.keys;
    left_over = (keep f, h.left_over);
  }
  split_item-Splits s ss gs (some t, rest) later (g, p, q) keep h = record {
    sources = Perm.trans (Perm.cons s h.sources) (Perm.symm (perm_middle later.created _));
    targets =
        Perm.trans p (Perm.trans (Perm.cons t h.targets) (Perm.symm (perm_middle later.dropped _)));
    keys = (sym q, h.keys);
    left_over = h.left_over;
  }

  match_from-Splits :
      (gs : List (K × List T)) (ss : List S)
      → Grouped target_key gs
      → Splits by_value source_key target_key ss (ungrouped gs) (match_from source_key gs ss)
  unfolding match_from
  match_from-Splits gs [] h = record {
    sources = Perm.refl _;
    targets = subst (Perm (ungrouped gs)) (sym (append-nil (ungrouped gs))) (Perm.refl _);
    keys = tt;
    left_over = tt;
  }
  match_from-Splits gs (s ∷ ss) h =
      let k = source_key s in
      let r = shift k gs in
      let found = shift-Shifted target_key k gs h in
      split_item-Splits s ss gs r (match_from source_key r.1 ss) found
        (λ f.
          match_from-dropped (λ t. (target_key t == k) ≡ false) r.1 ss
            (shift-All target_key (λ t. (target_key t == k) ≡ false) k gs f))
        (match_from-Splits r.1 ss (Shifted-Grouped target_key k gs r found))

  -- Matching two lists by key puts each item in one part, pairs only items of one key, and leaves no
  -- two items of one key over, whichever keys repeat.
  pub match_by_key-Splits :
      (source : List S) (target : List T)
      → Splits by_value source_key target_key source target
          (match_by_key source target source_key target_key)
  unfolding match_by_key
  match_by_key-Splits source target =
      let gs = group_from target_key [] target in
      let h = match_from-Splits gs source (group_from-Grouped target_key [] target tt) in
      record {
        sources = h.sources;
        targets =
            Perm.trans
              (subst (λ l. Perm l (ungrouped gs)) (append-nil target)
                (group_from-Perm target_key [] target))
              h.targets;
        keys = h.keys;
        left_over = h.left_over;
      }
