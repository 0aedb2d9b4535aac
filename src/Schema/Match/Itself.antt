-- ===== src/Schema/Match/Itself.antt =====
-- A keyed list matched with itself: each item is its own counterpart, whichever keys repeat.
use mathlib.Core.List.{append_assoc, append-nil, head?}
use mathlib.Core.Path.{ap₂}
use uql.Base.{
  Bool, true, false, List, [], ◌∷◌, ◌++◌, Option, none, some, if◌then◌else◌, ◌==◌, ==_iff, ==_refl,
  Equal, any, map, filter, ◌≡◌, refl, sym, ap, ◌∙◌, subst, Bool-cases, inl, inr, or_false,
  false_true, some_eq,
}
use uql.Schema.Match.{
  Matches, add_to_group, group_from, shift, shift_group, ungrouped, split_item, match_from,
  match_by_key,
}
use uql.Schema.Match.Splits.{Grouped, group_from-Grouped, shift-Shifted, Shifted-Grouped}

abbrev rest_of : {T : Type 0} → List T → List T
rest_of [] = []
rest_of (x ∷ xs) = xs

abbrev pub twice : {T : Type 0} → T → T × T
twice x = (x, x)

differs :
    {K : Type 0} ⦃by_value : Equal K⦄ (i j k : K)
    → (i == j) ≡ true
    → (i == k) ≡ false
    → (k == j) ≡ false
differs i j k e f = elim (Bool-cases (k == j)) [
  | inl g ↦ false_true (sym ((==_iff i k).1 ((==_iff i j).0 e ∙ sym ((==_iff k j).0 g))) ∙ f)
  | inr g ↦ g
]

one_more :
    {T : Type 0} (b : Bool) (x : T) (xs : List T)
    → (if b then x ∷ [] else []) ++ xs ≡ (if b then x ∷ xs else xs)
one_more true x xs = refl
one_more false x xs = refl

module _ {T : Type 0} where
  Twins : List T → Matches T T → Type 0
  Twins xs out = (out.created ≡ []) × (out.dropped ≡ []) × (out.matched ≡ map twice xs)

  split_item-Twins :
      (x : T) (xs : List T) (o : Option T) (later : Matches T T)
      → o ≡ some x
      → Twins xs later
      → Twins (x ∷ xs) (split_item x o later)
  unfolding Twins
  split_item-Twins x xs none later e (a, b, c) = cc
  split_item-Twins x xs (some y) later e (a, b, c) = (a, b, ap₂ (λ z l. (x, z) ∷ l) (some_eq e) c)

module _ {K T : Type 0} ⦃by_value : Equal K⦄ where
  abbrev lookup : K → List (K × List T) → List T
  lookup k [] = []
  lookup k ((j, xs) ∷ gs) = let later = lookup k gs in if j == k then xs else later

  lookup-add :
      (j k : K) (x : T) (gs : List (K × List T))
      → lookup j (add_to_group k x gs) ≡ lookup j gs ++ (if k == j then x ∷ [] else [])
  unfolding add_to_group
  lookup-add j k x [] = elim (Bool-cases (k == j)) [ inl e ↦ rw e refl | inr e ↦ rw e refl ]
  lookup-add j k x ((i, xs) ∷ gs) = elim (Bool-cases (i == k)) [
    | inl e ↦
        let same = (==_iff i k).0 e in
        elim (Bool-cases (k == j)) [
          | inl f ↦ rw (e, ap (λ y. y == j) same, f) refl
          | inr f ↦ rw (e, ap (λ y. y == j) same, f) (sym (append-nil _))
        ]
    | inr e ↦ elim (Bool-cases (i == j)) [
      | inl f ↦ rw (e, f, differs i j k f e) (sym (append-nil xs))
      | inr f ↦ rw (e, f) (lookup-add j k x gs)
    ]
  ]

  lookup-group_from :
      (key : T → K) (j : K) (gs : List (K × List T)) (xs : List T)
      → lookup j (group_from key gs xs) ≡ lookup j gs ++ filter (λ x. key x == j) xs
  unfolding group_from
  lookup-group_from key j gs [] = sym (append-nil (lookup j gs))
  lookup-group_from key j gs (x ∷ xs) =
      lookup-group_from key j (add_to_group (key x) x gs) xs
      ∙ ap (λ l. l ++ filter (λ y. key y == j) xs) (lookup-add j (key x) x gs)
      ∙ append_assoc (lookup j gs) _ _
      ∙ ap (λ l. lookup j gs ++ l) (one_more (key x == j) x (filter (λ y. key y == j) xs))

  shift_group-found :
      (j : K) (xs : List T) (gs : List (K × List T)) → (shift_group j xs gs).0 ≡ head? xs
  shift_group-found j [] gs = refl
  shift_group-found j (x ∷ xs) gs = refl

  shift-found : (k : K) (gs : List (K × List T)) → (shift k gs).0 ≡ head? (lookup k gs)
  unfolding shift
  shift-found k [] = refl
  shift-found k ((j, xs) ∷ gs) = elim (Bool-cases (j == k)) [
    | inl e ↦ rw e (shift_group-found j xs gs)
    | inr e ↦ rw e (shift-found k gs)
  ]

  shift_group-lookup :
      (i j : K) (xs : List T) (gs : List (K × List T))
      → lookup i (shift_group j xs gs).1 ≡ (if j == i then rest_of xs else lookup i gs)
  shift_group-lookup i j [] gs = refl
  shift_group-lookup i j (x ∷ xs) gs = refl

  shift-lookup :
      (i k : K) (gs : List (K × List T))
      → lookup i (shift k gs).1 ≡ (if k == i then rest_of (lookup k gs) else lookup i gs)
  unfolding shift
  shift-lookup i k [] = elim (Bool-cases (k == i)) [ inl e ↦ rw e refl | inr e ↦ rw e refl ]
  shift-lookup i k ((j, xs) ∷ gs) = elim (Bool-cases (j == k)) [
    | inl e ↦
        let same = (==_iff j k).0 e in
        rw (e, shift_group-lookup i j xs gs, ap (λ y. y == i) same)
          (elim (Bool-cases (k == i)) [ inl f ↦ rw f refl | inr f ↦ rw f refl ])
    | inr e ↦ elim (Bool-cases (j == i)) [
      | inl f ↦ rw (e, f, differs j i k f e) refl
      | inr f ↦ rw (e, f) (shift-lookup i k gs)
    ]
  ]

  lookup-absent :
      (k : K) (gs : List (K × List T)) → any (λ g. g.0 == k) gs ≡ false → lookup k gs ≡ []
  lookup-absent k [] h = refl
  lookup-absent k ((j, xs) ∷ gs) h =
      let (a, b) = or_false (j == k) _ h in rw a (lookup-absent k gs b)

  all_taken :
      (key : T → K) (gs : List (K × List T))
      → Grouped key gs
      → ((k : K) → lookup k gs ≡ [])
      → ungrouped gs ≡ []
  all_taken key [] h f = refl
  all_taken key ((j, xs) ∷ gs) (a, b, c) f =
      let here : xs ≡ [] = sym (rw (==_refl j) refl) ∙ f j in
      ap₂ (λ l m. l ++ m) here
        (all_taken key gs c (λ k. elim (Bool-cases (j == k)) [
          | inl e ↦ subst (λ i. lookup i gs ≡ []) ((==_iff j k).0 e) (lookup-absent j gs b)
          | inr e ↦ sym (rw e refl) ∙ f k
        ]))

  match_from-Twins :
      (key : T → K) (gs : List (K × List T)) (xs : List T)
      → Grouped key gs
      → ((k : K) → lookup k gs ≡ filter (λ x. key x == k) xs)
      → Twins xs (match_from key gs xs)
  unfolding match_from
  match_from-Twins key gs [] h f = unfold Twins in (refl, all_taken key gs h f, refl)
  match_from-Twins key gs (x ∷ xs) h f =
      let k = key x in
      let r = shift k gs in
      let own : lookup k gs ≡ x ∷ filter (λ y. key y == k) xs = f k ∙ (rw (==_refl k) refl) in
      split_item-Twins x xs r.0 (match_from key r.1 xs) (shift-found k gs ∙ ap head? own) (
        match_from-Twins key r.1 xs (Shifted-Grouped key k gs r (shift-Shifted key k gs h)) (λ j.
          shift-lookup j k gs ∙ elim (Bool-cases (k == j)) [
            | inl e ↦
                rw e (ap rest_of own ∙ ap (λ i. filter (λ y. key y == i) xs) ((==_iff k j).0 e))
            | inr e ↦ rw e (f j ∙ (rw e refl))
          ]))

  -- Matched with itself, a list leaves nothing over, and each item is its own counterpart.
  pub match_by_key-itself :
      (key : T → K) (xs : List T)
      → match_by_key xs xs key key ≡ record { created = []; dropped = []; matched = map twice xs }
  unfolding match_by_key Twins
  match_by_key-itself key xs =
      let (a, b, c) =
        match_from-Twins key (group_from key [] xs) xs (group_from-Grouped key [] xs tt)
          (λ k. lookup-group_from key k [] xs) in
      λ i. record { created = a i; dropped = b i; matched = c i }
