-- ===== src/Schema/Match/Parts.antt =====
-- What holds of each item that `matchByKey` (packages/orm/src/schema/matchByKey.ts) is given holds of
-- each that it has in a part.
use uql.Base.{
  List, [], ◌∷◌, ◌++◌, Option, none, some, ◌==◌, Equal, Bool-cases, inl, inr, All, All-append,
  All-take,
}
use uql.Schema.Match.{
  Matches, add_to_group, group_from, shift, shift_group, ungrouped, split_item, match_from,
  match_by_key,
}
use uql.Schema.Match.Splits.{shift-All}

module _ {T : Type 0} (Q : T → Type 0) where
  abbrev Found : Option T → Type 0
  Found none = Unit
  Found (some t) = Q t

module _ {K T : Type 0} ⦃by_value : Equal K⦄ (Q : T → Type 0) where
  add_to_group-All :
      (k : K) (x : T) (gs : List (K × List T))
      → Q x
      → All Q (ungrouped gs)
      → All Q (ungrouped (add_to_group k x gs))
  unfolding add_to_group
  add_to_group-All k x [] q h = (q, tt)
  add_to_group-All k x ((j, xs) ∷ gs) q h =
      let (a, b) = All-take Q xs (ungrouped gs) h in
      elim (Bool-cases (j == k)) [
        | inl e ↦
            rw e (All-append Q (xs ++ x ∷ []) (ungrouped gs) (All-append Q xs (x ∷ []) a (q, tt)) b)
        | inr e ↦ rw e (All-append Q xs _ a (add_to_group-All k x gs q b))
      ]

  group_from-All :
      (key : T → K) (gs : List (K × List T)) (xs : List T)
      → All Q (ungrouped gs)
      → All Q xs
      → All Q (ungrouped (group_from key gs xs))
  unfolding group_from
  group_from-All key gs [] h k = h
  group_from-All key gs (x ∷ xs) h (q, k) =
      group_from-All key (add_to_group (key x) x gs) xs (add_to_group-All (key x) x gs q h) k

  shift_group-Found :
      (j : K) (xs : List T) (gs : List (K × List T)) → All Q xs → Found Q (shift_group j xs gs).0
  shift_group-Found j [] gs h = tt
  shift_group-Found j (x ∷ xs) gs (q, h) = q

  shift-Found : (k : K) (gs : List (K × List T)) → All Q (ungrouped gs) → Found Q (shift k gs).0
  unfolding shift
  shift-Found k [] h = tt
  shift-Found k ((j, xs) ∷ gs) h =
      let (a, b) = All-take Q xs (ungrouped gs) h in
      elim (Bool-cases (j == k)) [
        | inl e ↦ rw e (shift_group-Found j xs gs a)
        | inr e ↦ rw e (shift-Found k gs b)
      ]

module _ {S T : Type 0} (P : S → Type 0) (Q : T → Type 0) where
  abbrev pub InParts : Matches S T → Type 0
  InParts out = All P out.created × All Q out.dropped × All (λ p. P p.0 × Q p.1) out.matched

  split_item-InParts :
      (s : S) (o : Option T) (later : Matches S T)
      → P s
      → Found Q o
      → InParts later
      → InParts (split_item s o later)
  split_item-InParts s none later p q (a, b, c) = ((p, a), b, c)
  split_item-InParts s (some t) later p q (a, b, c) = (a, b, ((p, q), c))

module _ {K S T : Type 0} ⦃by_value : Equal K⦄ (P : S → Type 0) (Q : T → Type 0) where
  match_from-InParts :
      (key : S → K) (target_key : T → K) (gs : List (K × List T)) (ss : List S)
      → All P ss
      → All Q (ungrouped gs)
      → InParts P Q (match_from key gs ss)
  unfolding match_from
  match_from-InParts key target_key gs [] h k = (tt, k, tt)
  match_from-InParts key target_key gs (s ∷ ss) (p, h) k =
      split_item-InParts P Q s (shift (key s) gs).0 (match_from key (shift (key s) gs).1 ss) p
        (shift-Found Q (key s) gs k)
        (match_from-InParts key target_key (shift (key s) gs).1 ss h
          (shift-All target_key Q (key s) gs k))

  pub match_by_key-InParts :
      (source : List S) (target : List T) (source_key : S → K) (target_key : T → K)
      → All P source
      → All Q target
      → InParts P Q (match_by_key source target source_key target_key)
  unfolding match_by_key
  match_by_key-InParts source target source_key target_key h k =
      match_from-InParts source_key target_key (group_from target_key [] target) source h
        (group_from-All Q target_key [] target tt k)
