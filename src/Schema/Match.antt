-- ===== src/Schema/Match.antt =====
-- packages/orm/src/schema/matchByKey.ts: two keyed collections split into what only one side has and
-- the pairs that share a key.
pub mod Splits
pub mod Unique
pub mod Parts
pub mod Itself
use uql.Base.{
  ℕ, Bool, true, false, ◌&&◌, not, List, [], ◌∷◌, ◌++◌, Option, none, some, if◌then◌else◌, ◌==◌,
  Equal, any, filter, map, flat_map, length, nat_eq,
}

pub record Matches (S T : Type 0) : Type 0 where
  pub created : List S
  pub dropped : List T
  pub matched : List (S × T)

module _ {K T : Type 0} ⦃by_value : Equal K⦄ where
  -- `Map.groupBy`: the groups in the order of their first items.
  unfoldable pub add_to_group : K → T → List (K × List T) → List (K × List T)
  add_to_group k x [] = (k, x ∷ []) ∷ []
  add_to_group k x ((j, xs) ∷ gs) =
      let later = add_to_group k x gs in if j == k then (j, xs ++ x ∷ []) ∷ gs else (j, xs) ∷ later

  unfoldable pub group_from : (T → K) → List (K × List T) → List T → List (K × List T)
  group_from key gs [] = gs
  group_from key gs (x ∷ xs) = group_from key (add_to_group (key x) x gs) xs

  abbrev pub shift_group : K → List T → List (K × List T) → Option T × List (K × List T)
  shift_group j [] gs = (none, (j, []) ∷ gs)
  shift_group j (x ∷ xs) gs = (some x, (j, xs) ∷ gs)

  -- `unpaired.get(key)?.shift()`, and what it leaves.
  unfoldable pub shift : K → List (K × List T) → Option T × List (K × List T)
  shift k [] = (none, [])
  shift k ((j, xs) ∷ gs) =
      let later = shift k gs in if j == k then shift_group j xs gs else (later.0, (j, xs) ∷ later.1)

  -- `[...unpaired.values()].flat()`
  abbrev pub ungrouped : List (K × List T) → List T
  ungrouped [] = []
  ungrouped ((j, xs) ∷ gs) = xs ++ ungrouped gs

module _ {S T : Type 0} where
  abbrev pub split_item : S → Option T → Matches S T → Matches S T
  split_item s none later = record later { created = s ∷ later.created }
  split_item s (some t) later = record later { matched = (s, t) ∷ later.matched }

module _ {K S T : Type 0} ⦃by_value : Equal K⦄ where
  -- The loop of `matchByKey`.
  unfoldable pub match_from : (S → K) → List (K × List T) → List S → Matches S T
  match_from key unpaired [] = record { created = []; dropped = ungrouped unpaired; matched = [] }
  match_from key unpaired (s ∷ ss) =
      let found = shift (key s) unpaired in split_item s found.0 (match_from key found.1 ss)

  unfoldable pub match_by_key : List S → List T → (S → K) → (T → K) → Matches S T
  match_by_key source target source_key target_key =
      match_from source_key (group_from target_key [] target) source

-- `pairUnique`, the pairs of it on their own.
module _ {S T : Type 0} (same : S → T → Bool) where
  abbrev pub pair_one : List S → S → List T → List (S × T)
  pair_one created source (target ∷ []) =
      if length (filter (λ other. same other target) created) == 1
      then (source, target) ∷ []
      else []
  pair_one created source _ = []

  unfoldable pub pairs_from : List S → List T → List S → List (S × T)
  pairs_from created dropped sources =
      flat_map (λ s. pair_one created s (filter (same s) dropped)) sources

  unfoldable pub unique_pairs : List S → List T → List (S × T)
  unique_pairs created dropped = pairs_from created dropped created

-- `S` and `T` compare as the items' identities do.
module _ {S T : Type 0} ⦃same_source : Equal S⦄ ⦃same_target : Equal T⦄ where
  unfoldable pub pair_unique : List S → List T → (S → T → Bool) → Matches S T
  pair_unique created dropped same =
      let matched = unique_pairs same created dropped in
      record {
        created = filter (λ s. not (any (λ p. p.0 == s) matched)) created;
        dropped = filter (λ t. not (any (λ p. p.1 == t) matched)) dropped;
        matched = matched;
      }
