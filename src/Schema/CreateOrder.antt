-- ===== src/Schema/CreateOrder.antt =====
-- packages/orm/src/schema/dependencyGraph.ts: nodes in creation order. `visit` runs on fuel, one for each
-- call that is under way, and is none where it runs out.
pub mod Dependencies
use uql.Base.{
  ℕ, zero, suc, Bool, true, false, Option, none, some, if◌then◌else◌, ◌==◌, Equal, List, [], ◌∷◌,
  ◌++◌, any,
}

-- What the closure `visit` writes to: the set `visited`, and `ordered`.
pub record Walked (N : Type 0) : Type 0 where
  pub visited : List N
  pub ordered : List N

module _ {N : Type 0} where
  abbrev pub and_then : Option (Walked N) → (Walked N → Option (Walked N)) → Option (Walked N)
  and_then none next = none
  and_then (some w) next = next w

  abbrev pub mark : N → Walked N → Walked N
  mark node w = record { visited = node ∷ w.visited; ordered = w.ordered }

  abbrev pub push : N → Walked N → Option (Walked N)
  push node w = some (record { visited = w.visited; ordered = w.ordered ++ node ∷ [] })

  abbrev pub ordered_of : Option (Walked N) → Option (List N)
  ordered_of none = none
  ordered_of (some w) = some w.ordered

module _ {N : Type 0} ⦃same_node : Equal N⦄ (dependencies_of : N → List N) where
  unfoldable pub visit_each :
      (N → Walked N → Option (Walked N)) → List N → Walked N → Option (Walked N)
  visit_each visit [] w = some w
  visit_each visit (node ∷ nodes) w = and_then (visit node w) (visit_each visit nodes)

  unfoldable pub visit : ℕ → N → Walked N → Option (Walked N)
  visit zero node w = none
  visit (suc fuel) node w =
      let below = visit_each (visit fuel) (dependencies_of node) (mark node w) in
      if any (λ n. n == node) w.visited then some w else and_then below (push node)

  unfoldable pub create_order : ℕ → List N → Option (List N)
  create_order fuel nodes =
      ordered_of (visit_each (visit fuel) nodes (record { visited = []; ordered = [] }))
