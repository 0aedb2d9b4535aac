-- ===== src/Querier/PoolTests.antt =====
-- The handle of a pool through concrete turns, for
-- packages/orm/src/querier/abstractSharedHandleQuerierPool.ts.
use uql.Base.{ℕ, true, false, none, ◌≡◌, refl}
use uql.Querier.SharedHandle.{
  opening, SharedPool, get_querier, open_succeeds, open_fails, end_pool, PoolTurns, at_start,
  and_turn, gets, succeeds, ends, new_pool,
}
use uql.Querier.SharedHandle.Kept.{is_live, Reachable, PoolTurns-Reachable}

-- Ended while the first open is in flight, then asked again.
abbrev asked_again : SharedPool
asked_again = get_querier (end_pool (get_querier new_pool))

-- Where the first open fails then, the second handle is neither kept nor closed.
late_failure_run :
    ((open_fails 0 asked_again).current ≡ none)
    × ((open_fails 0 asked_again).phase 1 ≡ opening)
    × ((open_fails 0 asked_again).is_ending 1 ≡ false)
unfolding get_querier end_pool open_fails
late_failure_run = (refl, refl, refl)

asked_again-PoolTurns : PoolTurns new_pool (open_succeeds 0 asked_again)
unfolding get_querier end_pool
asked_again-PoolTurns =
    and_turn (and_turn (and_turn (and_turn at_start gets) ends) gets) (succeeds 0 refl)

PoolTurns-Reachable_example :
    Reachable (open_succeeds 0 asked_again)
    × ((m n : ℕ)
        → is_live ((open_succeeds 0 asked_again).phase m) ≡ true
        → is_live ((open_succeeds 0 asked_again).phase n) ≡ true
        → (open_succeeds 0 asked_again).is_ending m ≡ false
        → (open_succeeds 0 asked_again).is_ending n ≡ false
        → m ≡ n)
PoolTurns-Reachable_example = PoolTurns-Reachable asked_again-PoolTurns
