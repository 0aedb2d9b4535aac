-- ===== src/Querier/SharedHandle.antt =====
-- packages/orm/src/querier/abstractSharedHandleQuerierPool.ts: the one handle that a pool keeps, through
-- the acquisitions, the opens and the ends that the event loop puts in any order. A handle is the number
-- of its `openDb`.
pub mod Kept
use uql.Base.{ℕ, suc, Bool, true, false, Option, none, some, if◌then◌else◌, ◌==◌, nat_eq, ◌≡◌}

pub data HandlePhase : Type 0 where
  unopened opening opened failed closed : HandlePhase

-- `this.opening`, the phase of each handle, whether an `end` waits for it, and the next number.
pub record SharedPool : Type 0 where
  pub current : Option ℕ
  pub phase : ℕ → HandlePhase
  pub is_ending : ℕ → Bool
  pub next : ℕ

abbrev pub set_for : {A : Type 0} → ℕ → A → (ℕ → A) → ℕ → A
set_for n a f m = if n == m then a else f m

-- `this.opening ??= this.openDb()`
abbrev pub kept_or_opened : Option ℕ → SharedPool → SharedPool
kept_or_opened (some n) pool = pool
kept_or_opened none pool = record {
  current = some pool.next;
  phase = set_for pool.next opening pool.phase;
  is_ending = pool.is_ending;
  next = suc pool.next;
}

-- `getQuerier`, up to its await: it opens a handle where none is kept.
unfoldable pub get_querier : SharedPool → SharedPool
get_querier pool = kept_or_opened pool.current pool

unfoldable pub open_succeeds : ℕ → SharedPool → SharedPool
open_succeeds n pool = record pool { phase = set_for n opened pool.phase }

-- The `catch` of the open clears what the pool keeps, whichever handle that is.
unfoldable pub open_fails : ℕ → SharedPool → SharedPool
open_fails n pool = record pool { phase = set_for n failed pool.phase; current = none }

abbrev pub given_up : Option ℕ → SharedPool → SharedPool
given_up none pool = pool
given_up (some n) pool = record pool { current = none; is_ending = set_for n true pool.is_ending }

-- `end`, up to its await.
unfoldable pub end_pool : SharedPool → SharedPool
end_pool pool = given_up pool.current pool

-- The rest of `end`: a handle that opened is closed, one that failed leaves nothing to close.
abbrev pub closed_phase : HandlePhase → HandlePhase
closed_phase opened = closed
closed_phase unopened = unopened
closed_phase opening = opening
closed_phase failed = failed
closed_phase closed = closed

unfoldable pub end_settled : ℕ → SharedPool → SharedPool
end_settled n pool = record pool {
  phase = set_for n (closed_phase (pool.phase n)) pool.phase;
  is_ending = set_for n false pool.is_ending;
}

abbrev pub is_settled : HandlePhase → Bool
is_settled opened = true
is_settled failed = true
is_settled unopened = false
is_settled opening = false
is_settled closed = false

-- Whether a pool keeps no handle but this one.
abbrev pub keeps_none_but : ℕ → Option ℕ → Bool
keeps_none_but n none = true
keeps_none_but n (some m) = n == m

-- A turn. An open fails in time where the pool has no other handle by then.
pub data PoolTurn (pool : SharedPool) : SharedPool → Type 0 where
  gets : PoolTurn pool (get_querier pool)
  succeeds : (n : ℕ) → pool.phase n ≡ opening → PoolTurn pool (open_succeeds n pool)
  fails_in_time :
      (n : ℕ)
      → pool.phase n ≡ opening
      → keeps_none_but n pool.current ≡ true
      → PoolTurn pool (open_fails n pool)
  ends : PoolTurn pool (end_pool pool)
  settles :
      (n : ℕ)
      → pool.is_ending n ≡ true
      → is_settled (pool.phase n) ≡ true
      → PoolTurn pool (end_settled n pool)

pub data PoolTurns (pool : SharedPool) : SharedPool → Type 0 where
  at_start : PoolTurns pool pool
  and_turn :
      {after last : SharedPool} → PoolTurns pool after → PoolTurn after last → PoolTurns pool last

abbrev pub new_pool : SharedPool
new_pool = record { current = none; phase = λ n. unopened; is_ending = λ n. false; next = 0 }
