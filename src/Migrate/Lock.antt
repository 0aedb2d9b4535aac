-- ===== src/Migrate/Lock.antt =====
-- `holdingLock` of packages/orm/src/migrate/migrationLock.ts: a run's work under the migration lock.
pub mod Holding
use uql.Base.{ℕ, zero, suc, ◌+◌, Bool, true, false, Option, none, some, if◌then◌else◌, leb}
use uql.Result.{Result, ok, err, usage, foreign}

-- What a run uses of its surroundings, whose state is `W`: the lock, as `MigrationLock` has it: `take`
-- answers whether it took the lock, or rejects, and `release` says whether it succeeded; the clock; and the wait of `POLL_INTERVAL`.
pub record LockSession (W : Type 0) : Type 0 where
  pub take : W → W × Result Bool
  pub release : W → W × Bool
  pub now : W → ℕ
  pub wait : W → W

module _ {W T : Type 0} (session : LockSession W) where
  -- A release that fails is an error only after work that ended.
  abbrev pub ended_by : Result T → W × Bool → W × Result T
  ended_by (ok x) (w, true) = (w, ok x)
  ended_by (ok x) (w, false) = (w, err foreign)
  ended_by (err e) (w, released) = (w, err e)

  abbrev pub finish : (W → W × Result T) → W → W × Result T
  finish work w = let r = work w in ended_by r.1 (session.release r.0)

  -- What follows a call of `take`: a rejection is thrown, and a refusal at the deadline ends the loop.
  abbrev pub asked :
      (W → W × Result T) → ℕ → W → Result Bool → Option (W × Result T) → Option (W × Result T)
  asked work deadline after (err e) later = some (after, err e)
  asked work deadline after (ok true) later = some (finish work after)
  asked work deadline after (ok false) later =
      if leb deadline (session.now after) then some (after, err usage) else later

  -- The loop asks for the lock again until the deadline: `none` is where the fuel ends it first.
  unfoldable pub ask : (W → W × Result T) → (deadline : ℕ) → (fuel : ℕ) → W → Option (W × Result T)
  ask work deadline zero w = none
  ask work deadline (suc fuel) w =
      let (after, took) = session.take w in
      let later = ask work deadline fuel (session.wait after) in
      asked work deadline after took later

  unfoldable pub holding_lock :
      (timeout : ℕ) → (fuel : ℕ) → (W → W × Result T) → W → Option (W × Result T)
  unfolding ask
  holding_lock timeout fuel work w = ask work (session.now w + timeout) fuel w
