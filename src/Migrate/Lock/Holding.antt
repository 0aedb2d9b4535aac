-- ===== src/Migrate/Lock/Holding.antt =====
-- What a run under the lock returns, and that it returns.
use uql.Base.{ℕ, suc, ◌+◌, ◌/◌, ◌≤◌, true, false, ◌≡◌, ◌⊎◌}
use uql.Result.{Error, Result, ok, err, usage, foreign}
use uql.Migrate.Lock.{LockSession}

-- Twice more than the timeout holds whole waits.
abbrev pub fuel_for : ℕ → ℕ
fuel_for timeout = suc (timeout / 250 + 1)

-- What the clock promises: asking for the lock takes no time back, and a wait lasts its interval.
pub record ClockLaws {W : Type 0} (session : LockSession W) : Type 0 where
  pub take_later : (w : W) → session.now w ≤ session.now (session.take w).0
  pub wait_later : (w : W) → session.now w + 250 ≤ session.now (session.wait w)

module _ {W T : Type 0} (session : LockSession W) where
  -- The work ran once, from where a call of `take` answered that it took the lock, and the lock was
  -- released on what the work left; an error of the work is the one that is thrown.
  abbrev pub RanHolding : (W → W × Result T) → W × Result T → Type 0
  RanHolding work out =
      (before : W) × ((session.take before).1 ≡ ok true)
      × (out.0 ≡ (session.release (work (session.take before).0).0).0)
      × (((work (session.take before).0).1 ≡ out.1)
          ⊎ ((out.1 ≡ err foreign)
              × ((session.release (work (session.take before).0).0).1 ≡ false)))

  -- The work never ran: `take` refused at the deadline or after it.
  abbrev pub GaveUp : ℕ → W × Result T → Type 0
  GaveUp deadline out =
      (before : W) × (session.take before ≡ (out.0, ok false))
      × (deadline ≤ session.now out.0)
      × (out.1 ≡ err usage)

  -- The work never ran: a call of `take` rejected, with the error that is thrown.
  abbrev pub TakeRejected : W × Result T → Type 0
  TakeRejected out =
      (before : W) × (e : Error) × (session.take before ≡ (out.0, err e)) × (out.1 ≡ err e)

  abbrev pub Outcome : (W → W × Result T) → ℕ → W × Result T → Type 0
  Outcome work deadline out = RanHolding work out ⊎ (GaveUp deadline out ⊎ TakeRejected out)
