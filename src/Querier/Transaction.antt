-- ===== src/Querier/Transaction.antt =====
-- packages/orm/src/querier/transaction.ts: the slot of a connection, which one transaction holds at a
-- time, and the scopes that nest in it. A transaction is a number, and a turn of the event loop is a
-- step: what runs between two awaits.
pub mod Exclusion
use uql.Base.{
  ℕ, zero, suc, ◌+◌, Bool, true, false, Option, none, some, if◌then◌else◌, ◌==◌, nat_eq, ◌≡◌,
}

-- Where a transaction is: before its first look at the slot, waiting for the `ended` of the one that
-- holds it, woken by that, holding the slot, or ended.
pub data Phase : Type 0 where
  starting waiting woken holding finished : Phase

-- The slot, and the phase of each transaction on its connection.
pub record Connection : Type 0 where
  pub held : Option ℕ
  pub phase : ℕ → Phase

abbrev pub set_phase : ℕ → Phase → (ℕ → Phase) → ℕ → Phase
set_phase n p phase m = if n == m then p else phase m

-- A turn of the loop of `claim`.
unfoldable pub claim_turn : ℕ → Connection → Connection
claim_turn n c = elim c.held [
  | some m ↦ record c { phase = set_phase n waiting c.phase }
  | none ↦ record { held = some n; phase = set_phase n holding c.phase }
]

abbrev pub holds : Option ℕ → ℕ → Bool
holds none n = false
holds (some m) n = m == n

-- `held.end()` wakes whoever waits for it.
abbrev pub wake : Phase → Phase
wake waiting = woken
wake starting = starting
wake woken = woken
wake holding = holding
wake finished = finished

-- `free`: the transaction that the slot holds ends.
unfoldable pub free : Connection → Connection
free c = record { held = none; phase = λ m. if holds c.held m then finished else wake (c.phase m) }

-- Whether the transaction's code runs `claim` next.
abbrev pub may_claim : Phase → Bool
may_claim starting = true
may_claim woken = true
may_claim _ = false

pub data Turn (c : Connection) : Connection → Type 0 where
  claims : (n : ℕ) → may_claim (c.phase n) ≡ true → Turn c (claim_turn n c)
  frees : (n : ℕ) → c.held ≡ some n → Turn c (free c)

pub data Turns (c : Connection) : Connection → Type 0 where
  start : Turns c c
  turn : {d e : Connection} → Turns c d → Turn d e → Turns c e

-- A connection that no transaction used yet.
abbrev pub fresh : Connection
fresh = record { held = none; phase = λ n. starting }

-- A scope: a transaction of its own, or one nested in another.
pub data TransactionScope : Type 0 where
  root : ℕ → TransactionScope
  nested_in : TransactionScope → TransactionScope

unfoldable pub root_of : TransactionScope → ℕ
root_of (root n) = n
root_of (nested_in parent) = root_of parent

unfoldable pub depth_of : TransactionScope → ℕ
depth_of (root n) = 0
depth_of (nested_in parent) = depth_of parent + 1

-- `currentTransaction`, where the active flow runs in `scope`.
unfoldable pub current_transaction : Connection → TransactionScope → Option TransactionScope
unfolding root_of
current_transaction c scope = if holds c.held (root_of scope) then some scope else none
