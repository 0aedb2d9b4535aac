-- ===== src/Querier/Transaction/Exclusion.antt =====
-- One transaction holds a connection at a time, and none waits for a slot that is free.
use uql.Base.{
  ℕ, Bool, true, false, Option, none, some, if◌then◌else◌, ◌==◌, nat_eq, ◌≡◌, ◌≢◌, refl, sym, ap,
  ◌∙◌, inl, inr, Bool-cases, false_true, some_eq, ==_iff, ==_refl,
}
use uql.Querier.Transaction.{
  Phase, starting, waiting, woken, holding, finished, Connection, claim_turn, wake, free, may_claim,
  Turn, claims, frees, Turns, start, turn, fresh, TransactionScope, root_of, holds,
  current_transaction,
}

-- What the phase of a transaction says of the slot: the one that holds it is the one in the slot, and
-- one that waits has something to wait for.
PhaseFits : Option ℕ → ℕ → Phase → Type 0
PhaseFits held n holding = held ≡ some n
PhaseFits held n waiting = held ≢ none
PhaseFits held n _ = held ≢ some n

pub IsSound : Connection → Type 0
unfolding PhaseFits
IsSound c = (n : ℕ) → PhaseFits c.held n (c.phase n)

PhaseFits-none :
    (n : ℕ) (p : Phase) (b : Bool)
    → (p ≡ holding → b ≡ true)
    → PhaseFits none n (if b then finished else wake p)
unfolding PhaseFits
PhaseFits-none n p true f = λ e. cc
PhaseFits-none n starting false f = λ e. cc
PhaseFits-none n waiting false f = λ e. cc
PhaseFits-none n woken false f = λ e. cc
PhaseFits-none n holding false f = false_true (sym (f refl))
PhaseFits-none n finished false f = λ e. cc

held_by :
    (n : ℕ) (held : Option ℕ) (p : Phase) → PhaseFits held n p → p ≡ holding → holds held n ≡ true
unfolding PhaseFits
held_by n held holding f e = rw f (==_refl n)
held_by n held starting f e = cc
held_by n held waiting f e = cc
held_by n held woken f e = cc
held_by n held finished f e = cc

free-IsSound : (c : Connection) → IsSound c → IsSound (free c)
unfolding IsSound free
free-IsSound c h n =
    PhaseFits-none n (c.phase n) (holds c.held n) (held_by n c.held (c.phase n) (h n))

PhaseFits-taken :
    (m n : ℕ) (p : Phase) (b : Bool)
    → (m == n) ≡ b
    → PhaseFits none n p
    → PhaseFits (some m) n (if b then holding else p)
unfolding PhaseFits
PhaseFits-taken m n p true e f = ap some ((==_iff m n).0 e)
PhaseFits-taken m n starting false e f = λ q. false_true (sym ((==_iff m n).1 (some_eq q)) ∙ e)
PhaseFits-taken m n waiting false e f = λ q. cc
PhaseFits-taken m n woken false e f = λ q. false_true (sym ((==_iff m n).1 (some_eq q)) ∙ e)
PhaseFits-taken m n holding false e f = cc
PhaseFits-taken m n finished false e f = λ q. false_true (sym ((==_iff m n).1 (some_eq q)) ∙ e)

PhaseFits-waits :
    (k n : ℕ) (p : Phase) (b : Bool)
    → PhaseFits (some k) n p
    → PhaseFits (some k) n (if b then waiting else p)
unfolding PhaseFits
PhaseFits-waits k n p true f = λ q. cc
PhaseFits-waits k n p false f = f

-- A connection whose slot holds `held`, once transaction `m` looked at it.
claimed-IsSound :
    (m : ℕ) (held : Option ℕ) (phase : ℕ → Phase)
    → IsSound (record { held = held; phase = phase })
    → IsSound (claim_turn m (record { held = held; phase = phase }))
unfolding IsSound claim_turn
claimed-IsSound m none phase h n = PhaseFits-taken m n (phase n) (m == n) refl (h n)
claimed-IsSound m (some k) phase h n = PhaseFits-waits k n (phase n) (m == n) (h n)

Turn-IsSound : {c d : Connection} → Turn c d → IsSound c → IsSound d
Turn-IsSound {c} (claims n e) h = claimed-IsSound n c.held c.phase h
Turn-IsSound {c} (frees n e) h = free-IsSound c h

-- Whatever turns a connection took, each transaction that holds it is the one in its slot, and each
-- that waits has one to wait for: no wake is lost.
pub Turns-IsSound : {c : Connection} → Turns fresh c → IsSound c
Turns-IsSound start = unfold IsSound PhaseFits in λ n e. cc
Turns-IsSound (turn ts t) = Turn-IsSound t (Turns-IsSound ts)

holding_in :
    (held : Option ℕ) (n : ℕ) (p : Phase) → PhaseFits held n p → p ≡ holding → held ≡ some n
unfolding PhaseFits
holding_in held n holding f e = f
holding_in held n starting f e = cc
holding_in held n waiting f e = cc
holding_in held n woken f e = cc
holding_in held n finished f e = cc

waiting_in : (held : Option ℕ) (n : ℕ) (p : Phase) → PhaseFits held n p → p ≡ waiting → held ≢ none
unfolding PhaseFits
waiting_in held n waiting f e = f
waiting_in held n starting f e = cc
waiting_in held n holding f e = cc
waiting_in held n woken f e = cc
waiting_in held n finished f e = cc

-- Whatever turns a connection took, while one transaction holds it no other does.
pub Turns-exclusive :
    {c : Connection} (m n : ℕ) → Turns fresh c → c.phase m ≡ holding → m ≢ n → c.phase n ≢ holding
unfolding IsSound
Turns-exclusive {c} m n ts hm differ hn =
    let sound = Turns-IsSound ts in
    differ (
      some_eq (
        sym (holding_in c.held m (c.phase m) (sound m) hm)
        ∙ holding_in c.held n (c.phase n) (sound n) hn))

-- Whatever turns a connection took, no transaction waits for it once its slot is free: each was woken.
pub Turns-woken : {c : Connection} (n : ℕ) → Turns fresh c → c.held ≡ none → c.phase n ≢ waiting
unfolding IsSound
Turns-woken {c} n ts free_slot e = waiting_in c.held n (c.phase n) (Turns-IsSound ts n) e free_slot

finished_free :
    (n : ℕ) (p : Phase) (b : Bool) → p ≡ finished → (if b then finished else wake p) ≡ finished
finished_free n p true e = refl
finished_free n finished false e = refl
finished_free n starting false e = cc
finished_free n waiting false e = cc
finished_free n woken false e = cc
finished_free n holding false e = cc

unclaimed :
    (m n : ℕ) (p q : Phase) (b : Bool)
    → (m == n) ≡ b
    → p ≡ finished
    → (m ≡ n → may_claim finished ≡ true)
    → (if b then q else p) ≡ finished
unclaimed m n p q true e f g = false_true (sym (g ((==_iff m n).0 e)))
unclaimed m n p q false e f g = f

finished_claim :
    (m n : ℕ) (held : Option ℕ) (phase : ℕ → Phase)
    → may_claim (phase m) ≡ true
    → phase n ≡ finished
    → (claim_turn m (record { held = held; phase = phase })).phase n ≡ finished
unfolding claim_turn
finished_claim m n none phase e f =
    unclaimed m n (phase n) holding (m == n) refl f (λ q. ap may_claim (sym (ap phase q ∙ f)) ∙ e)
finished_claim m n (some k) phase e f =
    unclaimed m n (phase n) waiting (m == n) refl f (λ q. ap may_claim (sym (ap phase q ∙ f)) ∙ e)

Turn-finished : {c d : Connection} (n : ℕ) → Turn c d → c.phase n ≡ finished → d.phase n ≡ finished
unfolding free
Turn-finished {c} n (claims m h) e = finished_claim m n c.held c.phase h e
Turn-finished {c} n (frees m h) e = finished_free n (c.phase n) (holds c.held n) e

Turns-finished :
    {c d : Connection} (n : ℕ) → Turns c d → c.phase n ≡ finished → d.phase n ≡ finished
Turns-finished n start e = e
Turns-finished n (turn ts t) e = Turn-finished n t (Turns-finished n ts e)

Turns-append : {c d e : Connection} → Turns c d → Turns d e → Turns c e
Turns-append ts start = ts
Turns-append ts (turn us u) = turn (Turns-append ts us) u

not_held :
    (held : Option ℕ) (n : ℕ) (p : Phase) → PhaseFits held n p → p ≡ finished → holds held n ≡ false
unfolding PhaseFits
not_held none n finished f e = refl
not_held (some m) n finished f e = elim (Bool-cases (m == n)) [
  | inl q ↦ absurd (f (ap some ((==_iff m n).0 q)))
  | inr q ↦ q
]
not_held held n starting f e = cc
not_held held n waiting f e = cc
not_held held n woken f e = cc
not_held held n holding f e = cc

-- Once the transaction that a scope is in has ended, the scope is current at no later time, whatever
-- turns the connection takes.
pub Turns-current_transaction :
    {c d : Connection} (scope : TransactionScope)
    → Turns fresh c
    → c.phase (root_of scope) ≡ finished
    → Turns c d
    → current_transaction d scope ≡ none
unfolding current_transaction IsSound
Turns-current_transaction {d = d} scope ts e us =
    let n = root_of scope in
    rw
      (not_held d.held n (d.phase n) (Turns-IsSound (Turns-append ts us) n) (Turns-finished n us e))
      refl
