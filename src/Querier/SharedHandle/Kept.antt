-- ===== src/Querier/SharedHandle/Kept.antt =====
-- No handle of the pool of packages/orm/src/querier/abstractSharedHandleQuerierPool.ts is lost.
use uql.Base.{
  ℕ, Bool, true, false, Option, none, some, ◌==◌, ==_iff, nat_eq, ◌≡◌, ◌⊎◌, inl, inr, refl, sym, ap,
  ◌∙◌, subst, Bool-cases, false_true, some_eq,
}
use uql.Querier.SharedHandle.{
  HandlePhase, unopened, opening, opened, failed, closed, SharedPool, set_for, kept_or_opened,
  given_up, get_querier, open_succeeds, open_fails, end_pool, closed_phase, end_settled,
  keeps_none_but, is_settled, PoolTurn, gets, succeeds, fails_in_time, ends, settles, PoolTurns,
  at_start, and_turn, new_pool,
}

-- A handle that is being opened, or was opened and is not closed.
abbrev pub is_live : HandlePhase → Bool
is_live opening = true
is_live opened = true
is_live unopened = false
is_live failed = false
is_live closed = false

-- The pool keeps each live handle, or an `end` waits to close it.
abbrev pub Reachable : SharedPool → Type 0
Reachable pool =
    (n : ℕ) → is_live (pool.phase n) ≡ true → (pool.current ≡ some n) ⊎ (pool.is_ending n ≡ true)

kept_or_opened-Reachable :
    (o : Option ℕ) (pool : SharedPool)
    → pool.current ≡ o
    → Reachable pool
    → Reachable (kept_or_opened o pool)
kept_or_opened-Reachable (some n) pool e h m live = h m live
kept_or_opened-Reachable none pool e h m live = elim (Bool-cases (pool.next == m)) [
  | inl f ↦ inl (ap some ((==_iff pool.next m).0 f))
  | inr f ↦ elim (h m (sym (rw f refl) ∙ live)) [
    | inl g ↦ let never : ⊥ = cc in elim never [ ]
    | inr g ↦ inr g
  ]
]

open_succeeds-Reachable :
    (n : ℕ) (pool : SharedPool)
    → pool.phase n ≡ opening
    → Reachable pool
    → Reachable (open_succeeds n pool)
unfolding open_succeeds
open_succeeds-Reachable n pool o h m live = elim (Bool-cases (n == m)) [
  | inl e ↦ h m (subst (λ k. is_live (pool.phase k) ≡ true) ((==_iff n m).0 e) (ap is_live o))
  | inr e ↦ h m (sym (rw e refl) ∙ live)
]

open_fails-Reachable :
    (n : ℕ) (pool : SharedPool)
    → keeps_none_but n pool.current ≡ true
    → Reachable pool
    → Reachable (open_fails n pool)
unfolding open_fails
open_fails-Reachable n pool o h m live = elim (Bool-cases (n == m)) [
  | inl e ↦
      let dead : is_live (set_for n failed pool.phase m) ≡ false = (rw e refl) in
      false_true (sym live ∙ dead)
  | inr e ↦ elim (h m (sym (rw e refl) ∙ live)) [
    | inl g ↦ false_true (sym (subst (λ c. keeps_none_but n c ≡ true) g o) ∙ e)
    | inr g ↦ inr g
  ]
]

given_up-Reachable :
    (o : Option ℕ) (pool : SharedPool)
    → pool.current ≡ o
    → Reachable pool
    → Reachable (given_up o pool)
given_up-Reachable none pool e h m live = h m live
given_up-Reachable (some n) pool e h m live = elim (Bool-cases (n == m)) [
  | inl f ↦ inr (rw f refl)
  | inr f ↦ elim (h m live) [
    | inl g ↦ let same : n ≡ m = some_eq (sym e ∙ g) in false_true (sym ((==_iff n m).1 same) ∙ f)
    | inr g ↦ inr (rw f g)
  ]
]

closed_phase-settled : (p : HandlePhase) → is_settled p ≡ true → is_live (closed_phase p) ≡ false
closed_phase-settled opened s = refl
closed_phase-settled failed s = refl
closed_phase-settled unopened s = refl
closed_phase-settled opening s = cc
closed_phase-settled closed s = refl

end_settled-Reachable :
    (n : ℕ) (pool : SharedPool)
    → is_settled (pool.phase n) ≡ true
    → Reachable pool
    → Reachable (end_settled n pool)
unfolding end_settled
end_settled-Reachable n pool s h m live = elim (Bool-cases (n == m)) [
  | inl e ↦
      let dead : is_live (set_for n (closed_phase (pool.phase n)) pool.phase m) ≡ false =
        rw e (closed_phase-settled (pool.phase n) s) in
      false_true (sym live ∙ dead)
  | inr e ↦ elim (h m (sym (rw e refl) ∙ live)) [ inl g ↦ inl g | inr g ↦ inr (rw e g) ]
]

turn-Reachable : {pool after : SharedPool} → PoolTurn pool after → Reachable pool → Reachable after
unfolding get_querier end_pool
turn-Reachable {pool} gets h = kept_or_opened-Reachable pool.current pool refl h
turn-Reachable {pool} (succeeds n o) h = open_succeeds-Reachable n pool o h
turn-Reachable {pool} (fails_in_time n o k) h = open_fails-Reachable n pool k h
turn-Reachable {pool} ends h = given_up-Reachable pool.current pool refl h
turn-Reachable {pool} (settles n w s) h = end_settled-Reachable n pool s h

turns-Reachable :
    {pool after : SharedPool} → PoolTurns pool after → Reachable pool → Reachable after
turns-Reachable at_start h = h
turns-Reachable (and_turn ts t) h = turn-Reachable t (turns-Reachable ts h)

-- Where each open that fails does so while the pool keeps no other handle, then in whatever order queriers are
-- asked for, opens succeed or fail, and the pool is ended: each handle that is being opened, or is open, is
-- the one that the pool keeps, or an `end` waits to close it. So no two are without an `end`.
pub PoolTurns-Reachable :
    {pool : SharedPool}
    → PoolTurns new_pool pool
    → Reachable pool
      × ((m n : ℕ)
          → is_live (pool.phase m) ≡ true
          → is_live (pool.phase n) ≡ true
          → pool.is_ending m ≡ false
          → pool.is_ending n ≡ false
          → m ≡ n)
PoolTurns-Reachable {pool} turns =
    let h = turns-Reachable turns (λ n live. cc) in
    (
      h,
      λ m n lm ln em en. elim (h m lm) [
        | inr e ↦ false_true (sym e ∙ em)
        | inl e ↦ elim (h n ln) [ inr f ↦ false_true (sym f ∙ en) | inl f ↦ some_eq (sym e ∙ f) ]
      ],
    )
