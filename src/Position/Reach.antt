-- ===== src/Position/Reach.antt =====
-- Positions over any sequence of the instructions of programs/hardig/src/instructions/ that write
-- one.
use hardig.Base.{ℕ, zero, suc, ◌+◌, ◌≡◌, inl, inr, refl, sym, subst, ◌∙◌, arith, true}
use hardig.Runtime.{Runtime, Pubkey, Clock}
use hardig.State.{PositionState}
use hardig.Recovery.Execute.{recovered}
use hardig.Recovery.Lockout.{execute_effect}
use hardig.Position.{PositionStep, PositionSteps, stay, step, recovers}
use hardig.Position.Changes.{SameBinding, SameControl, InRange, Governed, step-Governed}

-- What any instruction keeps: the binding and the range.
record Kept (p q : PositionState) : Type 0 where
  binding : SameBinding p q
  range : InRange p → InRange q

recovered-Kept :
    (rt : Runtime) (clock : Clock) (p : PositionState) (new : Pubkey)
    → Kept p (recovered rt clock p new)
unfolding recovered
recovered-Kept rt clock p new = record {
  binding = ground arith;
  range = λ r. record { nav = r.nav; debt = r.debt };
}

step-Kept : (rt : Runtime) (n : ℕ) (p q : PositionState) → PositionStep rt n p q → Kept p q
unfolding recovered
step-Kept rt zero p q one =
    let g = step-Governed rt p q one in record { binding = g.binding; range = g.range }
step-Kept rt (suc n) _ q (recovers clock a old new s s' _ h) =
    subst (Kept a.position) (sym (execute_effect rt clock a old new s q s' h).position)
      (recovered-Kept rt clock a.position new)

SameBinding-trans : (p q r : PositionState) → SameBinding p q → SameBinding q r → SameBinding p r
SameBinding-trans p q r a b = ground arith

SameControl-trans : (p q r : PositionState) → SameControl p q → SameControl q r → SameControl p r
SameControl-trans p q r a b = ground arith

kept_binding :
    (rt : Runtime) (n : ℕ) (p q : PositionState)
    → PositionSteps rt n p q
    → SameBinding p q × (InRange p → InRange q)
kept_binding rt _ p _ (stay _) = (ground arith, λ r. r)
kept_binding rt _ p r (step n k _ q _ one rest) =
    let here = step-Kept rt n p q one in
    let (binding, range) = kept_binding rt k q r rest in
    (SameBinding-trans p q r here.binding binding, λ x. range (here.range x))

-- Over any sequence of successful instructions, recoveries included, a position whose amounts fit
-- 64 bits keeps what ties it to its keys and to Mayflower, and its amounts go on fitting.
pub binding_permanent :
    (rt : Runtime) (n : ℕ) (p q : PositionState)
    → InRange p
    → PositionSteps rt n p q
    → SameBinding p q × InRange q
binding_permanent rt n p q r steps =
    let (binding, range) = kept_binding rt n p q steps in (binding, range r)

no_recovery : (n k : ℕ) → n + k ≡ 0 → (n ≡ 0) × (k ≡ 0)
no_recovery n k h = (omega arith, omega arith)

step_of_none :
    (rt : Runtime) (n : ℕ) (p q : PositionState) → n ≡ 0 → PositionStep rt n p q → Governed p q
step_of_none rt n p q e one = step-Governed rt p q (subst (λ m. PositionStep rt m p q) e one)

locked_step :
    (p q : PositionState) → p.recovery_config_locked ≡ true → Governed p q → SameControl p q
locked_step p q locked g = elim g.control [ inl same ↦ same | inr open_ ↦ absurd (cc) ]

kept_control :
    (rt : Runtime) (n : ℕ) (p q : PositionState)
    → n ≡ 0
    → PositionSteps rt n p q
    → (q.current_admin_asset ≡ p.current_admin_asset)
      × (p.recovery_config_locked ≡ true → SameControl p q)
kept_control rt _ p _ e (stay _) = (refl, λ l. ground arith)
kept_control rt _ p r e (step n k _ q _ one rest) =
    let (none_here, none_later) = no_recovery n k e in
    let here = step_of_none rt n p q none_here one in
    let (admin, control) = kept_control rt k q r none_later rest in
    (
      admin ∙ here.admin,
      λ locked.
          let same = locked_step p q locked here in
          SameControl-trans p q r same (control (same.recovery_config_locked ∙ locked)),
    )

-- Over any sequence of successful instructions without a recovery, the admin key stays the one it
-- is.
pub admin_permanent :
    (rt : Runtime) (p q : PositionState)
    → PositionSteps rt 0 p q
    → q.current_admin_asset ≡ p.current_admin_asset
admin_permanent rt p q steps = (kept_control rt 0 p q refl steps).0

-- Over any sequence of successful instructions without a recovery, from a position whose recovery
-- settings are locked, the admin key, the recovery key, the lockout and the lock stay as they are.
pub locked_permanent :
    (rt : Runtime) (p q : PositionState)
    → p.recovery_config_locked ≡ true
    → PositionSteps rt 0 p q
    → SameControl p q
locked_permanent rt p q locked steps = (kept_control rt 0 p q refl steps).1 locked
