-- ===== src/Position/Changes.antt =====
-- What each instruction of programs/hardig/src/instructions/ may change of a position.
use hardig.Base.{
  ℕ, ◌+◌, ◌-◌, ◌<◌, ◌≡◌, ◌⊎◌, inl, inr, refl, sym, subst, arith, Bool, false, Option, ℤ, u64_mod,
}
use hardig.Runtime.{Runtime, Pubkey, Clock, Store}
use hardig.State.{PositionState}
use hardig.Trade.{TradeAccounts, touch}
use hardig.Trade.Buy.Effect.{buy_effect}
use hardig.Trade.Withdraw.Effect.{withdraw_effect}
use hardig.Trade.Borrow.Effect.{borrow_effect}
use hardig.Trade.Repay.Effect.{repay_effect}
use hardig.Trade.Reinvest.Effect.{Loan, Reinvested, reinvest_effect}
use hardig.Keys.Authorize.Minted.{authorize_effect}
use hardig.Keys.Revoke.Effect.{revoke_effect}
use hardig.Recovery.Lockout.{heartbeat_effect, artwork_effect, configure_effect}
use hardig.Promo.Claims.{claim_effect}
use hardig.Position.{
  PositionStep, buys, withdraws, borrows, repays, reinvests, authorizes, revokes, beats, decorates,
  configures, claims,
}

-- What ties a position to its keys and to Mayflower is the same.
pub record SameBinding (p q : PositionState) : Type 0 where
  pub authority_seed : q.authority_seed ≡ p.authority_seed
  pub position_pda : q.position_pda ≡ p.position_pda
  pub market_config : q.market_config ≡ p.market_config
  pub bump : q.bump ≡ p.bump
  pub authority_bump : q.authority_bump ≡ p.authority_bump

-- Who is the admin and how the position may be recovered is the same.
pub record SameControl (p q : PositionState) : Type 0 where
  pub current_admin_asset : q.current_admin_asset ≡ p.current_admin_asset
  pub recovery_asset : q.recovery_asset ≡ p.recovery_asset
  pub recovery_lockout_secs : q.recovery_lockout_secs ≡ p.recovery_lockout_secs
  pub recovery_config_locked : q.recovery_config_locked ≡ p.recovery_config_locked

-- The two amounts fit 64 bits.
pub record InRange (p : PositionState) : Type 0 where
  pub nav : p.deposited_nav < u64_mod
  pub debt : p.user_debt < u64_mod

-- What an instruction that is no recovery does: the binding stays and the amounts stay in range;
-- the admin stays, and the way to recover stays or was not locked.
pub record Governed (p q : PositionState) : Type 0 where
  pub binding : SameBinding p q
  pub range : InRange p → InRange q
  pub admin : q.current_admin_asset ≡ p.current_admin_asset
  pub control : SameControl p q ⊎ (p.recovery_config_locked ≡ false)

-- A position that has only its amounts and the time of the activity changed.
traded :
    (clock : Clock) (k : Pubkey) (p : PositionState) (nav debt : ℕ)
    → (InRange p → (nav < u64_mod) × (debt < u64_mod))
    → Governed p (record (touch clock k p) { deposited_nav = nav; user_debt = debt })
unfolding touch
traded clock k p nav debt h = record {
  binding = ground arith;
  range = λ r. record { nav = (h r).0; debt = (h r).1 };
  admin = ground arith;
  control = inl (ground arith);
}

touched : (clock : Clock) (k : Pubkey) (p : PositionState) → Governed p (touch clock k p)
unfolding touch
touched clock k p = record {
  binding = ground arith;
  range = λ r. ground arith;
  admin = ground arith;
  control = inl (ground arith);
}

-- The same without the admin's activity, and with nothing else changed than what governs nothing.
deposited :
    (p : PositionState) (nav : ℕ) → nav < u64_mod → Governed p (record p { deposited_nav = nav })
deposited p nav h = record {
  binding = ground arith;
  range = λ r. record { nav = h; debt = r.debt };
  admin = refl;
  control = inl (ground arith);
}

governed_refl : (p : PositionState) → Governed p p
governed_refl p = record {
  binding = ground arith;
  range = λ r. r;
  admin = refl;
  control = inl (ground arith);
}

active : (p : PositionState) (now : ℤ) → Governed p (record p { last_admin_activity = now })
active p now = record {
  binding = ground arith;
  range = λ r. record { nav = r.nav; debt = r.debt };
  admin = refl;
  control = inl (ground arith);
}

decorated :
    (p : PositionState) (artwork_id : Option Pubkey) (now : ℤ)
    → Governed p (record p { artwork_id = artwork_id; last_admin_activity = now })
decorated p artwork_id now = record {
  binding = ground arith;
  range = λ r. record { nav = r.nav; debt = r.debt };
  admin = refl;
  control = inl (ground arith);
}

configured :
    (p : PositionState) (asset : Pubkey) (lockout now : ℤ) (lock : Bool)
    → p.recovery_config_locked ≡ false
    → Governed p (record p {
      recovery_asset = asset;
      recovery_lockout_secs = lockout;
      last_admin_activity = now;
      recovery_config_locked = lock;
    })
configured p asset lockout now lock open_ = record {
  binding = ground arith;
  range = λ r. record { nav = r.nav; debt = r.debt };
  admin = refl;
  control = inr open_;
}

module _ (rt : Runtime) (clock : Clock) (a : TradeAccounts) where
  loan_governed :
      (min_out max_spread_bps floor_price capacity : ℕ) (s s' : Store) (p' : PositionState)
      → Loan rt a min_out max_spread_bps floor_price capacity
          (touch clock a.key_asset a.position)
          s
          p'
          s'
      → Governed a.position p'
  loan_governed min_out max_spread_bps floor_price capacity s s' p' l =
      let p = touch clock a.key_asset a.position in
      let debt = p.user_debt + (l.after - l.before) in
      elim l.spent [
        | inl (_, e, _) ↦ subst (Governed a.position) (sym e) (
            traded clock a.key_asset a.position p.deposited_nav debt
              (λ r. (((touched clock a.key_asset a.position).range r).nav, l.fits)))
        | inr purchase ↦ subst (Governed a.position) (sym purchase.position) (
            traded clock a.key_asset a.position
              (p.deposited_nav + (purchase.after - purchase.before)) debt
              (λ r. (purchase.fits, l.fits)))
      ]

  reinvest_governed :
      (min_out max_spread_bps : ℕ) (s s' : Store) (p' : PositionState)
      → Reinvested rt clock a min_out max_spread_bps s p' s'
      → Governed a.position p'
  reinvest_governed min_out max_spread_bps s s' p' e = elim e.outcome [
    | inl (_, same, _) ↦
        subst (Governed a.position) (sym same) (touched clock a.key_asset a.position)
    | inr (_, l) ↦ loan_governed min_out max_spread_bps e.floor_price e.capacity s s' p' l
  ]

  -- Taking away from either amount keeps both in range.
  nav_lowered :
      (by : ℕ) (p' : PositionState)
      → p' ≡ record (touch clock a.key_asset a.position) {
        deposited_nav = a.position.deposited_nav - by;
      }
      → Governed a.position p'
  nav_lowered by p' e = subst (Governed a.position) (sym e) (
      traded clock a.key_asset a.position (a.position.deposited_nav - by)
        (touch clock a.key_asset a.position).user_debt
        (λ r.
          let n = r.nav in (omega arith, ((touched clock a.key_asset a.position).range r).debt)))

  nav_raised :
      (by : ℕ) (p' : PositionState)
      → a.position.deposited_nav + by < u64_mod
      → p' ≡ record (touch clock a.key_asset a.position) {
        deposited_nav = a.position.deposited_nav + by;
      }
      → Governed a.position p'
  nav_raised by p' fits e = subst (Governed a.position) (sym e) (
      traded clock a.key_asset a.position (a.position.deposited_nav + by)
        (touch clock a.key_asset a.position).user_debt
        (λ r. (fits, ((touched clock a.key_asset a.position).range r).debt)))

  debt_lowered :
      (by : ℕ) (p' : PositionState)
      → p' ≡ record (touch clock a.key_asset a.position) { user_debt = a.position.user_debt - by }
      → Governed a.position p'
  debt_lowered by p' e = subst (Governed a.position) (sym e) (
      traded clock a.key_asset a.position (touch clock a.key_asset a.position).deposited_nav
        (a.position.user_debt - by)
        (λ r.
          let d = r.debt in (((touched clock a.key_asset a.position).range r).nav, omega arith)))

  debt_raised :
      (by : ℕ) (p' : PositionState)
      → a.position.user_debt + by < u64_mod
      → p' ≡ record (touch clock a.key_asset a.position) { user_debt = a.position.user_debt + by }
      → Governed a.position p'
  debt_raised by p' fits e = subst (Governed a.position) (sym e) (
      traded clock a.key_asset a.position (touch clock a.key_asset a.position).deposited_nav
        (a.position.user_debt + by)
        (λ r. (((touched clock a.key_asset a.position).range r).nav, fits)))

-- Every instruction but a recovery leaves the binding, the range and the admin as they are, and
-- changes the way to recover only while that is not locked.
pub step-Governed : (rt : Runtime) (p p' : PositionState) → PositionStep rt 0 p p' → Governed p p'
step-Governed rt _ p' (buys clock a amount min_out s s' _ h) =
    let e = buy_effect rt clock a amount min_out s p' s' h in
    nav_raised rt clock a (e.after - e.before) p' e.fits e.position
step-Governed rt _ p' (withdraws clock a amount min_out s s' _ k h) =
    let e = withdraw_effect rt clock a amount min_out s p' k s' h in
    nav_lowered rt clock a (e.before - e.after) p' e.position
step-Governed rt _ p' (borrows clock a amount s s' _ k h) =
    let e = borrow_effect rt clock a amount s p' k s' h in
    debt_raised rt clock a (e.after - e.before) p' e.fits e.position
step-Governed rt _ p' (repays clock a amount s s' _ h) =
    let e = repay_effect rt clock a amount s p' s' h in
    debt_lowered rt clock a (e.before - e.after) p' e.position
step-Governed rt _ p' (reinvests clock a min_out spread s s' _ h) =
    reinvest_governed rt clock a min_out spread s s' p'
      (reinvest_effect rt clock a min_out spread s p' s' h)
step-Governed rt _ p' (authorizes clock a asset wallet state g s s' _ k h) =
    subst (Governed a.position)
      (sym (authorize_effect rt clock a asset wallet state g s p' k s' h).position)
      (active a.position clock.unix_timestamp)
step-Governed rt _ p' (revokes clock a target k s s' _ k' h) =
    subst (Governed a.position) (sym (revoke_effect rt clock a target s k p' k' s' h).position)
      (active a.position clock.unix_timestamp)
step-Governed rt _ p' (beats clock a s _ h) =
    subst (Governed a.position) (sym (heartbeat_effect rt clock a s p' h).1)
      (active a.position clock.unix_timestamp)
step-Governed rt _ p' (decorates clock a artwork_id s _ h) =
    subst (Governed a.position) (sym (artwork_effect rt clock a s p' artwork_id h))
      (decorated a.position artwork_id clock.unix_timestamp)
step-Governed rt _ p' (configures clock a asset wallet old lockout lock name s s' _ h) =
    let e = configure_effect rt clock a asset wallet old lockout lock name s p' s' h in
    subst (Governed a.position) (sym e.position)
      (configured a.position asset lockout clock.unix_timestamp lock e.unlocked)
step-Governed rt _ _ (claims clock c amount s s' r h) =
    let e = claim_effect rt clock c amount s r s' h in
    elim e.deposit [
      | inl (_, same, _) ↦
          subst (Governed c.trade.position) (sym same) (governed_refl c.trade.position)
      | inr d ↦ subst (Governed c.trade.position) (sym d.position) (
          deposited c.trade.position (c.trade.position.deposited_nav + (d.after - d.before)) d.fits)
    ]
