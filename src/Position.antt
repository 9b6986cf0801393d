-- ===== src/Position.antt =====
-- The life of a position: the instructions of programs/hardig/src/instructions/ that write a
-- `PositionState`, as the steps of a state machine. `Create` has the instruction that begins it.
pub mod Create
pub mod Changes
pub mod Reach
use hardig.Base.{ℕ, ◌+◌, ◌≡◌, Bool, Option, ℤ}
use hardig.Error.{Result, ok}
use hardig.Runtime.{Runtime, Store, Pubkey, Text, Clock}
use hardig.State.{PositionState, KeyState}
use hardig.Trade.{TradeAccounts}
use hardig.Trade.Buy.{buy}
use hardig.Trade.Withdraw.{withdraw}
use hardig.Trade.Borrow.{borrow}
use hardig.Trade.Repay.{repay}
use hardig.Trade.Reinvest.{reinvest}
use hardig.Keys.{KeyAccounts}
use hardig.Keys.Authorize.{Grant, authorize_key}
use hardig.Keys.Revoke.{revoke_key}
use hardig.Recovery.{heartbeat, set_position_artwork, configure_recovery}
use hardig.Recovery.Execute.{execute_recovery}
use hardig.Promo.Claim.{ClaimAccounts, Claim, claim_promo_key}

-- A successful instruction, from the position of its accounts to the one that it writes. The index
-- counts recoveries.
pub data PositionStep (rt : Runtime) : ℕ → PositionState → PositionState → Type 0 where
  buys :
      (clock : Clock) (a : TradeAccounts) (amount min_out : ℕ) (s s' : Store) (p' : PositionState)
      → buy rt clock a amount min_out s ≡ ok (p', s')
      → PositionStep rt 0 a.position p'
  withdraws :
      (clock : Clock) (a : TradeAccounts) (amount min_out : ℕ) (s s' : Store) (p' : PositionState)
      (k : Option KeyState)
      → withdraw rt clock a amount min_out s ≡ ok (p', k, s')
      → PositionStep rt 0 a.position p'
  borrows :
      (clock : Clock) (a : TradeAccounts) (amount : ℕ) (s s' : Store) (p' : PositionState)
      (k : Option KeyState)
      → borrow rt clock a amount s ≡ ok (p', k, s')
      → PositionStep rt 0 a.position p'
  repays :
      (clock : Clock) (a : TradeAccounts) (amount : ℕ) (s s' : Store) (p' : PositionState)
      → repay rt clock a amount s ≡ ok (p', s')
      → PositionStep rt 0 a.position p'
  reinvests :
      (clock : Clock) (a : TradeAccounts) (min_out max_spread_bps : ℕ) (s s' : Store)
      (p' : PositionState)
      → reinvest rt clock a min_out max_spread_bps s ≡ ok (p', s')
      → PositionStep rt 0 a.position p'
  authorizes :
      (clock : Clock) (a : KeyAccounts) (asset wallet state : Pubkey) (g : Grant) (s s' : Store)
      (p' : PositionState) (k : KeyState)
      → authorize_key rt clock a asset wallet state g s ≡ ok (p', k, s')
      → PositionStep rt 0 a.position p'
  revokes :
      (clock : Clock) (a : KeyAccounts) (target : Pubkey) (k : KeyState) (s s' : Store)
      (p' : PositionState) (k' : Option KeyState)
      → revoke_key rt clock a target k s ≡ ok (p', k', s')
      → PositionStep rt 0 a.position p'
  beats :
      (clock : Clock) (a : KeyAccounts) (s : Store) (p' : PositionState)
      → heartbeat rt clock a s ≡ ok p'
      → PositionStep rt 0 a.position p'
  decorates :
      (clock : Clock) (a : KeyAccounts) (artwork_id : Option Pubkey) (s : Store)
      (p' : PositionState)
      → set_position_artwork rt clock a artwork_id s ≡ ok p'
      → PositionStep rt 0 a.position p'
  configures :
      (clock : Clock) (a : KeyAccounts) (asset wallet : Pubkey) (old : Option Pubkey)
      (lockout_secs : ℤ) (lock_config : Bool) (name : Option Text) (s s' : Store)
      (p' : PositionState)
      → configure_recovery rt clock a asset wallet old lockout_secs lock_config name s ≡ ok (p', s')
      → PositionStep rt 0 a.position p'
  claims :
      (clock : Clock) (c : ClaimAccounts) (amount : ℕ) (s s' : Store) (r : Claim)
      → claim_promo_key rt clock c amount s ≡ ok (r, s')
      → PositionStep rt 0 c.trade.position r.position
  recovers :
      (clock : Clock) (a : KeyAccounts) (old new : Pubkey) (s s' : Store) (p' : PositionState)
      → execute_recovery rt clock a old new s ≡ ok (p', s')
      → PositionStep rt 1 a.position p'

-- Any number of them, with the number of recoveries among them.
pub data PositionSteps (rt : Runtime) : ℕ → PositionState → PositionState → Type 0 where
  stay : (p : PositionState) → PositionSteps rt 0 p p
  step :
      (n k : ℕ) (p q r : PositionState)
      → PositionStep rt n p q
      → PositionSteps rt k q r
      → PositionSteps rt (n + k) p r
