-- ===== src/Trade/Reinvest.antt =====
-- `reinvest`: programs/hardig/src/instructions/reinvest.rs.
pub mod Effect
pub mod Spread
use hardig.Base.{
  ℕ, ◌+◌, ◌-◌, ◌*◌, ◌/◌, Bool, true, false, ◌&&◌, Option, none, some, List, [], ◌∷◌, ltb, leb, ◌==◌,
  ◌/=◌, if◌then◌else◌, checked_add, checked_sub, checked_mul, u64_mod, u128_mod, bit_or,
}
use hardig.Error.{
  Result, ok, ◌>>=◌, ◌>>◌, require, ok_or, insufficient_funds, slippage_exceeded,
  borrow_capacity_exceeded, reinvest_spread_too_high,
}
use hardig.Runtime.{Runtime, Store, Clock}
use hardig.State.{PositionState, perm_reinvest}
use hardig.KeyCheck.{validate_key}
use hardig.Mayflower.{read_floor_price, read_deposited_shares, read_debt, calculate_borrow_capacity}
use hardig.Trade.{
  TradeAccounts, touch, token_amount, check_personal_position, check_escrow, check_log,
}
use hardig.Trade.Accounts.{reinvest_constraints}
use hardig.Trade.Buy.{buy_cpi}
use hardig.Trade.Borrow.{borrow_cpi}

-- The limit on what was paid above the floor price, in basis points. It is not tested without a
-- limit, without a floor price, or where no share was received.
unfoldable pub check_spread : ℕ → ℕ → ℕ → ℕ → Result (Unit {0})
check_spread max_spread_bps floor_price actual_amount shares_received =
    if ltb 0 max_spread_bps && ltb 0 floor_price && ltb 0 shares_received
    then (do
      scaled ← ok_or (checked_mul u128_mod actual_amount 1_000_000_000) insufficient_funds
      let effective_price = scaled / shares_received
      if ltb floor_price effective_price
          then (do
            excess ←
                ok_or (checked_mul u128_mod (effective_price - floor_price) 10_000)
                  insufficient_funds
            require (leb (excess / floor_price) max_spread_bps) reinvest_spread_too_high)
          else ok tt)
    else ok tt

module _ (rt : Runtime) where
  -- Step 3 of the handler: the purchase for what was borrowed.
  unfoldable pub reinvest_buy :
      TradeAccounts → ℕ → ℕ → ℕ → ℕ → PositionState → Store → Result (PositionState × Store)
  reinvest_buy a min_out max_spread_bps floor_price actual_amount position s = do
    shares_before ← read_deposited_shares (s a.personal_position).bytes
    s' ← rt.invoke (buy_cpi rt a actual_amount) s
    shares_after ← read_deposited_shares (s' a.personal_position).bytes
    shares_received ← ok_or (checked_sub shares_after shares_before) insufficient_funds
    require (leb min_out shares_received) slippage_exceeded
    check_spread max_spread_bps floor_price actual_amount shares_received
    deposited_nav ←
        ok_or (checked_add u64_mod position.deposited_nav shares_received) insufficient_funds
    ok (record position { deposited_nav = deposited_nav }, s')

  -- Steps 1 and 2: borrow the capacity, and see what arrived.
  unfoldable pub reinvest_borrow :
      TradeAccounts → ℕ → ℕ → ℕ → ℕ → PositionState → Store → Result (PositionState × Store)
  reinvest_borrow a min_out max_spread_bps floor_price capacity position s = do
    debt_before ← read_debt (s a.personal_position).bytes
    s' ← rt.invoke (borrow_cpi rt a capacity) s
    debt_after ← read_debt (s' a.personal_position).bytes
    actual_borrowed ← ok_or (checked_sub debt_after debt_before) borrow_capacity_exceeded
    user_debt ←
        ok_or (checked_add u64_mod position.user_debt actual_borrowed) borrow_capacity_exceeded
    let position' = record position { user_debt = user_debt }
    let actual_amount = token_amount (s' a.user_base_token_ata).bytes
    if actual_amount == 0
        then ok (position', s')
        else reinvest_buy a min_out max_spread_bps floor_price actual_amount position' s'

module _ (rt : Runtime) (clock : Clock) where
  unfoldable pub reinvest_handler : TradeAccounts → ℕ → ℕ → Store → Result (PositionState × Store)
  reinvest_handler a min_out max_spread_bps s = do
    validate_key rt s a.signer a.key_asset a.position.authority_seed perm_reinvest
        a.config.collection
    check_personal_position rt a
    check_escrow rt a
    check_log rt a
    let position = touch clock a.key_asset a.position
    floor_price ← read_floor_price (s a.mayflower_market).bytes
    deposited_shares ← read_deposited_shares (s a.personal_position).bytes
    current_debt ← read_debt (s a.personal_position).bytes
    capacity ← calculate_borrow_capacity deposited_shares floor_price current_debt
    if capacity == 0
        then ok (position, s)
        else reinvest_borrow rt a min_out max_spread_bps floor_price capacity position s

  -- The instruction: the constraints of the accounts, then the handler.
  unfoldable pub reinvest : TradeAccounts → ℕ → ℕ → Store → Result (PositionState × Store)
  reinvest a min_out max_spread_bps s = do
    reinvest_constraints rt a
    reinvest_handler a min_out max_spread_bps s
