-- ===== src/Trade/Withdraw.antt =====
-- `withdraw`: programs/hardig/src/instructions/withdraw.rs.
pub mod Effect
pub mod Limits
use hardig.Base.{
  ℕ, ◌+◌, ◌-◌, ◌*◌, ◌/◌, Bool, true, false, ◌&&◌, Option, none, some, List, [], ◌∷◌, ltb, leb, ◌==◌,
  ◌/=◌, if◌then◌else◌, checked_add, checked_sub, checked_mul, u64_mod, u128_mod, bit_or,
}
use hardig.Error.{
  Result, ok, ◌>>=◌, ◌>>◌, require, ok_or, insufficient_funds, slippage_exceeded,
  rate_limit_exceeded,
}
use hardig.Runtime.{Runtime, Store, Clock, Cpi, invoke_signed}
use hardig.State.{PositionState, KeyState, perm_sell, perm_limited_sell}
use hardig.Permissions.{has_any, not_any}
use hardig.RateLimit.{consume_rate_limit, consume_total_limit}
use hardig.KeyCheck.{validate_key}
use hardig.Mayflower.{read_deposited_shares}
use hardig.Mayflower.Cpi.{build_sell_ix}
use hardig.Trade.{
  TradeAccounts, market_addresses, signer_seeds, touch, token_amount, close_if_initialized,
  check_key_state, check_personal_position, check_escrow, check_log,
}
use hardig.Trade.Accounts.{withdraw_constraints}

-- The call of Mayflower, with the account list of the handler. Its own minimum output is 0.
unfoldable pub sell_cpi : Runtime → TradeAccounts → ℕ → Cpi
sell_cpi rt a amount =
    invoke_signed
      (build_sell_ix rt a.program_pda a.personal_position a.user_shares a.user_nav_sol_ata
        a.user_wsol_ata amount 0 (market_addresses a.market_config))
      (a.program_pda ∷ a.tenant ∷ a.market_group ∷ a.market_meta ∷ a.mayflower_market
        ∷ a.personal_position ∷ a.market_base_vault ∷ a.market_nav_vault ∷ a.fee_vault
        ∷ a.nav_sol_mint ∷ a.wsol_mint ∷ a.user_wsol_ata ∷ a.user_nav_sol_ata ∷ a.user_shares
        ∷ rt.token_id ∷ rt.token_id ∷ a.log_account ∷ a.mayflower_program ∷ [])
      (signer_seeds rt a.position.authority_seed)

-- The limits of a key that may sell only within them. The key state is the new one.
unfoldable pub charge_sell : ℕ → Option KeyState → ℕ → ℕ → Result (Option KeyState)
charge_sell permissions key_state shares_sold slot =
    if not_any permissions perm_sell && has_any permissions perm_limited_sell
    then (do
      ks ← ok_or key_state rate_limit_exceeded
      bucket ← consume_rate_limit ks.sell_bucket shares_sold slot
      total ← consume_total_limit ks.total_sold ks.total_sell_limit shares_sold
      ok (some (record ks { sell_bucket = bucket; total_sold = total })))
    else ok key_state

module _ (rt : Runtime) (clock : Clock) where
  unfoldable pub withdraw_handler :
      TradeAccounts → ℕ → ℕ → Store → Result (PositionState × Option KeyState × Store)
  withdraw_handler a amount min_out s = do
    permissions ←
        validate_key rt s a.signer a.key_asset a.position.authority_seed
          (bit_or perm_sell perm_limited_sell) a.config.collection
    check_key_state a
    require (ltb 0 amount) insufficient_funds
    check_personal_position rt a
    check_escrow rt a
    check_log rt a
    mayflower_shares ← read_deposited_shares (s a.personal_position).bytes
    require (leb amount mayflower_shares) insufficient_funds
    let position = touch clock a.key_asset a.position
    let wsol_before = token_amount (s a.user_wsol_ata).bytes
    shares_before ← read_deposited_shares (s a.personal_position).bytes
    s' ← rt.invoke (sell_cpi rt a amount) s
    shares_after ← read_deposited_shares (s' a.personal_position).bytes
    shares_sold ← ok_or (checked_sub shares_before shares_after) insufficient_funds
    key_state ← charge_sell permissions a.key_state shares_sold clock.slot
    let wsol_after = token_amount (s' a.user_wsol_ata).bytes
    require (leb min_out (wsol_after - wsol_before)) slippage_exceeded
    s'' ← close_if_initialized rt a a.user_wsol_ata s'
    ok (record position { deposited_nav = position.deposited_nav - shares_sold }, key_state, s'')

  -- The instruction: the constraints of the accounts, then the handler.
  unfoldable pub withdraw :
      TradeAccounts → ℕ → ℕ → Store → Result (PositionState × Option KeyState × Store)
  withdraw a amount min_out s = do withdraw_constraints rt a; withdraw_handler a amount min_out s
