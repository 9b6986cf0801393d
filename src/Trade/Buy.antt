-- ===== src/Trade/Buy.antt =====
-- `buy`: programs/hardig/src/instructions/buy.rs.
pub mod Effect
use hardig.Base.{
  ℕ, ◌+◌, ◌-◌, ◌*◌, ◌/◌, Bool, true, false, ◌&&◌, Option, none, some, List, [], ◌∷◌, ltb, leb, ◌==◌,
  ◌/=◌, if◌then◌else◌, checked_add, checked_sub, checked_mul, u64_mod, u128_mod, bit_or,
}
use hardig.Error.{Result, ok, ◌>>=◌, ◌>>◌, require, ok_or, insufficient_funds, slippage_exceeded}
use hardig.Runtime.{Runtime, Store, Clock, Cpi, invoke_signed}
use hardig.State.{PositionState, perm_buy}
use hardig.KeyCheck.{validate_key}
use hardig.Mayflower.{read_deposited_shares}
use hardig.Mayflower.Cpi.{build_buy_ix}
use hardig.Trade.{
  TradeAccounts, market_addresses, signer_seeds, touch, check_personal_position, check_escrow,
  check_log,
}
use hardig.Trade.Accounts.{buy_constraints}

-- The call of Mayflower, with the account list of the handler. Its own minimum output is 0.
unfoldable pub buy_cpi : Runtime → TradeAccounts → ℕ → Cpi
buy_cpi rt a amount =
    invoke_signed
      (build_buy_ix rt a.program_pda a.personal_position a.user_shares a.user_nav_sol_ata
        a.user_wsol_ata amount 0 (market_addresses a.market_config))
      (a.program_pda ∷ a.tenant ∷ a.market_group ∷ a.market_meta ∷ a.mayflower_market
        ∷ a.personal_position ∷ a.user_shares ∷ a.nav_sol_mint ∷ a.wsol_mint ∷ a.user_nav_sol_ata
        ∷ a.user_wsol_ata ∷ a.market_base_vault ∷ a.market_nav_vault ∷ a.fee_vault ∷ rt.token_id
        ∷ rt.token_id ∷ a.log_account ∷ a.mayflower_program ∷ [])
      (signer_seeds rt a.position.authority_seed)

module _ (rt : Runtime) (clock : Clock) where
  unfoldable pub buy_handler : TradeAccounts → ℕ → ℕ → Store → Result (PositionState × Store)
  buy_handler a amount min_out s = do
    validate_key rt s a.signer a.key_asset a.position.authority_seed perm_buy a.config.collection
    require (ltb 0 amount) insufficient_funds
    check_personal_position rt a
    check_escrow rt a
    check_log rt a
    let position = touch clock a.key_asset a.position
    shares_before ← read_deposited_shares (s a.personal_position).bytes
    s' ← rt.invoke (buy_cpi rt a amount) s
    shares_after ← read_deposited_shares (s' a.personal_position).bytes
    shares_received ← ok_or (checked_sub shares_after shares_before) insufficient_funds
    require (leb min_out shares_received) slippage_exceeded
    deposited_nav ←
        ok_or (checked_add u64_mod position.deposited_nav shares_received) insufficient_funds
    ok (record position { deposited_nav = deposited_nav }, s')

  -- The instruction: the constraints of the accounts, then the handler.
  unfoldable pub buy : TradeAccounts → ℕ → ℕ → Store → Result (PositionState × Store)
  buy a amount min_out s = do buy_constraints rt a; buy_handler a amount min_out s
