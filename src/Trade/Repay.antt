-- ===== src/Trade/Repay.antt =====
-- `repay`: programs/hardig/src/instructions/repay.rs.
pub mod Effect
use hardig.Base.{
  ℕ, ◌+◌, ◌-◌, ◌*◌, ◌/◌, Bool, true, false, ◌&&◌, Option, none, some, List, [], ◌∷◌, ltb, leb, ◌==◌,
  ◌/=◌, if◌then◌else◌, checked_add, checked_sub, checked_mul, u64_mod, u128_mod, bit_or,
}
use hardig.Error.{Result, ok, ◌>>=◌, ◌>>◌, require, ok_or, insufficient_funds}
use hardig.Runtime.{Runtime, Store, Clock, Cpi, invoke_signed}
use hardig.State.{PositionState, perm_repay}
use hardig.KeyCheck.{validate_key}
use hardig.Mayflower.{read_debt}
use hardig.Mayflower.Cpi.{build_repay_ix}
use hardig.Trade.{
  TradeAccounts, market_addresses, signer_seeds, touch, check_personal_position, check_log,
}
use hardig.Trade.Accounts.{repay_constraints}

-- The call of Mayflower, with the account list of the handler.
unfoldable pub repay_cpi : Runtime → TradeAccounts → ℕ → Cpi
repay_cpi rt a amount =
    invoke_signed
      (build_repay_ix rt a.program_pda a.personal_position a.user_base_token_ata amount
        (market_addresses a.market_config))
      (a.program_pda ∷ a.market_meta ∷ a.mayflower_market ∷ a.personal_position ∷ a.wsol_mint
        ∷ a.user_base_token_ata ∷ a.market_base_vault ∷ rt.token_id ∷ a.log_account
        ∷ a.mayflower_program ∷ [])
      (signer_seeds rt a.position.authority_seed)

module _ (rt : Runtime) (clock : Clock) where
  unfoldable pub repay_handler : TradeAccounts → ℕ → Store → Result (PositionState × Store)
  repay_handler a amount s = do
    validate_key rt s a.signer a.key_asset a.position.authority_seed perm_repay a.config.collection
    require (ltb 0 amount) insufficient_funds
    check_personal_position rt a
    check_log rt a
    mayflower_debt ← read_debt (s a.personal_position).bytes
    require (leb amount mayflower_debt) insufficient_funds
    let position = touch clock a.key_asset a.position
    debt_before ← read_debt (s a.personal_position).bytes
    s' ← rt.invoke (repay_cpi rt a amount) s
    debt_after ← read_debt (s' a.personal_position).bytes
    actual_repaid ← ok_or (checked_sub debt_before debt_after) insufficient_funds
    ok (record position { user_debt = position.user_debt - actual_repaid }, s')

  -- The instruction: the constraints of the accounts, then the handler.
  unfoldable pub repay : TradeAccounts → ℕ → Store → Result (PositionState × Store)
  repay a amount s = do repay_constraints rt a; repay_handler a amount s
