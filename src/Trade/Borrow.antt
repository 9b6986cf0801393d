-- ===== src/Trade/Borrow.antt =====
-- `borrow`: programs/hardig/src/instructions/borrow.rs.
pub mod Effect
pub mod Limits
use hardig.Base.{
  ℕ, ◌+◌, ◌-◌, ◌*◌, ◌/◌, Bool, true, false, ◌&&◌, Option, none, some, List, [], ◌∷◌, ltb, leb, ◌==◌,
  ◌/=◌, if◌then◌else◌, checked_add, checked_sub, checked_mul, u64_mod, u128_mod, bit_or,
}
use hardig.Error.{
  Result, ok, ◌>>=◌, ◌>>◌, require, ok_or, insufficient_funds, borrow_capacity_exceeded,
  rate_limit_exceeded,
}
use hardig.Runtime.{Runtime, Store, Clock, Cpi, invoke_signed}
use hardig.State.{PositionState, KeyState, perm_borrow, perm_limited_borrow}
use hardig.Permissions.{has_any, not_any}
use hardig.RateLimit.{consume_rate_limit, consume_total_limit}
use hardig.KeyCheck.{validate_key}
use hardig.Mayflower.{read_debt}
use hardig.Mayflower.Cpi.{build_borrow_ix}
use hardig.Trade.{
  TradeAccounts, market_addresses, signer_seeds, touch, close_if_initialized, check_key_state,
  check_personal_position, check_log,
}
use hardig.Trade.Accounts.{borrow_constraints}

-- The call of Mayflower, with the account list of the handlers of borrow and reinvest.
unfoldable pub borrow_cpi : Runtime → TradeAccounts → ℕ → Cpi
borrow_cpi rt a amount =
    invoke_signed
      (build_borrow_ix rt a.program_pda a.personal_position a.user_base_token_ata amount
        (market_addresses a.market_config))
      (a.program_pda ∷ a.tenant ∷ a.market_group ∷ a.market_meta ∷ a.market_base_vault
        ∷ a.market_nav_vault ∷ a.fee_vault ∷ a.wsol_mint ∷ a.user_base_token_ata
        ∷ a.mayflower_market ∷ a.personal_position ∷ rt.token_id ∷ a.log_account
        ∷ a.mayflower_program ∷ [])
      (signer_seeds rt a.position.authority_seed)

-- The limits of a key that may borrow only within them. The key state is the new one.
unfoldable pub charge_borrow : ℕ → Option KeyState → ℕ → ℕ → Result (Option KeyState)
charge_borrow permissions key_state actual_borrowed slot =
    if not_any permissions perm_borrow && has_any permissions perm_limited_borrow
    then (do
      ks ← ok_or key_state rate_limit_exceeded
      bucket ← consume_rate_limit ks.borrow_bucket actual_borrowed slot
      total ← consume_total_limit ks.total_borrowed ks.total_borrow_limit actual_borrowed
      ok (some (record ks { borrow_bucket = bucket; total_borrowed = total })))
    else ok key_state

module _ (rt : Runtime) (clock : Clock) where
  unfoldable pub borrow_handler :
      TradeAccounts → ℕ → Store → Result (PositionState × Option KeyState × Store)
  borrow_handler a amount s = do
    permissions ←
        validate_key rt s a.signer a.key_asset a.position.authority_seed
          (bit_or perm_borrow perm_limited_borrow) a.config.collection
    check_key_state a
    require (ltb 0 amount) insufficient_funds
    check_personal_position rt a
    check_log rt a
    let position = touch clock a.key_asset a.position
    debt_before ← read_debt (s a.personal_position).bytes
    s' ← rt.invoke (borrow_cpi rt a amount) s
    debt_after ← read_debt (s' a.personal_position).bytes
    actual_borrowed ← ok_or (checked_sub debt_after debt_before) borrow_capacity_exceeded
    key_state ← charge_borrow permissions a.key_state actual_borrowed clock.slot
    s'' ← close_if_initialized rt a a.user_base_token_ata s'
    user_debt ←
        ok_or (checked_add u64_mod position.user_debt actual_borrowed) borrow_capacity_exceeded
    ok (record position { user_debt = user_debt }, key_state, s'')

  -- The instruction: the constraints of the accounts, then the handler.
  unfoldable pub borrow :
      TradeAccounts → ℕ → Store → Result (PositionState × Option KeyState × Store)
  borrow a amount s = do borrow_constraints rt a; borrow_handler a amount s
