-- ===== src/Tests/Running.antt =====
-- What the runs of the examples compute with.
use hardig.Base.{Bool, true, from_le_bytes, to_le_bytes, i64_saturating_sub}
use hardig.Runtime.{text_eq, byte_len}
use hardig.Decimal.{parse_u8, u8_text, padded, u64_text}
use hardig.RateLimit.{consume_rate_limit, consume_total_limit}
use hardig.KeyCheck.{validate_key, check_attributes, find_attribute, parse_value}
use hardig.Mayflower.{
  read_debt, read_deposited_shares, read_floor_price, calculate_borrow_capacity,
  decode_rust_decimal_to_lamports,
}
use hardig.Mayflower.Cpi.{
  build_buy_ix, build_sell_ix, build_borrow_ix, build_repay_ix, derive_personal_position,
  derive_personal_position_escrow, derive_log_account,
}
use hardig.Trade.{
  touch, token_amount, token_initialized, close_account, close_if_initialized, check_key_state,
  check_personal_position, check_escrow, check_log,
}
use hardig.Trade.Accounts.{
  market_config_constraint, program_pda_constraint, nav_sol_ata_constraint, wsol_ata_constraint,
  base_token_ata_constraint, tenant_constraint, market_group_constraint, market_meta_constraint,
  mayflower_market_constraint, nav_sol_mint_constraint, base_vault_constraint, nav_vault_constraint,
  fee_vault_constraint, wsol_mint_constraint, mayflower_program_constraint, market_constraints,
  buy_constraints, withdraw_constraints, borrow_constraints, repay_constraints,
  reinvest_constraints,
}
use hardig.Trade.Buy.{buy, buy_handler, buy_cpi}
use hardig.Trade.Borrow.{borrow, borrow_handler, borrow_cpi, charge_borrow}
use hardig.Trade.Withdraw.{withdraw, withdraw_handler, sell_cpi, charge_sell}
use hardig.Trade.Repay.{repay, repay_handler, repay_cpi}
use hardig.Trade.Reinvest.{reinvest, reinvest_handler, reinvest_borrow, reinvest_buy, check_spread}
use hardig.Artwork.{validate_artwork_receipt}
use hardig.Permissions.{validate_limits, validate_delegated_permissions}
use hardig.Format.{slots_to_duration, counted, join, format_sol_amount, trim_end_zeros}
use hardig.Keys.{collection_constraints, init_constraint, nft_name, create_key, burn_key, market_of}
use hardig.Keys.Authorize.{
  authorize_key, authorize_handler, mint, limit_text, full_bucket, new_key_state,
}
use hardig.Keys.Revoke.{revoke_key, revoke_handler}
use hardig.Recovery.{
  heartbeat, set_position_artwork, configure_recovery, configure_handler, burn_replaced,
}
use hardig.Recovery.Execute.{
  execute_recovery, execute_handler, check_holder, replace_keys, recovered,
}

-- Everything that a run of a trading instruction computes with.
unfoldable pub trading : Bool
unfolding validate_key check_attributes find_attribute parse_value parse_u8 u8_text text_eq
    read_debt read_deposited_shares read_floor_price calculate_borrow_capacity
    decode_rust_decimal_to_lamports build_buy_ix build_sell_ix build_borrow_ix build_repay_ix
    derive_personal_position derive_personal_position_escrow derive_log_account touch token_amount
    token_initialized close_account close_if_initialized check_key_state check_personal_position
    check_escrow check_log market_config_constraint program_pda_constraint nav_sol_ata_constraint
    wsol_ata_constraint base_token_ata_constraint tenant_constraint market_group_constraint
    market_meta_constraint mayflower_market_constraint nav_sol_mint_constraint base_vault_constraint
    nav_vault_constraint fee_vault_constraint wsol_mint_constraint mayflower_program_constraint
    market_constraints buy_constraints withdraw_constraints borrow_constraints repay_constraints
    reinvest_constraints buy buy_handler buy_cpi borrow borrow_handler borrow_cpi charge_borrow
    consume_rate_limit consume_total_limit from_le_bytes to_le_bytes withdraw withdraw_handler
    sell_cpi charge_sell repay repay_handler repay_cpi reinvest reinvest_handler reinvest_borrow
    reinvest_buy check_spread
trading = true

-- The same for the instructions that manage keys.
unfoldable pub managing : Bool
unfolding validate_key check_attributes find_attribute parse_value parse_u8 u8_text text_eq
    from_le_bytes to_le_bytes byte_len padded u64_text validate_artwork_receipt validate_limits
    validate_delegated_permissions slots_to_duration counted join format_sol_amount trim_end_zeros
    collection_constraints init_constraint nft_name create_key burn_key market_of authorize_key
    authorize_handler mint limit_text full_bucket new_key_state revoke_key revoke_handler heartbeat
    set_position_artwork configure_recovery configure_handler burn_replaced execute_recovery
    execute_handler check_holder replace_keys recovered i64_saturating_sub
managing = true
