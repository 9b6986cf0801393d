-- ===== src/Mayflower/Cpi.antt =====
-- The instructions sent to Mayflower and the addresses derived for it, of
-- programs/hardig/src/mayflower/cpi_accounts.rs.
use hardig.Base.{ℕ, Bool, true, false, [], ◌∷◌, ◌++◌, to_le_bytes}
use hardig.Runtime.{Runtime, Pubkey, Bytes, codes, AccountMeta, Instruction}
use hardig.Mayflower.{
  mayflower_program_id, mayflower_tenant, ix_init_personal_position, ix_buy, ix_sell, ix_borrow,
  ix_repay,
}

pub record MarketAddresses : Type 0 where
  pub nav_mint : Pubkey
  pub base_mint : Pubkey
  pub market_group : Pubkey
  pub market_meta : Pubkey
  pub mayflower_market : Pubkey
  pub market_base_vault : Pubkey
  pub market_nav_vault : Pubkey
  pub fee_vault : Pubkey

-- `key.as_ref()`
abbrev pub key_bytes : Pubkey → Bytes
key_bytes k = to_le_bytes 32 k

unfoldable pub derive_personal_position : Runtime → Pubkey → Pubkey → Pubkey
derive_personal_position rt owner market_meta =
    (rt.find_program_address
      (codes "personal_position" ∷ key_bytes market_meta ∷ key_bytes owner ∷ [])
      mayflower_program_id).0

unfoldable pub derive_personal_position_escrow : Runtime → Pubkey → Pubkey
derive_personal_position_escrow rt personal_position =
    (rt.find_program_address (codes "personal_position_escrow" ∷ key_bytes personal_position ∷ [])
      mayflower_program_id).0

unfoldable pub derive_log_account : Runtime → Pubkey
derive_log_account rt = (rt.find_program_address (codes "log" ∷ []) mayflower_program_id).0

-- `AccountMeta::new(key, is_signer)` and `AccountMeta::new_readonly`
abbrev pub writable : Pubkey → Bool → AccountMeta
writable k is_signer = record { pubkey = k; is_signer = is_signer; is_writable = true }

abbrev pub readonly : Pubkey → Bool → AccountMeta
readonly k is_signer = record { pubkey = k; is_signer = is_signer; is_writable = false }

module _ (rt : Runtime) where
  unfoldable pub build_init_personal_position_ix :
      Pubkey → Pubkey → Pubkey → Pubkey → MarketAddresses → Instruction
  build_init_personal_position_ix payer owner personal_position user_shares market = record {
    program = mayflower_program_id;
    metas =
        writable payer true
        ∷ readonly owner false
        ∷ readonly market.market_meta false
        ∷ readonly market.nav_mint false
        ∷ writable personal_position false
        ∷ writable user_shares false
        ∷ readonly rt.token_id false
        ∷ readonly rt.system_id false
        ∷ writable (derive_log_account rt) false
        ∷ readonly mayflower_program_id false
        ∷ [];
    payload = ix_init_personal_position;
  }

  unfoldable pub build_buy_ix :
      Pubkey → Pubkey → Pubkey → Pubkey → Pubkey → ℕ → ℕ → MarketAddresses → Instruction
  build_buy_ix user_wallet personal_position user_shares user_nav_sol_ata user_wsol_ata input_amount
        min_output market =
      record {
        program = mayflower_program_id;
        metas =
            writable user_wallet true
            ∷ readonly mayflower_tenant false
            ∷ readonly market.market_group false
            ∷ readonly market.market_meta false
            ∷ writable market.mayflower_market false
            ∷ writable personal_position false
            ∷ writable user_shares false
            ∷ writable market.nav_mint false
            ∷ readonly market.base_mint false
            ∷ writable user_nav_sol_ata false
            ∷ writable user_wsol_ata false
            ∷ writable market.market_base_vault false
            ∷ writable market.market_nav_vault false
            ∷ writable market.fee_vault false
            ∷ readonly rt.token_id false
            ∷ readonly rt.token_id false
            ∷ writable (derive_log_account rt) false
            ∷ readonly mayflower_program_id false
            ∷ [];
        payload = ix_buy ++ to_le_bytes 8 input_amount ++ to_le_bytes 8 min_output;
      }

  unfoldable pub build_sell_ix :
      Pubkey → Pubkey → Pubkey → Pubkey → Pubkey → ℕ → ℕ → MarketAddresses → Instruction
  build_sell_ix user_wallet personal_position user_shares user_nav_sol_ata user_wsol_ata
        input_amount min_output market =
      record {
        program = mayflower_program_id;
        metas =
            writable user_wallet true
            ∷ readonly mayflower_tenant false
            ∷ readonly market.market_group false
            ∷ readonly market.market_meta false
            ∷ writable market.mayflower_market false
            ∷ writable personal_position false
            ∷ writable market.market_base_vault false
            ∷ writable market.market_nav_vault false
            ∷ writable market.fee_vault false
            ∷ writable market.nav_mint false
            ∷ readonly market.base_mint false
            ∷ writable user_wsol_ata false
            ∷ writable user_nav_sol_ata false
            ∷ writable user_shares false
            ∷ readonly rt.token_id false
            ∷ readonly rt.token_id false
            ∷ writable (derive_log_account rt) false
            ∷ readonly mayflower_program_id false
            ∷ [];
        payload = ix_sell ++ to_le_bytes 8 input_amount ++ to_le_bytes 8 min_output;
      }

  unfoldable pub build_borrow_ix : Pubkey → Pubkey → Pubkey → ℕ → MarketAddresses → Instruction
  build_borrow_ix user_wallet personal_position user_base_token_ata borrow_amount market = record {
    program = mayflower_program_id;
    metas =
        writable user_wallet true
        ∷ readonly mayflower_tenant false
        ∷ readonly market.market_group false
        ∷ readonly market.market_meta false
        ∷ writable market.market_base_vault false
        ∷ writable market.market_nav_vault false
        ∷ writable market.fee_vault false
        ∷ readonly market.base_mint false
        ∷ writable user_base_token_ata false
        ∷ writable market.mayflower_market false
        ∷ writable personal_position false
        ∷ readonly rt.token_id false
        ∷ writable (derive_log_account rt) false
        ∷ readonly mayflower_program_id false
        ∷ [];
    payload = ix_borrow ++ to_le_bytes 8 borrow_amount;
  }

  unfoldable pub build_repay_ix : Pubkey → Pubkey → Pubkey → ℕ → MarketAddresses → Instruction
  build_repay_ix user_wallet personal_position user_base_token_ata repay_amount market = record {
    program = mayflower_program_id;
    metas =
        writable user_wallet true
        ∷ readonly market.market_meta false
        ∷ writable market.mayflower_market false
        ∷ writable personal_position false
        ∷ readonly market.base_mint false
        ∷ writable user_base_token_ata false
        ∷ writable market.market_base_vault false
        ∷ readonly rt.token_id false
        ∷ writable (derive_log_account rt) false
        ∷ readonly mayflower_program_id false
        ∷ [];
    payload = ix_repay ++ to_le_bytes 8 repay_amount;
  }
