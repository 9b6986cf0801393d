-- ===== src/Trade/Accounts.antt =====
-- The constraints of the account structs of the trading instructions
-- (programs/hardig/src/instructions/buy.rs, withdraw.rs, borrow.rs, repay.rs and reinvest.rs), in
-- the order of their fields.
use hardig.Base.{Bool, false, Option, none, some, [], ◌∷◌, ◌==◌}
use hardig.Error.{Result, ◌>>◌, require, constrain, invalid_mayflower_account, invalid_ata}
use hardig.Runtime.{Runtime, Pubkey}
use hardig.State.{ProtocolConfig, config_seed}
use hardig.Mayflower.{mayflower_tenant, mayflower_program_id}
use hardig.Trade.{TradeAccounts, authority_pda}

-- The address of the seeds and the stored bump, if there is one, is `key`.
abbrev pub is_address : Option Pubkey → Pubkey → Bool
is_address none key = false
is_address (some k) key = k == key

-- `seeds = [ProtocolConfig::SEED], bump = config.bump`
abbrev pub config_constraint : Runtime → Pubkey → ProtocolConfig → Result (Unit {0})
config_constraint rt key config = constrain (
    is_address (rt.create_program_address (config_seed ∷ (config.bump ∷ []) ∷ []) rt.program_id)
      key)

module _ (rt : Runtime) (a : TradeAccounts) where
  unfoldable pub market_config_constraint : Result (Unit {0})
  market_config_constraint =
      require (a.market_config_key == a.position.market_config) invalid_mayflower_account

  unfoldable pub program_pda_constraint : Result (Unit {0})
  program_pda_constraint =
      constrain (a.program_pda == (authority_pda rt a.position.authority_seed).0)

  unfoldable pub nav_sol_ata_constraint : Result (Unit {0})
  nav_sol_ata_constraint =
      require
        (a.user_nav_sol_ata == rt.associated_token_address a.program_pda a.market_config.nav_mint)
        invalid_ata

  unfoldable pub wsol_ata_constraint : Result (Unit {0})
  wsol_ata_constraint =
      require
        (a.user_wsol_ata == rt.associated_token_address a.program_pda a.market_config.base_mint)
        invalid_ata

  unfoldable pub base_token_ata_constraint : Result (Unit {0})
  base_token_ata_constraint =
      require
        (a.user_base_token_ata
          == rt.associated_token_address a.program_pda a.market_config.base_mint)
        invalid_ata

  unfoldable pub tenant_constraint : Result (Unit {0})
  tenant_constraint = require (a.tenant == mayflower_tenant) invalid_mayflower_account

  unfoldable pub market_group_constraint : Result (Unit {0})
  market_group_constraint =
      require (a.market_group == a.market_config.market_group) invalid_mayflower_account

  unfoldable pub market_meta_constraint : Result (Unit {0})
  market_meta_constraint =
      require (a.market_meta == a.market_config.market_meta) invalid_mayflower_account

  unfoldable pub mayflower_market_constraint : Result (Unit {0})
  mayflower_market_constraint =
      require (a.mayflower_market == a.market_config.mayflower_market) invalid_mayflower_account

  unfoldable pub nav_sol_mint_constraint : Result (Unit {0})
  nav_sol_mint_constraint =
      require (a.nav_sol_mint == a.market_config.nav_mint) invalid_mayflower_account

  unfoldable pub base_vault_constraint : Result (Unit {0})
  base_vault_constraint =
      require (a.market_base_vault == a.market_config.market_base_vault) invalid_mayflower_account

  unfoldable pub nav_vault_constraint : Result (Unit {0})
  nav_vault_constraint =
      require (a.market_nav_vault == a.market_config.market_nav_vault) invalid_mayflower_account

  unfoldable pub fee_vault_constraint : Result (Unit {0})
  fee_vault_constraint =
      require (a.fee_vault == a.market_config.fee_vault) invalid_mayflower_account

  unfoldable pub wsol_mint_constraint : Result (Unit {0})
  wsol_mint_constraint =
      require (a.wsol_mint == a.market_config.base_mint) invalid_mayflower_account

  unfoldable pub mayflower_program_constraint : Result (Unit {0})
  mayflower_program_constraint =
      require (a.mayflower_program == mayflower_program_id) invalid_mayflower_account

  -- From the tenant to the program: the market's accounts as buy, withdraw and reinvest list them.
  unfoldable pub market_constraints : Result (Unit {0})
  market_constraints = do
    tenant_constraint
    market_group_constraint
    market_meta_constraint
    mayflower_market_constraint
    nav_sol_mint_constraint
    base_vault_constraint
    nav_vault_constraint
    fee_vault_constraint
    wsol_mint_constraint
    mayflower_program_constraint

  -- `struct Buy` and `struct Withdraw`, which have the same constraints
  unfoldable pub buy_constraints : Result (Unit {0})
  buy_constraints = do
    config_constraint rt a.config_key a.config
    market_config_constraint
    program_pda_constraint
    nav_sol_ata_constraint
    wsol_ata_constraint
    market_constraints

  unfoldable pub withdraw_constraints : Result (Unit {0})
  withdraw_constraints = buy_constraints

  -- `struct Borrow`
  unfoldable pub borrow_constraints : Result (Unit {0})
  borrow_constraints = do
    config_constraint rt a.config_key a.config
    market_config_constraint
    program_pda_constraint
    base_token_ata_constraint
    tenant_constraint
    market_group_constraint
    market_meta_constraint
    base_vault_constraint
    nav_vault_constraint
    fee_vault_constraint
    wsol_mint_constraint
    mayflower_market_constraint
    mayflower_program_constraint

  -- `struct Repay`
  unfoldable pub repay_constraints : Result (Unit {0})
  repay_constraints = do
    config_constraint rt a.config_key a.config
    market_config_constraint
    program_pda_constraint
    base_token_ata_constraint
    market_meta_constraint
    base_vault_constraint
    wsol_mint_constraint
    mayflower_market_constraint
    mayflower_program_constraint

  -- `struct Reinvest`
  unfoldable pub reinvest_constraints : Result (Unit {0})
  reinvest_constraints = do
    market_config_constraint
    config_constraint rt a.config_key a.config
    program_pda_constraint
    nav_sol_ata_constraint
    wsol_ata_constraint
    base_token_ata_constraint
    market_constraints
