-- ===== src/Entry/Trade/InSync.antt =====
-- When the state of the client (crates/tui/src/app.rs) and the accounts on the chain agree, and the
-- accounts that the program then takes from the lists of the client.
use hardig.Base.{◌≡◌, Option, none, some, [], ◌∷◌}
use hardig.Error.{ok}
use hardig.Runtime.{Runtime, Store}
use hardig.State.{PositionState, KeyState, ProtocolConfig, config_seed}
use hardig.Mayflower.{mayflower_tenant, mayflower_program_id}
use hardig.Mayflower.Cpi.{
  derive_personal_position, derive_personal_position_escrow, derive_log_account,
}
use hardig.Trade.{TradeAccounts, authority_pda}
use hardig.Client.{App}
use hardig.Client.Build.{config_pda}
use hardig.Client.Build.Trade.{Loaded, key_state_meta}
use hardig.Anchor.{Anchor, load_optional}

-- The client has loaded the position at `l.position_pda`: its addresses are the ones that belong
-- to the position, and the accounts hold what it has read.
pub record InSync (rt : Runtime) (anchor : Anchor) (s : Store) (app : App) (l : Loaded)
    (p : PositionState) (c : ProtocolConfig) (k : Option KeyState) : Type 0 where
  pub position_owned : (s l.position_pda).owner ≡ rt.program_id
  pub position_read : anchor.position_state (s l.position_pda).bytes ≡ some p
  pub config_owned : (s (config_pda rt)).owner ≡ rt.program_id
  pub config_read : anchor.protocol_config (s (config_pda rt)).bytes ≡ some c
  pub config_bump :
      rt.create_program_address (config_seed ∷ (c.bump ∷ []) ∷ []) rt.program_id
      ≡ some (config_pda rt)
  pub market_owned : (s l.mc_pda).owner ≡ rt.program_id
  pub market_read : anchor.market_config (s l.mc_pda).bytes ≡ some l.mc
  pub market_of_position : l.mc_pda ≡ p.market_config
  pub program_pda_derived : app.program_pda ≡ (authority_pda rt p.authority_seed).0
  pub pp_derived : app.pp_pda ≡ derive_personal_position rt app.program_pda l.mc.market_meta
  pub escrow_derived : app.escrow_pda ≡ derive_personal_position_escrow rt app.pp_pda
  pub log_derived : app.log_pda ≡ derive_log_account rt
  pub wsol_derived : app.wsol_ata ≡ rt.associated_token_address app.program_pda l.mc.base_mint
  pub nav_derived : app.nav_sol_ata ≡ rt.associated_token_address app.program_pda l.mc.nav_mint
  pub key_state_read :
      load_optional rt anchor.key_state s (key_state_meta rt app.my_key_state_pda).pubkey ≡ ok k

-- The accounts that the program takes from the list of the client.
abbrev pub client_accounts : Runtime → App → Loaded → PositionState → ProtocolConfig → TradeAccounts
client_accounts rt app l p c = record {
  signer = app.keypair;
  key_asset = l.key_asset;
  key_state = none;
  position = p;
  config_key = config_pda rt;
  config = c;
  market_config_key = l.mc_pda;
  market_config = l.mc;
  program_pda = app.program_pda;
  personal_position = app.pp_pda;
  user_shares = app.escrow_pda;
  user_nav_sol_ata = app.nav_sol_ata;
  user_wsol_ata = app.wsol_ata;
  user_base_token_ata = 0;
  tenant = mayflower_tenant;
  market_group = l.mc.market_group;
  market_meta = l.mc.market_meta;
  mayflower_market = l.mc.mayflower_market;
  nav_sol_mint = l.mc.nav_mint;
  market_base_vault = l.mc.market_base_vault;
  market_nav_vault = l.mc.market_nav_vault;
  fee_vault = l.mc.fee_vault;
  wsol_mint = l.mc.base_mint;
  mayflower_program = mayflower_program_id;
  log_account = app.log_pda;
}

module _ (rt : Runtime) (app : App) (l : Loaded) (p : PositionState) (c : ProtocolConfig) where
  abbrev pub withdraw_client_accounts : Option KeyState → TradeAccounts
  withdraw_client_accounts k = record (client_accounts rt app l p c) { key_state = k }

  abbrev pub borrow_client_accounts : Option KeyState → TradeAccounts
  borrow_client_accounts k = record (client_accounts rt app l p c) {
    key_state = k;
    user_shares = 0;
    user_nav_sol_ata = 0;
    user_wsol_ata = 0;
    user_base_token_ata = app.wsol_ata;
    nav_sol_mint = 0;
  }

  abbrev pub repay_client_accounts : TradeAccounts
  repay_client_accounts = record (client_accounts rt app l p c) {
    user_shares = 0;
    user_nav_sol_ata = 0;
    user_wsol_ata = 0;
    user_base_token_ata = app.wsol_ata;
    tenant = 0;
    market_group = 0;
    nav_sol_mint = 0;
    market_nav_vault = 0;
    fee_vault = 0;
  }

  abbrev pub reinvest_client_accounts : TradeAccounts
  reinvest_client_accounts = record (client_accounts rt app l p c) {
    user_base_token_ata = app.wsol_ata;
  }
