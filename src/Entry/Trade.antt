-- ===== src/Entry/Trade.antt =====
-- The entry points of the trading instructions: `buy`, `withdraw`, `borrow`, `repay` and `reinvest`
-- of programs/hardig/src/lib.rs, with the account structs of the files of their names under
-- programs/hardig/src/instructions/.
pub mod Slots
pub mod InSync
pub mod Arrives
pub mod Handled
pub mod Selected
use hardig.Base.{ℕ, Bool, true, false, Option, none, some, List, [], ◌∷◌, ◌++◌, ◌==◌}
use hardig.Error.{Result, ok, err, ◌>>=◌, ◌>>◌, constrain}
use hardig.Runtime.{Runtime, Store, Pubkey, Bytes, Clock, AccountMeta, codes}
use hardig.State.{PositionState, KeyState, ProtocolConfig, MarketConfig}
use hardig.Trade.{TradeAccounts}
use hardig.Trade.Buy.{buy}
use hardig.Trade.Withdraw.{withdraw}
use hardig.Trade.Borrow.{borrow}
use hardig.Trade.Repay.{repay}
use hardig.Trade.Reinvest.{reinvest}
use hardig.Client.{Host}
use hardig.Anchor.{Anchor, load, load_optional}
use hardig.Entry.{Borsh, fits, account_at}
use hardig.Entry.Trade.Slots.{buy_slots, withdraw_slots, borrow_slots, repay_slots, reinvest_slots}
use hardig.Entry.Args.{dispatch, read_two_u64, read_one_u64, read_u64_u16}

module _ (rt : Runtime) (anchor : Anchor) where
  -- The accounts of the list, as the handler takes them. A field that the struct does not have is 0.
  unfoldable pub buy_accounts : List AccountMeta → Store → Result TradeAccounts
  unfolding fits account_at load load_optional
  buy_accounts metas s = do
    constrain (fits rt.program_id buy_slots metas)
    position ← load rt anchor.position_state s (account_at metas 2)
    config ← load rt anchor.protocol_config s (account_at metas 3)
    market_config ← load rt anchor.market_config s (account_at metas 4)
    constrain (account_at metas 5 == rt.system_id)
    constrain (account_at metas 21 == rt.token_id)
    ok (record {
      signer = account_at metas 0;
      key_asset = account_at metas 1;
      key_state = none;
      position = position;
      config_key = account_at metas 3;
      config = config;
      market_config_key = account_at metas 4;
      market_config = market_config;
      program_pda = account_at metas 6;
      personal_position = account_at metas 7;
      user_shares = account_at metas 8;
      user_nav_sol_ata = account_at metas 9;
      user_wsol_ata = account_at metas 10;
      user_base_token_ata = 0;
      tenant = account_at metas 11;
      market_group = account_at metas 12;
      market_meta = account_at metas 13;
      mayflower_market = account_at metas 14;
      nav_sol_mint = account_at metas 15;
      market_base_vault = account_at metas 16;
      market_nav_vault = account_at metas 17;
      fee_vault = account_at metas 18;
      wsol_mint = account_at metas 19;
      mayflower_program = account_at metas 20;
      log_account = account_at metas 22;
    })

  unfoldable pub withdraw_accounts : List AccountMeta → Store → Result TradeAccounts
  unfolding fits account_at load load_optional
  withdraw_accounts metas s = do
    constrain (fits rt.program_id withdraw_slots metas)
    key_state ← load_optional rt anchor.key_state s (account_at metas 2)
    position ← load rt anchor.position_state s (account_at metas 3)
    config ← load rt anchor.protocol_config s (account_at metas 4)
    market_config ← load rt anchor.market_config s (account_at metas 5)
    constrain (account_at metas 6 == rt.system_id)
    constrain (account_at metas 22 == rt.token_id)
    ok (record {
      signer = account_at metas 0;
      key_asset = account_at metas 1;
      key_state = key_state;
      position = position;
      config_key = account_at metas 4;
      config = config;
      market_config_key = account_at metas 5;
      market_config = market_config;
      program_pda = account_at metas 7;
      personal_position = account_at metas 8;
      user_shares = account_at metas 9;
      user_nav_sol_ata = account_at metas 10;
      user_wsol_ata = account_at metas 11;
      user_base_token_ata = 0;
      tenant = account_at metas 12;
      market_group = account_at metas 13;
      market_meta = account_at metas 14;
      mayflower_market = account_at metas 15;
      nav_sol_mint = account_at metas 16;
      market_base_vault = account_at metas 17;
      market_nav_vault = account_at metas 18;
      fee_vault = account_at metas 19;
      wsol_mint = account_at metas 20;
      mayflower_program = account_at metas 21;
      log_account = account_at metas 23;
    })

  unfoldable pub borrow_accounts : List AccountMeta → Store → Result TradeAccounts
  unfolding fits account_at load load_optional
  borrow_accounts metas s = do
    constrain (fits rt.program_id borrow_slots metas)
    key_state ← load_optional rt anchor.key_state s (account_at metas 2)
    position ← load rt anchor.position_state s (account_at metas 3)
    config ← load rt anchor.protocol_config s (account_at metas 4)
    market_config ← load rt anchor.market_config s (account_at metas 5)
    constrain (account_at metas 6 == rt.system_id)
    constrain (account_at metas 19 == rt.token_id)
    ok (record {
      signer = account_at metas 0;
      key_asset = account_at metas 1;
      key_state = key_state;
      position = position;
      config_key = account_at metas 4;
      config = config;
      market_config_key = account_at metas 5;
      market_config = market_config;
      program_pda = account_at metas 7;
      personal_position = account_at metas 8;
      user_shares = 0;
      user_nav_sol_ata = 0;
      user_wsol_ata = 0;
      user_base_token_ata = account_at metas 9;
      tenant = account_at metas 10;
      market_group = account_at metas 11;
      market_meta = account_at metas 12;
      mayflower_market = account_at metas 17;
      nav_sol_mint = 0;
      market_base_vault = account_at metas 13;
      market_nav_vault = account_at metas 14;
      fee_vault = account_at metas 15;
      wsol_mint = account_at metas 16;
      mayflower_program = account_at metas 18;
      log_account = account_at metas 20;
    })

  unfoldable pub repay_accounts : List AccountMeta → Store → Result TradeAccounts
  unfolding fits account_at load load_optional
  repay_accounts metas s = do
    constrain (fits rt.program_id repay_slots metas)
    position ← load rt anchor.position_state s (account_at metas 2)
    config ← load rt anchor.protocol_config s (account_at metas 3)
    market_config ← load rt anchor.market_config s (account_at metas 4)
    constrain (account_at metas 5 == rt.system_id)
    constrain (account_at metas 14 == rt.token_id)
    ok (record {
      signer = account_at metas 0;
      key_asset = account_at metas 1;
      key_state = none;
      position = position;
      config_key = account_at metas 3;
      config = config;
      market_config_key = account_at metas 4;
      market_config = market_config;
      program_pda = account_at metas 6;
      personal_position = account_at metas 7;
      user_shares = 0;
      user_nav_sol_ata = 0;
      user_wsol_ata = 0;
      user_base_token_ata = account_at metas 8;
      tenant = 0;
      market_group = 0;
      market_meta = account_at metas 9;
      mayflower_market = account_at metas 12;
      nav_sol_mint = 0;
      market_base_vault = account_at metas 10;
      market_nav_vault = 0;
      fee_vault = 0;
      wsol_mint = account_at metas 11;
      mayflower_program = account_at metas 13;
      log_account = account_at metas 15;
    })

  unfoldable pub reinvest_accounts : List AccountMeta → Store → Result TradeAccounts
  unfolding fits account_at load load_optional
  reinvest_accounts metas s = do
    constrain (fits rt.program_id reinvest_slots metas)
    position ← load rt anchor.position_state s (account_at metas 2)
    market_config ← load rt anchor.market_config s (account_at metas 3)
    config ← load rt anchor.protocol_config s (account_at metas 4)
    constrain (account_at metas 5 == rt.system_id)
    constrain (account_at metas 22 == rt.token_id)
    ok (record {
      signer = account_at metas 0;
      key_asset = account_at metas 1;
      key_state = none;
      position = position;
      config_key = account_at metas 4;
      config = config;
      market_config_key = account_at metas 3;
      market_config = market_config;
      program_pda = account_at metas 6;
      personal_position = account_at metas 7;
      user_shares = account_at metas 8;
      user_nav_sol_ata = account_at metas 9;
      user_wsol_ata = account_at metas 10;
      user_base_token_ata = account_at metas 11;
      tenant = account_at metas 12;
      market_group = account_at metas 13;
      market_meta = account_at metas 14;
      mayflower_market = account_at metas 15;
      nav_sol_mint = account_at metas 16;
      market_base_vault = account_at metas 17;
      market_nav_vault = account_at metas 18;
      fee_vault = account_at metas 19;
      wsol_mint = account_at metas 20;
      mayflower_program = account_at metas 21;
      log_account = account_at metas 23;
    })

module _ (rt : Runtime) (clock : Clock) (host : Host) (anchor : Anchor) (borsh : Borsh) where
  unfoldable pub enter_buy : List AccountMeta → Bytes → Store → Result (PositionState × Store)
  unfolding buy_accounts dispatch read_two_u64
  enter_buy metas payload s = do
    bytes ← dispatch host (codes "buy") payload
    (amount, min_out) ← read_two_u64 borsh bytes
    accounts ← buy_accounts rt anchor metas s
    buy rt clock accounts amount min_out s

  unfoldable pub enter_withdraw :
      List AccountMeta → Bytes → Store → Result (PositionState × Option KeyState × Store)
  unfolding withdraw_accounts dispatch read_two_u64
  enter_withdraw metas payload s = do
    bytes ← dispatch host (codes "withdraw") payload
    (amount, min_out) ← read_two_u64 borsh bytes
    accounts ← withdraw_accounts rt anchor metas s
    withdraw rt clock accounts amount min_out s

  unfoldable pub enter_borrow :
      List AccountMeta → Bytes → Store → Result (PositionState × Option KeyState × Store)
  unfolding borrow_accounts dispatch read_one_u64
  enter_borrow metas payload s = do
    bytes ← dispatch host (codes "borrow") payload
    amount ← read_one_u64 borsh bytes
    accounts ← borrow_accounts rt anchor metas s
    borrow rt clock accounts amount s

  unfoldable pub enter_repay : List AccountMeta → Bytes → Store → Result (PositionState × Store)
  unfolding repay_accounts dispatch read_one_u64
  enter_repay metas payload s = do
    bytes ← dispatch host (codes "repay") payload
    amount ← read_one_u64 borsh bytes
    accounts ← repay_accounts rt anchor metas s
    repay rt clock accounts amount s

  unfoldable pub enter_reinvest : List AccountMeta → Bytes → Store → Result (PositionState × Store)
  unfolding reinvest_accounts dispatch read_u64_u16
  enter_reinvest metas payload s = do
    bytes ← dispatch host (codes "reinvest") payload
    (min_out, max_spread_bps) ← read_u64_u16 borsh bytes
    accounts ← reinvest_accounts rt anchor metas s
    reinvest rt clock accounts min_out max_spread_bps s
