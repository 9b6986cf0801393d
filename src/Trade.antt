-- ===== src/Trade.antt =====
-- What the five trading instructions share: buy, withdraw, borrow, repay and reinvest of
-- programs/hardig/src/instructions/. Each is in the child of its name, with the constraints of its
-- `#[derive(Accounts)]` struct and its handler. The children below those prove what a successful
-- run has done.
pub mod Accounts
pub mod Draw
pub mod Buy
pub mod Withdraw
pub mod Borrow
pub mod Repay
pub mod Reinvest
use hardig.Base.{
  ℕ, ◌+◌, Bool, true, false, Option, none, some, List, [], ◌∷◌, length, get_or, slice,
  from_le_bytes, ltb, leb, ◌==◌, ◌/=◌, ◌&&◌, if◌then◌else◌,
}
use hardig.Error.{Result, ok, ◌>>=◌, ◌>>◌, require, invalid_key, invalid_mayflower_account}
use hardig.Runtime.{
  Runtime, Store, Pubkey, Bytes, Clock, Cpi, invoke_signed, Instruction, AccountMeta, codes,
}
use hardig.State.{PositionState, ProtocolConfig, MarketConfig, KeyState}
use hardig.Mayflower.Cpi.{
  MarketAddresses, key_bytes, writable, readonly, derive_personal_position,
  derive_personal_position_escrow, derive_log_account,
}

-- The accounts of a trading instruction. An instruction uses and constrains the fields that its
-- struct has: `key_state` belongs to withdraw and borrow, `user_base_token_ata` to borrow, repay
-- and reinvest.
pub record TradeAccounts : Type 0 where
  pub signer : Pubkey
  pub key_asset : Pubkey
  pub key_state : Option KeyState
  pub position : PositionState
  pub config_key : Pubkey
  pub config : ProtocolConfig
  pub market_config_key : Pubkey
  pub market_config : MarketConfig
  pub program_pda : Pubkey
  pub personal_position : Pubkey
  pub user_shares : Pubkey
  pub user_nav_sol_ata : Pubkey
  pub user_wsol_ata : Pubkey
  pub user_base_token_ata : Pubkey
  pub tenant : Pubkey
  pub market_group : Pubkey
  pub market_meta : Pubkey
  pub mayflower_market : Pubkey
  pub nav_sol_mint : Pubkey
  pub market_base_vault : Pubkey
  pub market_nav_vault : Pubkey
  pub fee_vault : Pubkey
  pub wsol_mint : Pubkey
  pub mayflower_program : Pubkey
  pub log_account : Pubkey

-- `mayflower::MarketAddresses { nav_mint: mc.nav_mint, … }`
abbrev pub market_addresses : MarketConfig → MarketAddresses
market_addresses mc = record {
  nav_mint = mc.nav_mint;
  base_mint = mc.base_mint;
  market_group = mc.market_group;
  market_meta = mc.market_meta;
  mayflower_market = mc.mayflower_market;
  market_base_vault = mc.market_base_vault;
  market_nav_vault = mc.market_nav_vault;
  fee_vault = mc.fee_vault;
}

-- `seeds = [b"authority", position.authority_seed.as_ref()], bump`
abbrev pub authority_pda : Runtime → Pubkey → Pubkey × ℕ
authority_pda rt seed =
    rt.find_program_address (codes "authority" ∷ key_bytes seed ∷ []) rt.program_id

-- `signer_seeds`, with the bump that the account framework found.
abbrev pub signer_seeds : Runtime → Pubkey → List Bytes
signer_seeds rt seed = codes "authority" ∷ key_bytes seed ∷ ((authority_pda rt seed).1 ∷ []) ∷ []

-- The admin key's use counts as admin activity.
unfoldable pub touch : Clock → Pubkey → PositionState → PositionState
touch clock key_asset p =
    if key_asset == p.current_admin_asset
    then record p { last_admin_activity = clock.unix_timestamp }
    else p

-- The balance of an SPL token account, or 0 where the data is too short for one.
unfoldable pub token_amount : Bytes → ℕ
token_amount bytes = if leb 72 (length bytes) then from_le_bytes (slice bytes 64 72) else 0

unfoldable pub token_initialized : Bytes → Bool
token_initialized bytes = leb 109 (length bytes) && (get_or bytes 108 0 /= 0)

-- SPL Token `CloseAccount` of `ata`, whose lamports go to `signer`.
unfoldable pub close_account : Runtime → Pubkey → Pubkey → Pubkey → Pubkey → Cpi
close_account rt ata signer program_pda seed =
    invoke_signed
      (record {
        program = rt.token_id;
        metas = writable ata false ∷ writable signer false ∷ readonly program_pda true ∷ [];
        payload = 9 ∷ [];
      })
      (ata ∷ signer ∷ program_pda ∷ []) (signer_seeds rt seed)

-- The token account is closed only if it is initialised.
unfoldable pub close_if_initialized : Runtime → TradeAccounts → Pubkey → Store → Result Store
close_if_initialized rt a ata s =
    if token_initialized (s ata).bytes
    then rt.invoke (close_account rt ata a.signer a.program_pda a.position.authority_seed) s
    else ok s

-- `if let Some(ref ks) = key_state { require!(ks.asset == key_asset.key(), InvalidKey) }`
unfoldable pub check_key_state : TradeAccounts → Result (Unit {0})
check_key_state a = elim a.key_state [
  | none ↦ ok tt
  | some ks ↦ require (ks.asset == a.key_asset) invalid_key
]

-- The addresses that the handlers derive and compare: the personal position, its escrow where the
-- instruction has one, and the log account.
unfoldable pub check_personal_position : Runtime → TradeAccounts → Result (Unit {0})
check_personal_position rt a =
    require
      (a.personal_position == derive_personal_position rt a.program_pda a.market_config.market_meta)
      invalid_mayflower_account

unfoldable pub check_escrow : Runtime → TradeAccounts → Result (Unit {0})
check_escrow rt a =
    let expected_pp = derive_personal_position rt a.program_pda a.market_config.market_meta in
    require (a.user_shares == derive_personal_position_escrow rt expected_pp)
      invalid_mayflower_account

unfoldable pub check_log : Runtime → TradeAccounts → Result (Unit {0})
check_log rt a = require (a.log_account == derive_log_account rt) invalid_mayflower_account
