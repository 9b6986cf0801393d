-- ===== src/Tests/World.antt =====
-- A small world for the examples: a position with its admin key, a limited key and a recovery key,
-- and toy versions of Mayflower and of the derivation of addresses.
use hardig.Base.{
  ℕ, ◌+◌, ◌-◌, false, Option, none, some, [], ◌∷◌, ◌++◌, length, get_or, slice, replicate, ◌==◌,
  if◌then◌else◌, from_le_bytes, to_le_bytes, pos,
}
use hardig.Error.{ok}
use hardig.Runtime.{
  Runtime, Store, Pubkey, Bytes, Clock, AccountInfo, Cpi, invoke_signed, create_v2, burn_v1,
  create_collection_v2, transfer, codes,
}
use hardig.State.{PositionState, ProtocolConfig, MarketConfig, KeyState, RateBucket}
use hardig.Decimal.{u8_text}
use hardig.Format.{attribute}
use hardig.Mayflower.{
  pp_discriminator, market_discriminator, mayflower_tenant, mayflower_program_id,
}
use hardig.Trade.{TradeAccounts}
use hardig.Keys.{KeyAccounts}

abbrev pub holder : Pubkey
holder = 21

abbrev pub limited_key : Pubkey
limited_key = 22

abbrev pub admin_key : Pubkey
admin_key = 23

abbrev pub recovery_key : Pubkey
recovery_key = 24

abbrev pub key_collection : Pubkey
key_collection = 31

-- The personal position at Mayflower.
abbrev pub personal : Pubkey
personal = 117

abbrev pub set : Pubkey → AccountInfo → Store → Store
set key info s k = if k == key then info else s k

abbrev pub personal_bytes : ℕ → ℕ → Bytes
personal_bytes shares debt =
    pp_discriminator ++ replicate 96 0 ++ to_le_bytes 8 shares ++ to_le_bytes 8 debt

abbrev pub set_personal : ℕ → ℕ → Store → Store
set_personal shares debt =
    set personal
      (record { owner = mayflower_program_id; lamports = 1; bytes = personal_bytes shares debt })

-- A floor price of 1, which is 10 ^ 9 lamports, as a decimal of scale 0.
abbrev pub market_bytes : Bytes
market_bytes =
    market_discriminator ++ replicate 96 0 ++ (0 ∷ 0 ∷ 0 ∷ 0 ∷ []) ++ to_le_bytes 12 1 ++ (0 ∷ [])

-- A token account with a balance.
abbrev pub token_bytes : ℕ → Bytes
token_bytes amount = replicate 64 0 ++ to_le_bytes 8 amount

abbrev pub set_token : ℕ → Store → Store
set_token amount = set 161 (record { owner = 13; lamports = 1; bytes = token_bytes amount })

abbrev pub shares_of : Store → ℕ
shares_of s = from_le_bytes (slice (s personal).bytes 104 112)

abbrev pub debt_of : Store → ℕ
debt_of s = from_le_bytes (slice (s personal).bytes 112 120)

-- What the toy Mayflower does with an amount, by the first byte of the instruction.
abbrev pub moved : ℕ → ℕ → Store → Store
moved tag amount s =
    if tag == 30
    then set_personal (shares_of s + amount) (debt_of s) s
    else if tag == 223
    then set_personal (shares_of s - amount) (debt_of s) s
    else if tag == 228
    then set_token amount (set_personal (shares_of s) (debt_of s + amount) s)
    else if tag == 234
    then set_personal (shares_of s) (debt_of s - amount) s
    else s

abbrev pub effect : Cpi → Store → Store
effect (invoke_signed i accounts seeds) s =
    moved (get_or i.payload 0 0) (from_le_bytes (slice i.payload 8 16)) s
effect (create_v2 c seeds) s =
    set c.asset (record { owner = 12; lamports = 1; bytes = 1 ∷ to_le_bytes 32 c.owner }) s
effect (burn_v1 b seeds) s = set b.asset (record { owner = 0; lamports = 0; bytes = [] }) s
effect (create_collection_v2 c p u n uri seeds) s = s
effect (transfer from to lamports) s = s

-- An address is found by the length of the first seed; the text of a key is its number, and the
-- balance of a key NFT stands for its permissions.
abbrev pub world : Runtime
world = record {
  program_id = 11;
  mpl_core_id = 12;
  token_id = 13;
  system_id = 0;
  find_program_address = λ seeds program. (100 + length (get_or seeds 0 []), 254);
  create_program_address = λ seeds program. some (100 + length (get_or seeds 0 []));
  associated_token_address = λ wallet mint. wallet + mint;
  key_text = λ k. k ∷ [];
  asset_kind = λ b. some b;
  asset_v1 = 1;
  fetch_attributes = λ info. some (
      attribute (codes "permissions") (u8_text info.lamports)
      ∷ attribute (codes "position") (admin_key ∷ [])
      ∷ []);
  asset_name = λ bytes. some (codes "Admin");
  minimum_balance = λ n. n;
  invoke = λ c s. ok (effect c s);
}

abbrev pub key_info : ℕ → AccountInfo
key_info permissions = record {
  owner = 12;
  lamports = permissions;
  bytes = 1 ∷ to_le_bytes 32 holder ++ 2 ∷ to_le_bytes 32 key_collection;
}

-- 500 shares, a debt of 100, a key with the two limited permissions, the admin key and the
-- recovery key.
abbrev pub store : Store
store = set limited_key (key_info 0xc0) (
    set admin_key (key_info 0x3f) (
      set recovery_key (key_info 0) (
        set 55 (record { owner = mayflower_program_id; lamports = 1; bytes = market_bytes })
          (set_personal 500 100 (λ k. record { owner = 0; lamports = 0; bytes = [] })))))

abbrev pub clock : Clock
clock = record { slot = 1000; unix_timestamp = pos 9000 }

abbrev pub config : ProtocolConfig
config = record { admin = 20; collection = key_collection; pending_admin = 0; bump = 254 }

abbrev pub position : PositionState
position = record {
  authority_seed = admin_key;
  position_pda = personal;
  market_config = 41;
  deposited_nav = 500;
  user_debt = 100;
  reserved_u16 = 0;
  last_admin_activity = pos 500;
  bump = 254;
  authority_bump = 254;
  current_admin_asset = admin_key;
  recovery_asset = recovery_key;
  recovery_lockout_secs = pos 8000;
  recovery_config_locked = false;
  artwork_id = none;
}

abbrev pub market : MarketConfig
market = record {
  nav_mint = 51;
  base_mint = 52;
  market_group = 53;
  market_meta = 54;
  mayflower_market = 55;
  market_base_vault = 56;
  market_nav_vault = 57;
  fee_vault = 58;
  bump = 254;
}

abbrev pub bucket : RateBucket
bucket = record { capacity = 200; refill_period = 1000; level = 10; last_update = 800 }

abbrev pub key_state : KeyState
key_state = record {
  authority_seed = admin_key;
  asset = limited_key;
  bump = 254;
  sell_bucket = bucket;
  borrow_bucket = bucket;
  total_sell_limit = 0;
  total_sold = 0;
  total_borrow_limit = 100;
  total_borrowed = 30;
}

abbrev pub trade : Pubkey → Option KeyState → TradeAccounts
trade key state = record {
  signer = holder;
  key_asset = key;
  key_state = state;
  position = position;
  config_key = 106;
  config = config;
  market_config_key = 41;
  market_config = market;
  program_pda = 109;
  personal_position = personal;
  user_shares = 124;
  user_nav_sol_ata = 160;
  user_wsol_ata = 161;
  user_base_token_ata = 161;
  tenant = mayflower_tenant;
  market_group = 53;
  market_meta = 54;
  mayflower_market = 55;
  nav_sol_mint = 51;
  market_base_vault = 56;
  market_nav_vault = 57;
  fee_vault = 58;
  wsol_mint = 52;
  mayflower_program = mayflower_program_id;
  log_account = 103;
}

abbrev pub manage : Pubkey → KeyAccounts
manage key = record {
  payer = holder;
  key_asset = key;
  position = position;
  config_key = 106;
  config = config;
  collection = key_collection;
  mpl_core_program = 12;
  remaining_accounts = [];
}
