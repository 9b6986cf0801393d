-- ===== src/State.antt =====
-- The accounts of programs/hardig/src/state/mod.rs and state/promo.rs, and the permission bits.
-- Integers are numbers; the type behind a field is its type in the source.
use hardig.Base.{
  ℕ, ◌+◌, ◌-◌, ◌*◌, ◌/◌, ◌%◌, Bool, Option, ℤ, min, leb, ◌==◌, if◌then◌else◌, saturating_add,
  u64_mod, bit_or,
}
use hardig.Runtime.{Pubkey, Bytes, Text, codes}

pub record ProtocolConfig : Type 0 where
  pub admin : Pubkey
  pub collection : Pubkey
  pub pending_admin : Pubkey
  pub bump : ℕ  -- u8

-- `ProtocolConfig::SEED`, `ProtocolConfig::SIZE`
abbrev pub config_seed : Bytes
config_seed = codes "config"

abbrev pub config_size : ℕ
config_size = 8 + 32 + 32 + 32 + 1

pub record PositionState : Type 0 where
  pub authority_seed : Pubkey
  pub position_pda : Pubkey
  pub market_config : Pubkey
  pub deposited_nav : ℕ  -- u64
  pub user_debt : ℕ  -- u64
  pub reserved_u16 : ℕ  -- u16
  pub last_admin_activity : ℤ  -- i64
  pub bump : ℕ  -- u8
  pub authority_bump : ℕ  -- u8
  pub current_admin_asset : Pubkey
  pub recovery_asset : Pubkey
  pub recovery_lockout_secs : ℤ  -- i64
  pub recovery_config_locked : Bool
  pub artwork_id : Option Pubkey

pub record MarketConfig : Type 0 where
  pub nav_mint : Pubkey
  pub base_mint : Pubkey
  pub market_group : Pubkey
  pub market_meta : Pubkey
  pub mayflower_market : Pubkey
  pub market_base_vault : Pubkey
  pub market_nav_vault : Pubkey
  pub fee_vault : Pubkey
  pub bump : ℕ  -- u8

pub record TrustedProvider : Type 0 where
  pub program_id : Pubkey
  pub added_by : Pubkey
  pub active : Bool
  pub bump : ℕ  -- u8

abbrev pub perm_buy : ℕ
perm_buy = 0x01

abbrev pub perm_sell : ℕ
perm_sell = 0x02

abbrev pub perm_borrow : ℕ
perm_borrow = 0x04

abbrev pub perm_repay : ℕ
perm_repay = 0x08

abbrev pub perm_reinvest : ℕ
perm_reinvest = 0x10

abbrev pub perm_manage_keys : ℕ
perm_manage_keys = 0x20

abbrev pub perm_limited_sell : ℕ
perm_limited_sell = 0x40

abbrev pub perm_limited_borrow : ℕ
perm_limited_borrow = 0x80

pub data KeyCreatorOrigin : Type 0 where
  admin promo : KeyCreatorOrigin

unfoldable pub allowed_permissions : KeyCreatorOrigin → ℕ
allowed_permissions KeyCreatorOrigin.admin =
    bit_or
      (bit_or
        (bit_or (bit_or (bit_or (bit_or perm_buy perm_sell) perm_borrow) perm_repay) perm_reinvest)
        perm_limited_sell)
      perm_limited_borrow
allowed_permissions KeyCreatorOrigin.promo = bit_or perm_buy perm_limited_borrow

abbrev pub preset_operator : ℕ
preset_operator = 0x19

abbrev pub preset_admin : ℕ
preset_admin = 0x3f

pub record RateBucket : Type 0 where
  pub capacity : ℕ  -- u64
  pub refill_period : ℕ  -- u64
  pub level : ℕ  -- u64
  pub last_update : ℕ  -- u64

-- `RateBucket::default()`
abbrev pub empty_bucket : RateBucket
empty_bucket = record { capacity = 0; refill_period = 0; level = 0; last_update = 0 }

-- The refill of the two readers of a bucket: proportional to the slots that went by, in 128-bit
-- arithmetic, cut to 64 bits.
unfoldable pub available_now : RateBucket → ℕ → ℕ
available_now b current_slot =
    let elapsed = current_slot - b.last_update in
    let refill =
      if leb b.refill_period elapsed
      then b.capacity
      else (b.capacity * elapsed / b.refill_period) % u64_mod in
    if b.capacity == 0 then 0 else min (saturating_add u64_mod b.level refill) b.capacity

pub record KeyState : Type 0 where
  pub authority_seed : Pubkey
  pub asset : Pubkey
  pub bump : ℕ  -- u8
  pub sell_bucket : RateBucket
  pub borrow_bucket : RateBucket
  pub total_sell_limit : ℕ  -- u64
  pub total_sold : ℕ  -- u64
  pub total_borrow_limit : ℕ  -- u64
  pub total_borrowed : ℕ  -- u64

pub record PromoConfig : Type 0 where
  pub authority_seed : Pubkey
  pub permissions : ℕ  -- u8
  pub borrow_capacity : ℕ  -- u64
  pub borrow_refill_period : ℕ  -- u64
  pub sell_capacity : ℕ  -- u64
  pub sell_refill_period : ℕ  -- u64
  pub min_deposit_lamports : ℕ  -- u64
  pub max_claims : ℕ  -- u32
  pub claims_count : ℕ  -- u32
  pub active : Bool
  pub total_borrow_limit : ℕ  -- u64
  pub total_sell_limit : ℕ  -- u64
  pub initial_fill_bps : ℕ  -- u16
  pub name_suffix : Text
  pub image_uri : Text
  pub market_name : Text
  pub bump : ℕ  -- u8

abbrev pub max_image_uri_len : ℕ
max_image_uri_len = 128

abbrev pub max_market_name_len : ℕ
max_market_name_len = 32

pub record ClaimReceipt : Type 0 where
  pub claimer : Pubkey
  pub promo : Pubkey
  pub bump : ℕ  -- u8
