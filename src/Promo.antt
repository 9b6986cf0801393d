-- ===== src/Promo.antt =====
-- Promotions, by which a position lets anybody claim a delegated key: the instructions of
-- programs/hardig/src/instructions/promo/. This file has the seeds and the two instructions of the
-- admin; `Claim` has the claim.
pub mod Claim
pub mod Minted
pub mod Claims
pub mod Deposit
pub mod Created
use hardig.Base.{
  ℕ, ◌+◌, ◌*◌, ◌/◌, ◌%◌, Bool, true, false, Option, none, some, List, [], ◌∷◌, ◌++◌, ltb, leb, ◌==◌,
  if◌then◌else◌,
}
use hardig.Error.{
  Result, ok, ◌>>=◌, ◌>>◌, require, constrain, name_too_long, image_uri_too_long,
  invalid_initial_fill, invalid_key, max_claims_below_current,
}
use hardig.Runtime.{Runtime, Store, Pubkey, Bytes, Text, codes, byte_len}
use hardig.State.{
  PromoConfig, KeyCreatorOrigin, perm_manage_keys, max_image_uri_len, max_market_name_len,
}
use hardig.Permissions.{validate_delegated_permissions}
use hardig.KeyCheck.{validate_key}
use hardig.Mayflower.Cpi.{key_bytes}
use hardig.Trade.Accounts.{config_constraint, is_address}
use hardig.Keys.{KeyAccounts, init_constraint}

-- `str::as_bytes`, the UTF-8 of a text.
unfoldable pub utf8 : Text → Bytes
utf8 [] = []
utf8 (c ∷ s) =
    let rest = utf8 s in
    if ltb c 0x80
    then c ∷ rest
    else if ltb c 0x800
    then (0xc0 + c / 64) ∷ (0x80 + c % 64) ∷ rest
    else if ltb c 0x10000
    then (0xe0 + c / 4096) ∷ (0x80 + c / 64 % 64) ∷ (0x80 + c % 64) ∷ rest
    else (0xf0 + c / 262144)
      ∷ (0x80 + c / 4096 % 64)
      ∷ (0x80 + c / 64 % 64)
      ∷ (0x80 + c % 64)
      ∷ rest

-- `seeds = [PromoConfig::SEED, position.authority_seed.as_ref(), name_suffix.as_bytes()]`
unfoldable pub promo_seeds : Pubkey → Text → List Bytes
promo_seeds authority_seed name_suffix =
    codes "promo" ∷ key_bytes authority_seed ∷ utf8 name_suffix ∷ []

-- `seeds = […], bump = promo.bump`
unfoldable pub promo_constraint : Runtime → Pubkey → Pubkey → PromoConfig → Result (Unit {0})
promo_constraint rt key authority_seed promo = constrain (
    is_address
      (rt.create_program_address
        (promo_seeds authority_seed promo.name_suffix ++ (promo.bump ∷ []) ∷ []) rt.program_id)
      key)

-- The arguments of `create_promo`.
pub record PromoTerms : Type 0 where
  pub name_suffix : Text
  pub permissions : ℕ
  pub borrow_capacity : ℕ
  pub borrow_refill_period : ℕ
  pub sell_capacity : ℕ
  pub sell_refill_period : ℕ
  pub total_borrow_limit : ℕ
  pub total_sell_limit : ℕ
  pub min_deposit_lamports : ℕ
  pub max_claims : ℕ
  pub initial_fill_bps : ℕ
  pub image_uri : Text
  pub market_name : Text

module _ (rt : Runtime) where
  -- The account that the handler fills in.
  unfoldable pub new_promo : Pubkey → PromoTerms → PromoConfig
  new_promo authority_seed t = record {
    authority_seed = authority_seed;
    permissions = t.permissions;
    borrow_capacity = t.borrow_capacity;
    borrow_refill_period = t.borrow_refill_period;
    sell_capacity = t.sell_capacity;
    sell_refill_period = t.sell_refill_period;
    min_deposit_lamports = t.min_deposit_lamports;
    max_claims = t.max_claims;
    claims_count = 0;
    active = true;
    total_borrow_limit = t.total_borrow_limit;
    total_sell_limit = t.total_sell_limit;
    initial_fill_bps = t.initial_fill_bps;
    name_suffix = t.name_suffix;
    image_uri = t.image_uri;
    market_name = t.market_name;
    bump = (rt.find_program_address (promo_seeds authority_seed t.name_suffix) rt.program_id).1;
  }

  unfoldable pub create_promo_handler : KeyAccounts → PromoTerms → Store → Result PromoConfig
  create_promo_handler a t s = do
    validate_key rt s a.payer a.key_asset a.position.authority_seed perm_manage_keys
        a.config.collection
    require (leb (byte_len t.name_suffix) 32) name_too_long
    require (leb (byte_len t.image_uri) max_image_uri_len) image_uri_too_long
    require (leb (byte_len t.market_name) max_market_name_len) name_too_long
    validate_delegated_permissions KeyCreatorOrigin.promo t.permissions t.sell_capacity
        t.sell_refill_period t.borrow_capacity t.borrow_refill_period t.total_sell_limit
        t.total_borrow_limit
    require (leb t.initial_fill_bps 10_000) invalid_initial_fill
    ok (new_promo a.position.authority_seed t)

  -- The instruction: the constraints of the accounts, then the handler.
  unfoldable pub create_promo : KeyAccounts → Pubkey → PromoTerms → Store → Result PromoConfig
  create_promo a promo_key t s = do
    init_constraint rt s (promo_seeds a.position.authority_seed t.name_suffix) promo_key
    config_constraint rt a.config_key a.config
    create_promo_handler a t s

-- `if let Some(active) = active { … }`, and the same for the number of claims.
unfoldable pub set_active : Option Bool → PromoConfig → PromoConfig
set_active none promo = promo
set_active (some active) promo = record promo { active = active }

unfoldable pub set_max_claims : Option ℕ → PromoConfig → Result PromoConfig
set_max_claims none promo = ok promo
set_max_claims (some max_claims) promo = do
  require (leb promo.claims_count max_claims) max_claims_below_current
  ok (record promo { max_claims = max_claims })

module _ (rt : Runtime) where
  unfoldable pub update_promo :
      KeyAccounts → Pubkey → PromoConfig → Option Bool → Option ℕ → Store → Result PromoConfig
  update_promo a promo_key promo active max_claims s = do
    promo_constraint rt promo_key a.position.authority_seed promo
    require (promo.authority_seed == a.position.authority_seed) invalid_key
    config_constraint rt a.config_key a.config
    validate_key rt s a.payer a.key_asset a.position.authority_seed perm_manage_keys
        a.config.collection
    set_max_claims max_claims (set_active active promo)
