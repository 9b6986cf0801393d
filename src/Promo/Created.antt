-- ===== src/Promo/Created.antt =====
-- What a successful run of programs/hardig/src/instructions/promo/create_promo.rs has done.
use hardig.Base.{ℕ, ◌/◌, ◌%◌, ◌≤◌, ◌<◌, ◌≡◌, true, sym, leb, leb→le, ==→eq, ◌==◌}
use hardig.Error.{
  ok, >>=-eq-ok, >>-eq-ok, require, require-true, constrain, constrain-true, ok_injective,
  name_too_long, image_uri_too_long, invalid_initial_fill,
}
use hardig.Runtime.{Runtime, Store, Pubkey, byte_len}
use hardig.State.{
  PromoConfig, KeyCreatorOrigin, perm_manage_keys, max_image_uri_len, max_market_name_len,
}
use hardig.Permissions.{validate_delegated_permissions}
use hardig.Permissions.Delegable.{Grantable, LimitsFit, validate_delegated_permissions_iff}
use hardig.KeyCheck.{validate_key}
use hardig.Trade.Accounts.{config_constraint}
use hardig.Keys.{KeyAccounts, init_constraint}
use hardig.Promo.{PromoTerms, create_promo, create_promo_handler, new_promo, promo_seeds}

-- A promotion was created: a key of the position that may manage keys was shown, the account was
-- unused, the terms are within their bounds, and the promotion has them, active and unclaimed.
pub record Created (rt : Runtime) (a : KeyAccounts) (promo_key : Pubkey) (t : PromoTerms)
    (s : Store) (promo : PromoConfig) : Type 0 where
  pub permissions : ℕ
  pub validated :
      validate_key rt s a.payer a.key_asset a.position.authority_seed perm_manage_keys
        a.config.collection
      ≡ ok permissions
  pub fresh : (s promo_key).owner ≡ rt.system_id
  pub grantable : Grantable KeyCreatorOrigin.promo t.permissions
  pub sell_fits :
      LimitsFit (t.permissions / 64 % 2) t.sell_capacity t.sell_refill_period t.total_sell_limit
  pub borrow_fits :
      LimitsFit
        (t.permissions / 128 % 2)
        t.borrow_capacity
        t.borrow_refill_period
        t.total_borrow_limit
  pub named : byte_len t.name_suffix ≤ 32
  pub pictured : byte_len t.image_uri ≤ max_image_uri_len
  pub marketed : byte_len t.market_name ≤ max_market_name_len
  pub filled : t.initial_fill_bps ≤ 10_000
  pub terms : promo ≡ record {
    authority_seed = a.position.authority_seed;
    permissions = t.permissions;
    borrow_capacity = t.borrow_capacity;
    borrow_refill_period = t.borrow_refill_period;
    sell_capacity = t.sell_capacity;
    sell_refill_period = t.sell_refill_period;
    min_deposit_lamports = t.min_deposit_lamports;
    max_claims = t.max_claims;
    claims_count = 0;
    active = true;
    total_borrow_limit = t.total_borrow_limit;
    total_sell_limit = t.total_sell_limit;
    initial_fill_bps = t.initial_fill_bps;
    name_suffix = t.name_suffix;
    image_uri = t.image_uri;
    market_name = t.market_name;
    bump =
        (rt.find_program_address
          (promo_seeds a.position.authority_seed t.name_suffix)
          rt.program_id).1;
  }

module _ (rt : Runtime) (a : KeyAccounts) (promo_key : Pubkey) (t : PromoTerms) (s : Store)
    (promo : PromoConfig) where
  -- A promotion that is created, for a permission byte, was signed by the holder of a key of the
  -- position that may manage keys, at an unused address. The byte grants buying, limited borrowing
  -- or both, with a bucket that refills exactly for limited borrowing and no limits on selling;
  -- the texts are within 32, 128 and 32 bytes and the first fill is at most the whole bucket. The
  -- promotion has these terms, is active, and has no claims.
  pub create_promo_effect :
      t.permissions < 256
      → create_promo rt a promo_key t s ≡ ok promo
      → Created rt a promo_key t s promo
  unfolding create_promo create_promo_handler init_constraint new_promo
  create_promo_effect byte h =
      let seeds = promo_seeds a.position.authority_seed t.name_suffix in
      let (init, t₁) = >>-eq-ok (init_constraint rt s seeds promo_key) _ h in
      let (_, free) =
        >>-eq-ok (constrain (promo_key == (rt.find_program_address seeds rt.program_id).0)) _
          init in
      let (_, t₂) = >>-eq-ok (config_constraint rt a.config_key a.config) _ t₁ in
      let (perm, valid, t₃) =
        >>=-eq-ok
          (validate_key rt s a.payer a.key_asset a.position.authority_seed perm_manage_keys
            a.config.collection)
          _ t₂ in
      let (named, t₄) = >>-eq-ok (require (leb (byte_len t.name_suffix) 32) name_too_long) _ t₃ in
      let (pictured, t₅) =
        >>-eq-ok (require (leb (byte_len t.image_uri) max_image_uri_len) image_uri_too_long) _ t₄ in
      let (marketed, t₆) =
        >>-eq-ok (require (leb (byte_len t.market_name) max_market_name_len) name_too_long) _ t₅ in
      let (delegable, t₇) =
        >>-eq-ok
          (validate_delegated_permissions KeyCreatorOrigin.promo t.permissions t.sell_capacity
            t.sell_refill_period t.borrow_capacity t.borrow_refill_period t.total_sell_limit
            t.total_borrow_limit)
          _ t₆ in
      let (filled, t₈) =
        >>-eq-ok (require (leb t.initial_fill_bps 10_000) invalid_initial_fill) _ t₇ in
      let (grantable, sell_fits, borrow_fits) =
        (validate_delegated_permissions_iff KeyCreatorOrigin.promo t.permissions t.sell_capacity
            t.sell_refill_period t.borrow_capacity t.borrow_refill_period t.total_sell_limit
            t.total_borrow_limit byte).0
          delegable in
      record {
        permissions = perm;
        validated = valid;
        fresh = ==→eq (s promo_key).owner rt.system_id (constrain-true _ free);
        grantable = grantable;
        sell_fits = sell_fits;
        borrow_fits = borrow_fits;
        named = leb→le _ _ (require-true _ _ named);
        pictured = leb→le _ _ (require-true _ _ pictured);
        marketed = leb→le _ _ (require-true _ _ marketed);
        filled = leb→le _ _ (require-true _ _ filled);
        terms = sym (ok_injective t₈);
      }
