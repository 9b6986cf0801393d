-- ===== src/Promo/Claim.antt =====
-- `claim_promo_key`: programs/hardig/src/instructions/promo/claim_promo_key.rs.
use hardig.Base.{
  ℕ, ◌*◌, ◌/◌, ◌%◌, Bool, true, Option, none, some, List, [], ◌∷◌, ◌++◌, ltb, leb, ◌==◌, ◌/=◌,
  if◌then◌else◌, checked_add, checked_sub, u64_mod, u32_mod,
}
use hardig.Error.{
  Result, ok, ◌>>=◌, ◌>>◌, require, constrain, ok_or, collection_not_created, promo_inactive,
  promo_max_claims_reached, invalid_key, insufficient_funds,
}
use hardig.Runtime.{Runtime, Store, Pubkey, Text, Clock, Attribute, create_v2, default_key, codes}
use hardig.State.{
  PositionState, KeyState, RateBucket, PromoConfig, ClaimReceipt, empty_bucket, perm_limited_sell,
  perm_limited_borrow,
}
use hardig.Permissions.{has_any}
use hardig.Format.{attribute, permission_attributes, metadata_uri}
use hardig.Mayflower.{read_deposited_shares}
use hardig.Mayflower.Cpi.{key_bytes}
use hardig.Trade.{TradeAccounts, check_personal_position, check_escrow, check_log}
use hardig.Trade.Accounts.{
  config_constraint, market_config_constraint, program_pda_constraint, nav_sol_ata_constraint,
  wsol_ata_constraint, market_constraints,
}
use hardig.Trade.Buy.{buy_cpi}
use hardig.Keys.{key_plugins, init_constraint, config_seeds}
use hardig.Keys.Authorize.{limit_text, key_state_seeds}
use hardig.Promo.{promo_constraint}

-- The accounts of the instruction: those of a trade, of which `signer` is the claimer and
-- `key_asset` the new key, and those of the promotion.
pub record ClaimAccounts : Type 0 where
  pub trade : TradeAccounts
  pub promo_key : Pubkey
  pub promo : PromoConfig
  pub claim_receipt_key : Pubkey
  pub key_state_key : Pubkey
  pub collection : Pubkey
  pub mpl_core_program : Pubkey

-- `seeds = [ClaimReceipt::SEED, promo.key().as_ref(), claimer.key().as_ref()]`
abbrev pub claim_seeds : Pubkey → Pubkey → List (List ℕ)
claim_seeds promo claimer = codes "claim" ∷ key_bytes promo ∷ key_bytes claimer ∷ []

unfoldable pub claim_constraints : Runtime → ClaimAccounts → Store → Result (Unit {0})
claim_constraints rt c s =
    let a = c.trade in
    do
      init_constraint rt s (claim_seeds c.promo_key a.signer) c.claim_receipt_key
      init_constraint rt s (key_state_seeds a.key_asset) c.key_state_key
      promo_constraint rt c.promo_key c.promo.authority_seed c.promo
      config_constraint rt a.config_key a.config
      require (a.config.collection /= default_key) collection_not_created
      require (c.collection == a.config.collection) collection_not_created
      constrain (c.mpl_core_program == rt.mpl_core_id)
      market_config_constraint rt a
      program_pda_constraint rt a
      nav_sol_ata_constraint rt a
      wsol_ata_constraint rt a
      market_constraints rt a

-- `None` for the empty text.
unfoldable pub non_empty : Text → Option Text
non_empty [] = none
non_empty (c ∷ s) = some (c ∷ s)

-- One attribute for a text that is there.
unfoldable pub optional_attribute : Text → Option Text → List Attribute
optional_attribute label none = []
optional_attribute label (some v) = attribute label v ∷ []

-- Step 7 and the attributes of step 8.
unfoldable pub claimed_attributes :
    PromoConfig → Text → Text → Option Text → Option Text → List Attribute
claimed_attributes promo seed_text promo_text sell_limit borrow_limit =
    permission_attributes promo.permissions
    ++ attribute (codes "position") seed_text
      ∷ attribute (codes "promo") promo_text
      ∷ (optional_attribute (codes "market") (non_empty promo.market_name)
          ++ optional_attribute (codes "limited_sell") sell_limit
          ++ optional_attribute (codes "limited_borrow") borrow_limit)

-- The level that a new bucket starts with, in basis points of its capacity.
unfoldable pub initial_level : ℕ → ℕ → ℕ
initial_level initial_fill_bps capacity = (capacity * initial_fill_bps / 10_000) % u64_mod

unfoldable pub claimed_bucket : Bool → ℕ → ℕ → ℕ → ℕ → RateBucket
claimed_bucket limited initial_fill_bps capacity refill_period slot =
    if limited
    then record {
      capacity = capacity;
      refill_period = refill_period;
      level = initial_level initial_fill_bps capacity;
      last_update = slot;
    }
    else empty_bucket

unfoldable pub claimed_key_state : Runtime → Clock → Pubkey → Pubkey → PromoConfig → KeyState
claimed_key_state rt clock asset authority_seed promo = record {
  authority_seed = authority_seed;
  asset = asset;
  bump = (rt.find_program_address (key_state_seeds asset) rt.program_id).1;
  sell_bucket =
      claimed_bucket (has_any promo.permissions perm_limited_sell) promo.initial_fill_bps
        promo.sell_capacity promo.sell_refill_period clock.slot;
  borrow_bucket =
      claimed_bucket (has_any promo.permissions perm_limited_borrow) promo.initial_fill_bps
        promo.borrow_capacity promo.borrow_refill_period clock.slot;
  total_sell_limit = promo.total_sell_limit;
  total_sold = 0;
  total_borrow_limit = promo.total_borrow_limit;
  total_borrowed = 0;
}

module _ (rt : Runtime) where
  -- Steps 6 to 11: the key.
  unfoldable pub claim_mint : ClaimAccounts → Store → Result Store
  claim_mint c s =
      let a = c.trade in
      let promo = c.promo in
      let name = codes "Härdig Key - " ++ promo.name_suffix in
      do
        sell_limit ←
            limit_text (has_any promo.permissions perm_limited_sell) promo.sell_capacity
              promo.sell_refill_period (codes "navSOL")
        borrow_limit ←
            limit_text (has_any promo.permissions perm_limited_borrow) promo.borrow_capacity
              promo.borrow_refill_period (codes "SOL")
        rt.invoke
            (create_v2
              (record {
                asset = a.key_asset;
                collection = c.collection;
                authority = a.config_key;
                payer = a.signer;
                owner = a.signer;
                name = name;
                uri =
                    metadata_uri name promo.permissions sell_limit borrow_limit
                      (non_empty promo.market_name) none (non_empty promo.image_uri);
                plugins = key_plugins (
                    claimed_attributes promo (rt.key_text a.position.authority_seed)
                      (rt.key_text c.promo_key) sell_limit borrow_limit);
              })
              (config_seeds a.config))
            s

  -- Step 14: the deposit buys shares for the position.
  unfoldable pub claim_deposit : TradeAccounts → ℕ → Store → Result (PositionState × Store)
  claim_deposit a amount s =
      if ltb 0 amount
      then (do
        check_personal_position rt a
        check_escrow rt a
        check_log rt a
        shares_before ← read_deposited_shares (s a.personal_position).bytes
        s' ← rt.invoke (buy_cpi rt a amount) s
        shares_after ← read_deposited_shares (s' a.personal_position).bytes
        shares_received ← ok_or (checked_sub shares_after shares_before) insufficient_funds
        deposited_nav ←
            ok_or (checked_add u64_mod a.position.deposited_nav shares_received) insufficient_funds
        ok (record (a.position) { deposited_nav = deposited_nav }, s'))
      else ok (a.position, s)

-- What the instruction writes.
pub record Claim : Type 0 where
  pub promo : PromoConfig
  pub receipt : ClaimReceipt
  pub key_state : KeyState
  pub position : PositionState

module _ (rt : Runtime) (clock : Clock) where
  unfoldable pub claim_handler : ClaimAccounts → ℕ → Store → Result (Claim × Store)
  claim_handler c amount s =
      let a = c.trade in
      let promo = c.promo in
      do
        require promo.active promo_inactive
        require (if ltb 0 promo.max_claims then ltb promo.claims_count promo.max_claims else true)
            promo_max_claims_reached
        require (a.position.authority_seed == promo.authority_seed) invalid_key
        require (leb promo.min_deposit_lamports amount) insufficient_funds
        s₁ ← claim_mint rt c s
        claims_count ← ok_or (checked_add u32_mod promo.claims_count 1) promo_max_claims_reached
        (position, s₂) ← claim_deposit rt a amount s₁
        ok (
          record {
            promo = record promo { claims_count = claims_count };
            receipt = record {
              claimer = a.signer;
              promo = c.promo_key;
              bump = (rt.find_program_address (claim_seeds c.promo_key a.signer) rt.program_id).1;
            };
            key_state = claimed_key_state rt clock a.key_asset a.position.authority_seed promo;
            position = position;
          },
          s₂,
        )

  -- The instruction: the constraints of the accounts, then the handler.
  unfoldable pub claim_promo_key : ClaimAccounts → ℕ → Store → Result (Claim × Store)
  claim_promo_key c amount s = do claim_constraints rt c s; claim_handler c amount s
