-- ===== src/Keys/Authorize.antt =====
-- `authorize_key`: programs/hardig/src/instructions/authorize_key.rs.
pub mod Minted
use hardig.Base.{
  ℕ, Bool, true, false, Option, none, some, List, [], ◌∷◌, ◌++◌, ltb, ◌==◌, ◌/=◌, if◌then◌else◌,
}
use hardig.Error.{Result, ok, ◌>>=◌, ◌>>◌, require, ok_or, invalid_key}
use hardig.Runtime.{Runtime, Store, Pubkey, Text, Clock, Attribute, codes}
use hardig.State.{
  KeyCreatorOrigin, KeyState, PositionState, RateBucket, empty_bucket, perm_limited_borrow,
  perm_limited_sell, perm_manage_keys,
}
use hardig.Permissions.{has_any, validate_delegated_permissions}
use hardig.Format.{
  attribute, permission_attributes, metadata_uri, format_sol_amount, slots_to_duration,
}
use hardig.KeyCheck.{validate_key}
use hardig.Artwork.{validate_artwork_receipt}
use hardig.Mayflower.Cpi.{key_bytes}
use hardig.Keys.{
  KeyAccounts, collection_constraints, init_constraint, create_key, nft_name, market_of,
}

-- The arguments of the instruction.
pub record Grant : Type 0 where
  pub permissions : ℕ
  pub sell_bucket_capacity : ℕ
  pub sell_refill_period_slots : ℕ
  pub borrow_bucket_capacity : ℕ
  pub borrow_refill_period_slots : ℕ
  pub total_sell_limit : ℕ
  pub total_borrow_limit : ℕ
  pub name : Option Text

-- `"{amount} {unit} / {duration}"`, for a key with the limited permission.
unfoldable pub limit_text : Bool → ℕ → ℕ → Text → Result (Option Text)
limit_text limited capacity refill_period unit =
    if limited
    then (do
      duration ← slots_to_duration refill_period
      ok (some (format_sol_amount capacity ++ codes " " ++ unit ++ codes " / " ++ duration)))
    else ok none

-- The attributes of one limit, with its lifetime cap where there is one.
unfoldable pub limit_attributes : Text → Text → Text → Option Text → ℕ → List Attribute
limit_attributes label total_label unit none total = []
limit_attributes label total_label unit (some v) total =
    attribute label v
    ∷ (if ltb 0 total
        then attribute total_label (format_sol_amount total ++ codes " " ++ unit) ∷ []
        else [])

-- A bucket of a key with the limited permission starts full.
unfoldable pub full_bucket : Bool → ℕ → ℕ → ℕ → RateBucket
full_bucket limited capacity refill_period slot =
    if limited
    then record {
      capacity = capacity;
      refill_period = refill_period;
      level = capacity;
      last_update = slot;
    }
    else empty_bucket

-- `seeds = [KeyState::SEED, new_key_asset.key().as_ref()], bump`
abbrev pub key_state_seeds : Pubkey → List (List ℕ)
key_state_seeds asset = codes "key_state" ∷ key_bytes asset ∷ []

unfoldable pub new_key_state : Runtime → Clock → Pubkey → Pubkey → Grant → KeyState
new_key_state rt clock asset authority_seed g = record {
  authority_seed = authority_seed;
  asset = asset;
  bump = (rt.find_program_address (key_state_seeds asset) rt.program_id).1;
  sell_bucket =
      full_bucket (has_any g.permissions perm_limited_sell) g.sell_bucket_capacity
        g.sell_refill_period_slots clock.slot;
  borrow_bucket =
      full_bucket (has_any g.permissions perm_limited_borrow) g.borrow_bucket_capacity
        g.borrow_refill_period_slots clock.slot;
  total_sell_limit = g.total_sell_limit;
  total_sold = 0;
  total_borrow_limit = g.total_borrow_limit;
  total_borrowed = 0;
}

-- The attribute list of the new key.
unfoldable pub granted_attributes :
    Grant → Text → Text → Text → Option Text → Option Text → List Attribute
granted_attributes g seed_text admin_name admin_market sell_limit borrow_limit =
    permission_attributes g.permissions
    ++ (attribute (codes "position") seed_text
        ∷ attribute (codes "position_name") admin_name
        ∷ attribute (codes "market") admin_market
        ∷ [])
    ++ limit_attributes (codes "limited_sell") (codes "total_sell_limit") (codes "navSOL")
        sell_limit g.total_sell_limit
    ++ limit_attributes (codes "limited_borrow") (codes "total_borrow_limit") (codes "SOL")
        borrow_limit g.total_borrow_limit

module _ (rt : Runtime) (clock : Clock) where
  -- From the reading of the admin's asset to the call that mints the key.
  unfoldable pub mint : KeyAccounts → Pubkey → Pubkey → Grant → Store → Result Store
  mint a new_key_asset target_wallet g s = do
    admin_asset_name ← ok_or (rt.asset_name (s a.key_asset).bytes) invalid_key
    admin_attributes ← ok_or (rt.fetch_attributes (s a.key_asset)) invalid_key
    let admin_market = market_of admin_attributes
    image_override ←
        validate_artwork_receipt rt s a.position.artwork_id a.remaining_accounts
          a.position.authority_seed rt.program_id (some (1, g.permissions)) true
    sell_limit ←
        limit_text (has_any g.permissions perm_limited_sell) g.sell_bucket_capacity
          g.sell_refill_period_slots (codes "navSOL")
    borrow_limit ←
        limit_text (has_any g.permissions perm_limited_borrow) g.borrow_bucket_capacity
          g.borrow_refill_period_slots (codes "SOL")
    name ← nft_name (codes "Härdig Key") g.name
    rt.invoke
        (create_key a new_key_asset target_wallet name
          (metadata_uri name g.permissions sell_limit borrow_limit (some admin_market)
            (some admin_asset_name) image_override)
          (granted_attributes g (rt.key_text a.position.authority_seed) admin_asset_name
            admin_market sell_limit borrow_limit))
        s

  unfoldable pub authorize_handler :
      KeyAccounts → Pubkey → Pubkey → Grant → Store → Result (PositionState × KeyState × Store)
  authorize_handler a new_key_asset target_wallet g s = do
    validate_key rt s a.payer a.key_asset a.position.authority_seed perm_manage_keys
        a.config.collection
    validate_delegated_permissions KeyCreatorOrigin.admin g.permissions g.sell_bucket_capacity
        g.sell_refill_period_slots g.borrow_bucket_capacity g.borrow_refill_period_slots
        g.total_sell_limit g.total_borrow_limit
    s' ← mint a new_key_asset target_wallet g s
    ok (
      record (a.position) { last_admin_activity = clock.unix_timestamp },
      new_key_state rt clock new_key_asset a.position.authority_seed g,
      s',
    )

  -- The instruction: the constraints of the accounts, then the handler.
  unfoldable pub authorize_key :
      KeyAccounts
      → Pubkey
      → Pubkey
      → Pubkey
      → Grant
      → Store
      → Result (PositionState × KeyState × Store)
  authorize_key a new_key_asset target_wallet key_state g s = do
    init_constraint rt s (key_state_seeds new_key_asset) key_state
    collection_constraints rt a
    authorize_handler a new_key_asset target_wallet g s
