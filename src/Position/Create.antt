-- ===== src/Position/Create.antt =====
-- `create_position`: programs/hardig/src/instructions/create_position.rs.
use hardig.Base.{ℕ, false, Option, none, some, List, [], ◌∷◌, ◌++◌, leb, ◌==◌, ◌/=◌, pos}
use hardig.Error.{
  Result, ok, ◌>>=◌, ◌>>◌, require, constrain, collection_not_created, invalid_mayflower_account,
  invalid_position_pda, name_too_long,
}
use hardig.Runtime.{
  Runtime, Store, Pubkey, Text, Clock, Cpi, invoke_signed, create_v2, default_key, codes, byte_len,
}
use hardig.State.{PositionState, ProtocolConfig, MarketConfig, preset_admin}
use hardig.Format.{attribute, permission_attributes, metadata_uri}
use hardig.Artwork.{validate_artwork_receipt}
use hardig.Mayflower.{mayflower_program_id}
use hardig.Mayflower.Cpi.{
  key_bytes, derive_personal_position, derive_personal_position_escrow, derive_log_account,
  build_init_personal_position_ix,
}
use hardig.Trade.{authority_pda, signer_seeds, market_addresses}
use hardig.Trade.Accounts.{config_constraint}
use hardig.Keys.{key_plugins, init_constraint, config_seeds, nft_name}

-- The accounts of the instruction.
pub record NewAccounts : Type 0 where
  pub admin : Pubkey
  pub admin_asset : Pubkey
  pub position_key : Pubkey
  pub program_pda : Pubkey
  pub config_key : Pubkey
  pub config : ProtocolConfig
  pub collection : Pubkey
  pub market_config_key : Pubkey
  pub market_config : MarketConfig
  pub mpl_core_program : Pubkey
  pub personal_position : Pubkey
  pub user_shares : Pubkey
  pub market_meta : Pubkey
  pub nav_sol_mint : Pubkey
  pub log_account : Pubkey
  pub mayflower_program : Pubkey
  pub remaining_accounts : List Pubkey

-- `seeds = [PositionState::SEED, admin_asset.key().as_ref()]`
abbrev pub position_seeds : Pubkey → List (List ℕ)
position_seeds admin_asset = codes "position" ∷ key_bytes admin_asset ∷ []

module _ (rt : Runtime) where
  unfoldable pub new_constraints : NewAccounts → Store → Result (Unit {0})
  new_constraints a s = do
    init_constraint rt s (position_seeds a.admin_asset) a.position_key
    constrain (a.program_pda == (authority_pda rt a.admin_asset).0)
    config_constraint rt a.config_key a.config
    require (a.config.collection /= default_key) collection_not_created
    require (a.collection == a.config.collection) collection_not_created
    constrain (a.mpl_core_program == rt.mpl_core_id)

  -- The addresses that the handler compares before anything is created.
  unfoldable pub check_new_accounts : NewAccounts → Result (Unit {0})
  check_new_accounts a =
      let expected_pp = derive_personal_position rt a.program_pda a.market_config.market_meta in
      do
        require (a.market_meta == a.market_config.market_meta) invalid_mayflower_account
        require (a.nav_sol_mint == a.market_config.nav_mint) invalid_mayflower_account
        require (a.mayflower_program == mayflower_program_id) invalid_mayflower_account
        require (a.personal_position == expected_pp) invalid_position_pda
        require (a.user_shares == derive_personal_position_escrow rt expected_pp)
            invalid_position_pda
        require (a.log_account == derive_log_account rt) invalid_mayflower_account

  -- The admin key.
  unfoldable pub admin_key_cpi : NewAccounts → Text → Text → Option Text → Cpi
  admin_key_cpi a name market_name image_override =
      create_v2
        (record {
          asset = a.admin_asset;
          collection = a.collection;
          authority = a.config_key;
          payer = a.admin;
          owner = a.admin;
          name = name;
          uri = metadata_uri name preset_admin none none (some market_name) none image_override;
          plugins = key_plugins (
              permission_attributes preset_admin
              ++ attribute (codes "position") (rt.key_text a.admin_asset)
                ∷ attribute (codes "market") market_name
                ∷ []);
        })
        (config_seeds a.config)

  -- The personal position at Mayflower.
  unfoldable pub init_personal_position_cpi : NewAccounts → Cpi
  init_personal_position_cpi a =
      let expected_pp = derive_personal_position rt a.program_pda a.market_config.market_meta in
      invoke_signed
        (build_init_personal_position_ix rt a.admin a.program_pda expected_pp
          (derive_personal_position_escrow rt expected_pp) (market_addresses a.market_config))
        (a.admin ∷ a.program_pda ∷ a.market_meta ∷ a.nav_sol_mint ∷ a.personal_position
          ∷ a.user_shares ∷ rt.token_id ∷ rt.system_id ∷ a.log_account ∷ a.mayflower_program ∷ [])
        (signer_seeds rt a.admin_asset)

  unfoldable pub new_position : Clock → NewAccounts → Option Pubkey → PositionState
  new_position clock a artwork_id = record {
    authority_seed = a.admin_asset;
    position_pda = derive_personal_position rt a.program_pda a.market_config.market_meta;
    market_config = a.market_config_key;
    deposited_nav = 0;
    user_debt = 0;
    reserved_u16 = 0;
    last_admin_activity = clock.unix_timestamp;
    bump = (rt.find_program_address (position_seeds a.admin_asset) rt.program_id).1;
    authority_bump = (authority_pda rt a.admin_asset).1;
    current_admin_asset = a.admin_asset;
    recovery_asset = default_key;
    recovery_lockout_secs = pos 0;
    recovery_config_locked = false;
    artwork_id = artwork_id;
  }

  unfoldable pub create_position_handler :
      Clock
      → NewAccounts
      → Option Text
      → Text
      → Option Pubkey
      → Store
      → Result (PositionState × Store)
  create_position_handler clock a name market_name artwork_id s = do
    check_new_accounts a
    nft ← nft_name (codes "Härdig Admin Key") name
    require (leb (byte_len market_name) 32) name_too_long
    image_override ←
        validate_artwork_receipt rt s artwork_id a.remaining_accounts a.admin_asset rt.program_id
          (some (0, 0)) false
    s₁ ← rt.invoke (admin_key_cpi a nft market_name image_override) s
    s₂ ← rt.invoke (init_personal_position_cpi a) s₁
    ok (new_position clock a artwork_id, s₂)

  -- The instruction: the constraints of the accounts, then the handler.
  unfoldable pub create_position :
      Clock
      → NewAccounts
      → Option Text
      → Text
      → Option Pubkey
      → Store
      → Result (PositionState × Store)
  create_position clock a name market_name artwork_id s = do
    new_constraints a s
    create_position_handler clock a name market_name artwork_id s
