-- ===== src/Protocol.antt =====
-- The instructions of the protocol's admin, of programs/hardig/src/instructions/: the
-- configuration, its hand-over in two steps, the collection, the markets and the trusted
-- providers of artwork. `Migrate` has the migration of old configurations.
pub mod Migrate
pub mod Admin
use hardig.Base.{ℕ, Bool, true, List, [], ◌∷◌, ◌==◌, ◌/=◌, Option, none, some}
use hardig.Error.{
  Result, ok, ◌>>=◌, ◌>>◌, require, constrain, unauthorized, collection_already_created,
}
use hardig.Runtime.{Runtime, Store, Pubkey, Bytes, Text, create_collection_v2, default_key, codes}
use hardig.State.{ProtocolConfig, MarketConfig, TrustedProvider, config_seed}
use hardig.Mayflower.Cpi.{MarketAddresses, key_bytes}
use hardig.Trade.Accounts.{config_constraint, is_address}
use hardig.Keys.{init_constraint, config_seeds}

-- `seeds = [MarketConfig::SEED, nav_mint.as_ref()]` and
-- `seeds = [TrustedProvider::SEED, program_id.as_ref()]`
abbrev pub market_seeds : Pubkey → List Bytes
market_seeds nav_mint = codes "market_config" ∷ key_bytes nav_mint ∷ []

abbrev pub provider_seeds : Pubkey → List Bytes
provider_seeds program_id = codes "trusted_provider" ∷ key_bytes program_id ∷ []

module _ (rt : Runtime) where
  unfoldable pub initialize_protocol : Pubkey → Pubkey → Store → Result ProtocolConfig
  initialize_protocol admin config_key s = do
    init_constraint rt s (config_seed ∷ []) config_key
    ok (record {
      admin = admin;
      collection = default_key;
      pending_admin = default_key;
      bump = (rt.find_program_address (config_seed ∷ []) rt.program_id).1;
    })

  unfoldable pub transfer_admin : Pubkey → Pubkey → ProtocolConfig → Pubkey → Result ProtocolConfig
  transfer_admin admin config_key config new_admin = do
    constrain (admin == config.admin)
    config_constraint rt config_key config
    ok (record config { pending_admin = new_admin })

  unfoldable pub accept_admin : Pubkey → Pubkey → ProtocolConfig → Result ProtocolConfig
  accept_admin new_admin config_key config = do
    config_constraint rt config_key config
    require (config.pending_admin == new_admin) unauthorized
    require (config.pending_admin /= default_key) unauthorized
    ok (record config { admin = config.pending_admin; pending_admin = default_key })

  unfoldable pub create_collection :
      Pubkey
      → Pubkey
      → ProtocolConfig
      → Pubkey
      → Pubkey
      → Text
      → Store
      → Result (ProtocolConfig × Store)
  create_collection admin config_key config collection_asset mpl_core_program uri s = do
    config_constraint rt config_key config
    require (config.admin == admin) unauthorized
    require (config.collection == default_key) collection_already_created
    constrain (mpl_core_program == rt.mpl_core_id)
    s' ←
        rt.invoke
          (create_collection_v2 collection_asset admin config_key (codes "Härdig Keys") uri
            (config_seeds config))
          s
    ok (record config { collection = collection_asset }, s')

  unfoldable pub create_market_config :
      Pubkey → Pubkey → ProtocolConfig → Pubkey → MarketAddresses → Store → Result MarketConfig
  create_market_config admin config_key config market_key m s = do
    init_constraint rt s (market_seeds m.nav_mint) market_key
    config_constraint rt config_key config
    constrain (config.admin == admin)
    ok (record {
      nav_mint = m.nav_mint;
      base_mint = m.base_mint;
      market_group = m.market_group;
      market_meta = m.market_meta;
      mayflower_market = m.mayflower_market;
      market_base_vault = m.market_base_vault;
      market_nav_vault = m.market_nav_vault;
      fee_vault = m.fee_vault;
      bump = (rt.find_program_address (market_seeds m.nav_mint) rt.program_id).1;
    })

  unfoldable pub add_trusted_provider :
      Pubkey → Pubkey → ProtocolConfig → Pubkey → Pubkey → Store → Result TrustedProvider
  add_trusted_provider admin config_key config provider_key program_id s = do
    init_constraint rt s (provider_seeds program_id) provider_key
    require (admin == config.admin) unauthorized
    config_constraint rt config_key config
    ok (record {
      program_id = program_id;
      added_by = admin;
      active = true;
      bump = (rt.find_program_address (provider_seeds program_id) rt.program_id).1;
    })

  -- The account of the provider is closed.
  unfoldable pub remove_trusted_provider :
      Pubkey → Pubkey → ProtocolConfig → Pubkey → TrustedProvider → Result (Option TrustedProvider)
  remove_trusted_provider admin config_key config provider_key provider = do
    require (admin == config.admin) unauthorized
    config_constraint rt config_key config
    constrain (
        is_address
          (rt.create_program_address
            (codes "trusted_provider" ∷ key_bytes provider.program_id ∷ (provider.bump ∷ []) ∷ [])
            rt.program_id)
          provider_key)
    ok none
