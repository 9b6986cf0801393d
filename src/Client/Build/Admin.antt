-- ===== src/Client/Build/Admin.antt =====
-- The builders of crates/tui/src/app.rs for the admin of the protocol, which take their arguments
-- from the command line: build_init_protocol, build_migrate_config, build_create_collection,
-- build_transfer_admin, build_create_market_config, build_add_trusted_provider and
-- build_remove_trusted_provider.
use hardig.Base.{true, false, [], ◌∷◌, ◌++◌}
use hardig.Runtime.{Runtime, Pubkey, Bytes, Text, codes}
use hardig.Mayflower.Cpi.{MarketAddresses, key_bytes, writable, readonly}
use hardig.Protocol.{market_seeds, provider_seeds}
use hardig.Client.{Host, App, goto_confirm}
use hardig.Client.Build.{sighash, config_pda, hardig_ix, string_bytes}

-- The eight addresses, as `create_market_config` declares them.
unfoldable pub market_bytes : MarketAddresses → Bytes
market_bytes m =
    key_bytes m.nav_mint
    ++ (key_bytes m.base_mint
        ++ (key_bytes m.market_group
            ++ (key_bytes m.market_meta
                ++ (key_bytes m.mayflower_market
                    ++ (key_bytes m.market_base_vault
                        ++ (key_bytes m.market_nav_vault ++ key_bytes m.fee_vault))))))

module _ (rt : Runtime) (host : Host) where
  unfoldable pub build_init_protocol : App → App
  unfolding goto_confirm sighash
  build_init_protocol app =
      goto_confirm
        (record {
          description =
              codes "Initialize Protocol"
              ∷ (codes "Config PDA: " ++ rt.key_text (config_pda rt))
              ∷ (codes "Admin: " ++ rt.key_text app.keypair)
              ∷ [];
          instructions =
              hardig_ix rt (sighash host (codes "initialize_protocol")) (
                writable app.keypair true
                ∷ writable (config_pda rt) false
                ∷ readonly rt.system_id false
                ∷ [])
              ∷ [];
          extra_signers = [];
        })
        app

  unfoldable pub build_migrate_config : App → App
  unfolding goto_confirm sighash
  build_migrate_config app =
      goto_confirm
        (record {
          description =
              codes "Migrate Config (add collection field)"
              ∷ (codes "Config PDA: " ++ rt.key_text (config_pda rt))
              ∷ [];
          instructions =
              hardig_ix rt (sighash host (codes "migrate_config")) (
                writable app.keypair true
                ∷ writable (config_pda rt) false
                ∷ readonly rt.system_id false
                ∷ [])
              ∷ [];
          extra_signers = [];
        })
        app

  -- The asset is the key of a fresh keypair.
  unfoldable pub build_create_collection : Pubkey → Text → App → App
  unfolding goto_confirm sighash string_bytes
  build_create_collection collection uri app =
      goto_confirm
        (record {
          description =
              codes "Create Collection"
              ∷ (codes "Collection Asset: " ++ rt.key_text collection)
              ∷ (codes "URI: " ++ uri)
              ∷ [];
          instructions =
              hardig_ix rt (sighash host (codes "create_collection") ++ string_bytes uri) (
                writable app.keypair true
                ∷ writable (config_pda rt) false
                ∷ writable collection true
                ∷ readonly rt.mpl_core_id false
                ∷ readonly rt.system_id false
                ∷ [])
              ∷ [];
          extra_signers = collection ∷ [];
        })
        app

  unfoldable pub build_transfer_admin : Pubkey → App → App
  unfolding goto_confirm sighash
  build_transfer_admin new_admin app =
      goto_confirm
        (record {
          description =
              codes "Transfer Protocol Admin" ∷ (codes "New Admin: " ++ rt.key_text new_admin) ∷ [];
          instructions =
              hardig_ix rt (sighash host (codes "transfer_admin") ++ key_bytes new_admin)
                (readonly app.keypair true ∷ writable (config_pda rt) false ∷ [])
              ∷ [];
          extra_signers = [];
        })
        app

  unfoldable pub build_create_market_config : MarketAddresses → App → App
  unfolding goto_confirm sighash market_bytes
  build_create_market_config m app =
      let mc_pda = (rt.find_program_address (market_seeds m.nav_mint) rt.program_id).0 in
      goto_confirm
        (record {
          description =
              codes "Create Market Config"
              ∷ (codes "Nav Mint: " ++ rt.key_text m.nav_mint)
              ∷ (codes "MarketConfig PDA: " ++ rt.key_text mc_pda)
              ∷ [];
          instructions =
              hardig_ix rt (sighash host (codes "create_market_config") ++ market_bytes m) (
                writable app.keypair true
                ∷ readonly (config_pda rt) false
                ∷ writable mc_pda false
                ∷ readonly rt.system_id false
                ∷ [])
              ∷ [];
          extra_signers = [];
        })
        app

  unfoldable pub build_add_trusted_provider : Pubkey → App → App
  unfolding goto_confirm sighash
  build_add_trusted_provider program_id app =
      let tp_pda = (rt.find_program_address (provider_seeds program_id) rt.program_id).0 in
      goto_confirm
        (record {
          description =
              codes "Add Trusted Provider"
              ∷ (codes "Program ID: " ++ rt.key_text program_id)
              ∷ (codes "TrustedProvider PDA: " ++ rt.key_text tp_pda)
              ∷ [];
          instructions =
              hardig_ix rt (sighash host (codes "add_trusted_provider") ++ key_bytes program_id) (
                writable app.keypair true
                ∷ readonly (config_pda rt) false
                ∷ writable tp_pda false
                ∷ readonly rt.system_id false
                ∷ [])
              ∷ [];
          extra_signers = [];
        })
        app

  unfoldable pub build_remove_trusted_provider : Pubkey → App → App
  unfolding goto_confirm sighash
  build_remove_trusted_provider program_id app =
      let tp_pda = (rt.find_program_address (provider_seeds program_id) rt.program_id).0 in
      goto_confirm
        (record {
          description =
              codes "Remove Trusted Provider"
              ∷ (codes "Program ID: " ++ rt.key_text program_id)
              ∷ (codes "TrustedProvider PDA: " ++ rt.key_text tp_pda)
              ∷ [];
          instructions =
              hardig_ix rt (sighash host (codes "remove_trusted_provider")) (
                writable app.keypair true
                ∷ readonly (config_pda rt) false
                ∷ writable tp_pda false
                ∷ readonly rt.system_id false
                ∷ [])
              ∷ [];
          extra_signers = [];
        })
        app
