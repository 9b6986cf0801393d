-- ===== src/Recovery.antt =====
-- The dead-man's switch: `heartbeat`, `configure_recovery` and `execute_recovery` of
-- programs/hardig/src/instructions/, and `set_position_artwork`, which also proves activity.
pub mod Execute
pub mod Replaced
pub mod Lockout
pub mod Success
use hardig.Base.{
  ℕ, Bool, true, false, not, ◌&&◌, Option, none, some, List, [], ◌∷◌, length, get_or, slice,
  from_le_bytes, ltb, leb, ◌==◌, ◌/=◌, if◌then◌else◌, ℤ, pos, leb_ℤ,
}
use hardig.Error.{
  Result, ok, ◌>>=◌, ◌>>◌, require, ok_or, admin_only, invalid_key, invalid_lockout,
  old_recovery_asset_required, HardigError,
}
use hardig.Runtime.{Runtime, Store, Pubkey, Text, Clock, Attribute, default_key, codes}
use hardig.State.{PositionState, ProtocolConfig, perm_manage_keys}
use hardig.Format.{attribute, metadata_uri}
use hardig.KeyCheck.{validate_key}
use hardig.Artwork.{validate_artwork_receipt}
use hardig.Trade.Accounts.{config_constraint}
use hardig.Keys.{KeyAccounts, collection_constraints, create_key, burn_key, nft_name}

-- 10 years
abbrev pub max_lockout_secs : ℤ
max_lockout_secs = pos 315_360_000

module _ (rt : Runtime) (clock : Clock) where
  -- `Heartbeat` has no collection account: only the constraint on the configuration.
  unfoldable pub heartbeat : KeyAccounts → Store → Result PositionState
  heartbeat a s = do
    config_constraint rt a.config_key a.config
    require (a.key_asset == a.position.current_admin_asset) admin_only
    validate_key rt s a.payer a.key_asset a.position.authority_seed perm_manage_keys
        a.config.collection
    ok (record (a.position) { last_admin_activity = clock.unix_timestamp })

  unfoldable pub set_position_artwork : KeyAccounts → Option Pubkey → Store → Result PositionState
  set_position_artwork a artwork_id s = do
    config_constraint rt a.config_key a.config
    validate_key rt s a.payer a.key_asset a.position.authority_seed perm_manage_keys
        a.config.collection
    validate_artwork_receipt rt s artwork_id a.remaining_accounts a.position.authority_seed
        rt.program_id none false
    ok (record (a.position) { artwork_id = artwork_id; last_admin_activity = clock.unix_timestamp })

  -- Burns the recovery key that is replaced, if there is one.
  unfoldable pub burn_replaced : KeyAccounts → Option Pubkey → Store → Result Store
  burn_replaced a old_recovery_asset s =
      if a.position.recovery_asset /= default_key
      then (do
        old_asset ← ok_or old_recovery_asset old_recovery_asset_required
        require (old_asset == a.position.recovery_asset) invalid_key
        rt.invoke (burn_key a old_asset) s)
      else ok s

  unfoldable pub recovery_attributes : Pubkey → List Attribute
  recovery_attributes authority_seed =
      attribute (codes "permissions") (codes "0")
      ∷ attribute (codes "position") (rt.key_text authority_seed)
      ∷ attribute (codes "recovery") (codes "true")
      ∷ []

  unfoldable pub configure_handler :
      KeyAccounts
      → Pubkey
      → Pubkey
      → Option Pubkey
      → ℤ
      → Bool
      → Option Text
      → Store
      → Result (PositionState × Store)
  configure_handler a recovery_asset target_wallet old_recovery_asset lockout_secs lock_config name
        s =
      do
        validate_key rt s a.payer a.key_asset a.position.authority_seed perm_manage_keys
            a.config.collection
        require (not a.position.recovery_config_locked) HardigError.recovery_config_locked
        require (not (leb_ℤ lockout_secs (pos 0)) && leb_ℤ lockout_secs max_lockout_secs)
            invalid_lockout
        s' ← burn_replaced a old_recovery_asset s
        image_override ←
            validate_artwork_receipt rt s' a.position.artwork_id a.remaining_accounts
              a.position.authority_seed rt.program_id (some (2, 0)) true
        nft ← nft_name (codes "Härdig Recovery Key") name
        s'' ←
            rt.invoke
              (create_key a recovery_asset target_wallet nft
                (metadata_uri nft 0 none none none none image_override)
                (recovery_attributes a.position.authority_seed))
              s'
        ok (
          record (a.position) {
            recovery_asset = recovery_asset;
            recovery_lockout_secs = lockout_secs;
            last_admin_activity = clock.unix_timestamp;
            recovery_config_locked =
                if lock_config then true else a.position.recovery_config_locked;
          },
          s'',
        )

  -- The instruction: the constraints of the accounts, then the handler.
  unfoldable pub configure_recovery :
      KeyAccounts
      → Pubkey
      → Pubkey
      → Option Pubkey
      → ℤ
      → Bool
      → Option Text
      → Store
      → Result (PositionState × Store)
  configure_recovery a recovery_asset target_wallet old_recovery_asset lockout_secs lock_config name
        s =
      do
        collection_constraints rt a
        configure_handler a recovery_asset target_wallet old_recovery_asset lockout_secs lock_config
            name s
