-- ===== src/Recovery/Execute.antt =====
-- `execute_recovery`: programs/hardig/src/instructions/execute_recovery.rs. In the accounts `payer`
-- is the holder of the recovery key and `key_asset` the recovery key.
use hardig.Base.{
  false, Option, none, some, List, [], ◌∷◌, ◌++◌, length, get_or, slice, from_le_bytes, ltb, leb,
  ◌==◌, ◌/=◌, pos, leb_ℤ, i64_saturating_sub,
}
use hardig.Error.{
  Result, ok, ◌>>=◌, ◌>>◌, require, ok_or, invalid_key, key_not_held, recovery_not_configured,
  recovery_lockout_not_expired,
}
use hardig.Runtime.{Runtime, Store, Pubkey, Bytes, Text, Clock, Attribute, default_key, codes}
use hardig.State.{PositionState, preset_admin}
use hardig.Format.{attribute, permission_attributes, metadata_uri}
use hardig.Keys.{KeyAccounts, collection_constraints, create_key, burn_key, market_of}

-- Step 4: the signer holds the recovery key, by bytes 1 to 33 of the asset.
unfoldable pub check_holder : Runtime → Pubkey → Bytes → Result (Unit {0})
check_holder rt holder bytes = do
  require (ltb 0 (length bytes)) invalid_key
  kind ← ok_or (rt.asset_kind (get_or bytes 0 0)) invalid_key
  require (kind == rt.asset_v1) invalid_key
  require (leb 33 (length bytes)) invalid_key
  require (from_le_bytes (slice bytes 1 33) == holder) key_not_held

-- The market goes on to the new key if it is not empty.
unfoldable pub market_attribute : Text → List Attribute
market_attribute [] = []
market_attribute (c ∷ m) = attribute (codes "market") (c ∷ m) ∷ []

unfoldable pub market_option : Text → Option Text
market_option [] = none
market_option (c ∷ m) = some (c ∷ m)

module _ (rt : Runtime) (clock : Clock) where
  unfoldable pub recovered : PositionState → Pubkey → PositionState
  recovered p new_admin_asset = record p {
    current_admin_asset = new_admin_asset;
    recovery_asset = default_key;
    recovery_lockout_secs = pos 0;
    recovery_config_locked = false;
    last_admin_activity = clock.unix_timestamp;
  }

  -- Steps 7 and 9 to 11: the new admin key, and the two burns.
  unfoldable pub replace_keys : KeyAccounts → Pubkey → Pubkey → Store → Result Store
  replace_keys a old_admin_asset new_admin_asset s = do
    old_name ← ok_or (rt.asset_name (s old_admin_asset).bytes) invalid_key
    attributes ← ok_or (rt.fetch_attributes (s old_admin_asset)) invalid_key
    let old_market = market_of attributes
    s₁ ←
        rt.invoke
          (create_key a new_admin_asset a.payer old_name
            (metadata_uri old_name preset_admin none none (market_option old_market) none none)
            (permission_attributes preset_admin
              ++ attribute (codes "position") (rt.key_text a.position.authority_seed)
                ∷ market_attribute old_market))
          s
    s₂ ← rt.invoke (burn_key a old_admin_asset) s₁
    rt.invoke (burn_key a a.key_asset) s₂

  unfoldable pub execute_handler :
      KeyAccounts → Pubkey → Pubkey → Store → Result (PositionState × Store)
  execute_handler a old_admin_asset new_admin_asset s = do
    require (a.position.recovery_asset /= default_key) recovery_not_configured
    require (a.key_asset == a.position.recovery_asset) invalid_key
    require ((s a.key_asset).owner == rt.mpl_core_id) invalid_key
    check_holder rt a.payer (s a.key_asset).bytes
    let elapsed = i64_saturating_sub clock.unix_timestamp a.position.last_admin_activity
    require (leb_ℤ a.position.recovery_lockout_secs elapsed) recovery_lockout_not_expired
    require (old_admin_asset == a.position.current_admin_asset) invalid_key
    require ((s old_admin_asset).owner == rt.mpl_core_id) invalid_key
    s' ← replace_keys a old_admin_asset new_admin_asset s
    ok (recovered a.position new_admin_asset, s')

  -- The instruction: the constraints of the accounts, then the handler.
  unfoldable pub execute_recovery :
      KeyAccounts → Pubkey → Pubkey → Store → Result (PositionState × Store)
  execute_recovery a old_admin_asset new_admin_asset s = do
    collection_constraints rt a
    execute_handler a old_admin_asset new_admin_asset s
