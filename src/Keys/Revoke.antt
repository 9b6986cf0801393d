-- ===== src/Keys/Revoke.antt =====
-- `revoke_key`: programs/hardig/src/instructions/revoke_key.rs.
pub mod Effect
use hardig.Base.{ℕ, Bool, Option, none, some, ◌==◌, ◌/=◌}
use hardig.Error.{
  Result, ok, ◌>>=◌, ◌>>◌, require, ok_or, invalid_key, cannot_revoke_admin_key, wrong_position,
}
use hardig.Runtime.{Runtime, Store, Pubkey, Clock, codes, text_eq}
use hardig.State.{KeyState, PositionState, perm_manage_keys}
use hardig.KeyCheck.{find_attribute, validate_key}
use hardig.Keys.{KeyAccounts, collection_constraints, burn_key}

module _ (rt : Runtime) (clock : Clock) where
  unfoldable pub revoke_handler : KeyAccounts → Pubkey → Store → Result (PositionState × Store)
  revoke_handler a target_asset s = do
    validate_key rt s a.payer a.key_asset a.position.authority_seed perm_manage_keys
        a.config.collection
    require (target_asset /= a.position.current_admin_asset) cannot_revoke_admin_key
    require ((s target_asset).owner == rt.mpl_core_id) invalid_key
    target_attributes ← ok_or (rt.fetch_attributes (s target_asset)) invalid_key
    target_position ← ok_or (find_attribute (codes "position") target_attributes) wrong_position
    require (text_eq target_position.value (rt.key_text a.position.authority_seed)) wrong_position
    s' ← rt.invoke (burn_key a target_asset) s
    ok (record (a.position) { last_admin_activity = clock.unix_timestamp }, s')

  -- The instruction; the key state of the target is closed when the handler succeeds.
  unfoldable pub revoke_key :
      KeyAccounts → Pubkey → KeyState → Store → Result (PositionState × Option KeyState × Store)
  revoke_key a target_asset target_key_state s = do
    require (target_key_state.asset == target_asset) invalid_key
    collection_constraints rt a
    (position, s') ← revoke_handler a target_asset s
    ok (position, none, s')
