-- ===== src/Recovery/Success.antt =====
-- What `execute_recovery` of programs/hardig/src/instructions/execute_recovery.rs comes to, by the
-- holder of the recovery key and the time.
use hardig.Base.{
  ◌≡◌, ◌≢◌, ◌≤◌, refl, arith, Bool, true, false, some, length, get_or, slice, from_le_bytes, ltb,
  leb, ◌==◌, ◌/=◌, if◌then◌else◌, leb_ℤ, ◌-ℤ◌, i64_saturating_sub, pos, ◌≤ℤ◌, ℤ,
}
use hardig.Error.{
  Result, ok, err, custom, ◌>>◌, require, HardigError, key_not_held, recovery_lockout_not_expired,
}
use hardig.Runtime.{Runtime, Store, Pubkey, Bytes, Clock, default_key}
use hardig.Keys.{KeyAccounts, collection_constraints}
use hardig.Recovery.Execute.{
  execute_recovery, execute_handler, recovered, check_holder, replace_keys,
}

-- The saturating difference tells the same as the exact one, for a lockout that fits 64 bits and is
-- not negative.
saturated-exact :
    (last lockout now : ℤ)
    → pos 0 ≤ℤ lockout
    → lockout ≤ℤ pos 9_223_372_036_854_775_807
    → leb_ℤ lockout (i64_saturating_sub now last) ≡ leb_ℤ lockout (now -ℤ last)
unfolding i64_saturating_sub
saturated-exact last lockout now p b = ground arith

-- Of an asset that is one, only the owner is tested.
check_holder-owner :
    (rt : Runtime) (holder : Pubkey) (bytes : Bytes)
    → rt.asset_kind (get_or bytes 0 0) ≡ some rt.asset_v1
    → 33 ≤ length bytes
    → check_holder rt holder bytes
      ≡ require (from_le_bytes (slice bytes 1 33) == holder) key_not_held
unfolding check_holder
check_holder-owner rt holder bytes kind long =
    let some_byte : ltb 0 (length bytes) ≡ true = ground (arith, long) in
    let v1 : (rt.asset_v1 == rt.asset_v1) ≡ true = ground arith in
    let enough : leb 33 (length bytes) ≡ true = ground (arith, long) in
    rw (check_holder, some_byte, kind, v1, enough) refl

-- The two tests that are left, in their order.
tests_left :
    (held waited : Bool) (e e' : HardigError) {A : Type 0} (r : Result A)
    → (require held e >> (require waited e' >> r))
      ≡ (if held then (if waited then r else err (custom e')) else err (custom e))
tests_left true true e e' r = refl
tests_left true false e e' r = refl
tests_left false waited e e' r = refl

module _ (rt : Runtime) (clock : Clock) (a : KeyAccounts) (new : Pubkey) (s s' : Store) where
  -- Let the recovery of a position be configured with a lockout that is not negative and fits 64
  -- bits, let its recovery key be shown and be an MPL-Core asset with an owner, as the admin key is an
  -- asset, let the accounts be the right ones, and let the calls that replace the keys succeed. Then
  -- the owner of the recovery key, and nobody else, takes the position over, once the lockout has
  -- passed in exact arithmetic and not before: the position gets the new admin key, its recovery
  -- settings are cleared and its activity is set to now. Another signer gets KeyNotHeld, and an owner
  -- who comes too early RecoveryLockoutNotExpired.
  pub execute_decides :
      collection_constraints rt a ≡ ok tt
      → a.position.recovery_asset ≢ default_key
      → a.key_asset ≡ a.position.recovery_asset
      → (s a.key_asset).owner ≡ rt.mpl_core_id
      → rt.asset_kind (get_or (s a.key_asset).bytes 0 0) ≡ some rt.asset_v1
      → 33 ≤ length (s a.key_asset).bytes
      → pos 0 ≤ℤ a.position.recovery_lockout_secs
      → a.position.recovery_lockout_secs ≤ℤ pos 9_223_372_036_854_775_807
      → (s a.position.current_admin_asset).owner ≡ rt.mpl_core_id
      → replace_keys rt clock a a.position.current_admin_asset new s ≡ ok s'
      → execute_recovery rt clock a a.position.current_admin_asset new s ≡ (
          if from_le_bytes (slice (s a.key_asset).bytes 1 33) == a.payer
          then (if leb_ℤ a.position.recovery_lockout_secs
                (clock.unix_timestamp -ℤ a.position.last_admin_activity)
              then ok (
                record (a.position) {
                  current_admin_asset = new;
                  recovery_asset = default_key;
                  recovery_lockout_secs = pos 0;
                  recovery_config_locked = false;
                  last_admin_activity = clock.unix_timestamp;
                },
                s',
              )
              else err (custom recovery_lockout_not_expired))
          else err (custom key_not_held))
  unfolding execute_recovery execute_handler recovered
  execute_decides accounts configured shown asset kind long nonneg fits admin replaced =
      let here : (a.position.recovery_asset /= default_key) ≡ true = ground arith in
      let own : (a.key_asset == a.position.recovery_asset) ≡ true = ground arith in
      let core : ((s a.key_asset).owner == rt.mpl_core_id) ≡ true = ground arith in
      let same : (a.position.current_admin_asset == a.position.current_admin_asset) ≡ true =
        ground arith in
      let core' : ((s a.position.current_admin_asset).owner == rt.mpl_core_id) ≡ true =
        ground arith in
      let exact =
        saturated-exact a.position.last_admin_activity a.position.recovery_lockout_secs
          clock.unix_timestamp nonneg fits in
      rw
        (
          accounts,
          here,
          own,
          core,
          check_holder-owner rt a.payer (s a.key_asset).bytes kind long,
          exact,
          same,
          core',
          replaced,
        )
        (tests_left (from_le_bytes (slice (s a.key_asset).bytes 1 33) == a.payer)
          (leb_ℤ a.position.recovery_lockout_secs
            (clock.unix_timestamp -ℤ a.position.last_admin_activity))
          key_not_held recovery_lockout_not_expired (ok (recovered rt clock a.position new, s')))
