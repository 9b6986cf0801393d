-- ===== src/Recovery/Lockout.antt =====
-- What successful runs of programs/hardig/src/instructions/execute_recovery.rs,
-- configure_recovery.rs, heartbeat.rs and set_position_artwork.rs have done.
use hardig.Base.{
  ◌≡◌, ◌≢◌, ◌≤◌, sym, ap, ◌∙◌, arith, Bool, true, false, not, Option, none, some, length, get_or,
  slice, from_le_bytes, ◌==◌, ◌/=◌, ==→eq, /=→ne, ◌&&◌, if◌then◌else◌, ℤ, pos, ◌≤ℤ◌, leb_ℤ, ◌-ℤ◌,
  i64_saturating_sub,
}
use hardig.Error.{
  ok, >>=-eq-ok, >>-eq-ok, require, require-true, ok_injective, HardigError, admin_only,
  invalid_key, invalid_lockout, recovery_not_configured, recovery_lockout_not_expired,
}
use hardig.Runtime.{Runtime, Store, Pubkey, Text, Clock, default_key, codes}
use hardig.State.{PositionState, perm_manage_keys, preset_admin}
use hardig.KeyCheck.{validate_key}
use hardig.Artwork.{validate_artwork_receipt}
use hardig.Format.{metadata_uri}
use hardig.Keys.{KeyAccounts, collection_constraints, config_seeds, create_key, nft_name}
use hardig.Keys.Minting.{Mints, Burns}
use hardig.Trade.Accounts.{config_constraint}
use hardig.Recovery.{
  heartbeat, burn_replaced, recovery_attributes, set_position_artwork, configure_recovery,
  configure_handler, max_lockout_secs,
}
use hardig.Recovery.Replaced.{check_holder-bytes, replace_keys-calls}
use hardig.Recovery.Execute.{
  execute_recovery, execute_handler, recovered, check_holder, replace_keys,
}

-- The lockout has run out at `now`, in whole seconds of unbounded range.
abbrev pub Expired : ℤ → ℤ → ℤ → Type 0
Expired last lockout now = lockout ≤ℤ (now -ℤ last)

-- A lockout that is not negative has run out in exact arithmetic if the saturating one says so.
Expired-of_saturated :
    (last lockout now : ℤ)
    → pos 0 ≤ℤ lockout
    → leb_ℤ lockout (i64_saturating_sub now last) ≡ true
    → Expired last lockout now
unfolding i64_saturating_sub
Expired-of_saturated last lockout now p h = ground arith

-- Recovery ran: a recovery key was configured and shown, its holder signed, the lockout had run
-- out since the last recorded activity, the new admin key was minted for the holder, both old keys
-- were burned, and the position was handed to the new key, with the recovery settings cleared.
pub record Executed (rt : Runtime) (clock : Clock) (a : KeyAccounts)
    (old_admin_asset new_admin_asset : Pubkey) (s : Store) (p' : PositionState) (s' : Store)
    : Type 0 where
  pub configured : a.position.recovery_asset ≢ default_key
  pub shown : a.key_asset ≡ a.position.recovery_asset
  pub asset : (s a.key_asset).owner ≡ rt.mpl_core_id
  pub kind : rt.asset_kind (get_or (s a.key_asset).bytes 0 0) ≡ some rt.asset_v1
  pub long : 33 ≤ length (s a.key_asset).bytes
  pub held : from_le_bytes (slice (s a.key_asset).bytes 1 33) ≡ a.payer
  pub waited :
      leb_ℤ a.position.recovery_lockout_secs
        (i64_saturating_sub clock.unix_timestamp a.position.last_admin_activity)
      ≡ true
  pub replaced : old_admin_asset ≡ a.position.current_admin_asset
  pub s₁ : Store
  pub s₂ : Store
  pub minted :
      Mints rt a.collection a.config_key a.payer
        (config_seeds a.config)
        new_admin_asset
        a.payer
        preset_admin
        a.position.authority_seed
        s
        s₁
  pub admin_burned :
      Burns rt a.collection a.config_key a.payer (config_seeds a.config) old_admin_asset s₁ s₂
  pub recovery_burned :
      Burns rt a.collection a.config_key a.payer (config_seeds a.config) a.key_asset s₂ s'
  pub position : p' ≡ record (a.position) {
    current_admin_asset = new_admin_asset;
    recovery_asset = default_key;
    recovery_lockout_secs = pos 0;
    recovery_config_locked = false;
    last_admin_activity = clock.unix_timestamp;
  }

module _ (rt : Runtime) (clock : Clock) (a : KeyAccounts) (old new : Pubkey) (s : Store)
    (p' : PositionState) (s' : Store) where
  -- A recovery that succeeds had a recovery key configured, which was shown and whose owner, by the
  -- bytes of the asset, signed; the lockout had run out by the saturating difference of the clock
  -- and the last recorded activity; the admin key replaced is the position's. An admin key of the
  -- position is minted for the signer, then the old admin key and the recovery key are burned. The
  -- position has the new admin key, no recovery key, no lockout and no lock, and the activity is
  -- set to now; nothing else of it changes.
  pub execute_effect :
      execute_recovery rt clock a old new s ≡ ok (p', s') → Executed rt clock a old new s p' s'
  unfolding execute_recovery execute_handler recovered
  execute_effect h =
      let (_, t₁) = >>-eq-ok (collection_constraints rt a) _ h in
      let (configured, t₂) =
        >>-eq-ok (require (a.position.recovery_asset /= default_key) recovery_not_configured) _
          t₁ in
      let (shown, t₃) =
        >>-eq-ok (require (a.key_asset == a.position.recovery_asset) invalid_key) _ t₂ in
      let (core, t₄) =
        >>-eq-ok (require ((s a.key_asset).owner == rt.mpl_core_id) invalid_key) _ t₃ in
      let (held, t₅) = >>-eq-ok (check_holder rt a.payer (s a.key_asset).bytes) _ t₄ in
      let (waited, t₆) =
        >>-eq-ok
          (require
            (leb_ℤ a.position.recovery_lockout_secs
              (i64_saturating_sub clock.unix_timestamp a.position.last_admin_activity))
            recovery_lockout_not_expired)
          _ t₅ in
      let (replaced, t₇) =
        >>-eq-ok (require (old == a.position.current_admin_asset) invalid_key) _ t₆ in
      let (_, t₈) = >>-eq-ok (require ((s old).owner == rt.mpl_core_id) invalid_key) _ t₇ in
      let (s₃, calls, t₉) = >>=-eq-ok (replace_keys rt clock a old new s) _ t₈ in
      let (kind, long, owner) = check_holder-bytes rt a.payer (s a.key_asset).bytes held in
      let (s₁, s₂, minted, admin_burned, recovery_burned) =
        replace_keys-calls rt clock a old new s s'
          (calls ∙ ap ok (ap (λ r. r.1) (ok_injective t₉))) in
      record {
        configured = /=→ne a.position.recovery_asset default_key (require-true _ _ configured);
        shown = ==→eq a.key_asset a.position.recovery_asset (require-true _ _ shown);
        asset = ==→eq (s a.key_asset).owner rt.mpl_core_id (require-true _ _ core);
        kind = kind;
        long = long;
        held = owner;
        waited = require-true _ _ waited;
        replaced = ==→eq old a.position.current_admin_asset (require-true _ _ replaced);
        s₁ = s₁;
        s₂ = s₂;
        minted = minted;
        admin_burned = admin_burned;
        recovery_burned = recovery_burned;
        position = sym (ap (λ r. r.0) (ok_injective t₉));
      }

  -- Recovery never runs before the lockout has passed since the time that the position records as
  -- the last activity of its admin, counted in exact arithmetic, for any lockout that is not
  -- negative.
  pub execute_waits :
      pos 0 ≤ℤ a.position.recovery_lockout_secs
      → execute_recovery rt clock a old new s ≡ ok (p', s')
      → Expired a.position.last_admin_activity a.position.recovery_lockout_secs clock.unix_timestamp
  execute_waits p h =
      Expired-of_saturated a.position.last_admin_activity a.position.recovery_lockout_secs
        clock.unix_timestamp p (execute_effect h).waited

module _ (rt : Runtime) (clock : Clock) (a : KeyAccounts) (s : Store) (p' : PositionState) where
  -- A heartbeat that succeeds was shown the position's admin key, and sets the time of the
  -- activity and nothing else.
  pub heartbeat_effect :
      heartbeat rt clock a s ≡ ok p'
      → (a.key_asset ≡ a.position.current_admin_asset)
        × (p' ≡ record (a.position) { last_admin_activity = clock.unix_timestamp })
  unfolding heartbeat
  heartbeat_effect h =
      let (_, t₁) = >>-eq-ok (config_constraint rt a.config_key a.config) _ h in
      let (shown, t₂) =
        >>-eq-ok (require (a.key_asset == a.position.current_admin_asset) admin_only) _ t₁ in
      let (_, _, t₃) =
        >>=-eq-ok
          (validate_key rt s a.payer a.key_asset a.position.authority_seed perm_manage_keys
            a.config.collection)
          _ t₂ in
      (
        ==→eq a.key_asset a.position.current_admin_asset (require-true _ _ shown),
        sym (ok_injective t₃),
      )

  -- A change of the artwork that succeeds sets the artwork and the time of the activity and
  -- nothing else.
  pub artwork_effect :
      (artwork_id : Option Pubkey)
      → set_position_artwork rt clock a artwork_id s ≡ ok p'
      → p' ≡ record (a.position) {
        artwork_id = artwork_id;
        last_admin_activity = clock.unix_timestamp;
      }
  unfolding set_position_artwork
  artwork_effect artwork_id h =
      let (_, t₁) = >>-eq-ok (config_constraint rt a.config_key a.config) _ h in
      let (_, _, t₂) =
        >>=-eq-ok
          (validate_key rt s a.payer a.key_asset a.position.authority_seed perm_manage_keys
            a.config.collection)
          _ t₁ in
      let (_, _, t₃) =
        >>=-eq-ok
          (validate_artwork_receipt rt s artwork_id a.remaining_accounts a.position.authority_seed
            rt.program_id none false)
          _ t₂ in
      sym (ok_injective t₃)

-- Recovery was configured: the settings were not locked, the lockout is between a second and ten
-- years, and nothing of the position but the settings and the activity changed.
pub record Configured (clock : Clock) (p : PositionState) (recovery_asset : Pubkey)
    (lockout_secs : ℤ) (lock_config : Bool) (p' : PositionState) : Type 0 where
  pub unlocked : p.recovery_config_locked ≡ false
  pub positive : pos 1 ≤ℤ lockout_secs
  pub bounded : lockout_secs ≤ℤ max_lockout_secs
  pub position : p' ≡ record p {
    recovery_asset = recovery_asset;
    recovery_lockout_secs = lockout_secs;
    last_admin_activity = clock.unix_timestamp;
    recovery_config_locked = lock_config;
  }

assemble-Configured :
    (clock : Clock) (p : PositionState) (recovery_asset : Pubkey) (lockout_secs : ℤ)
    (lock_config : Bool) (p' : PositionState)
    → not p.recovery_config_locked ≡ true
    → (not (leb_ℤ lockout_secs (pos 0)) && leb_ℤ lockout_secs max_lockout_secs) ≡ true
    → record p {
      recovery_asset = recovery_asset;
      recovery_lockout_secs = lockout_secs;
      last_admin_activity = clock.unix_timestamp;
      recovery_config_locked = if lock_config then true else p.recovery_config_locked;
    }
      ≡ p'
    → Configured clock p recovery_asset lockout_secs lock_config p'
assemble-Configured clock p recovery_asset lockout_secs lock_config p' unlocked range e = record {
  unlocked = ground arith;
  positive = ground arith;
  bounded = ground arith;
  position = ground arith;
}

module _ (rt : Runtime) (clock : Clock) (a : KeyAccounts) (recovery_asset target : Pubkey)
    (old : Option Pubkey) (lockout_secs : ℤ) (lock_config : Bool) (name : Option Text) (s : Store)
    (p' : PositionState) (s' : Store) where
  -- A configuration of the recovery that succeeds found the settings not locked, sets a lockout
  -- of one second to ten years, the recovery key, the lock as asked and the time of the
  -- activity, and nothing else of the position.
  pub configure_effect :
      configure_recovery rt clock a recovery_asset target old lockout_secs lock_config name s
        ≡ ok (p', s')
      → Configured clock a.position recovery_asset lockout_secs lock_config p'
  unfolding configure_recovery configure_handler
  configure_effect h =
      let (_, t₁) = >>-eq-ok (collection_constraints rt a) _ h in
      let (_, _, t₂) =
        >>=-eq-ok
          (validate_key rt s a.payer a.key_asset a.position.authority_seed perm_manage_keys
            a.config.collection)
          _ t₁ in
      let (unlocked, t₃) =
        >>-eq-ok
          (require (not a.position.recovery_config_locked) HardigError.recovery_config_locked) _
          t₂ in
      let (range, t₄) =
        >>-eq-ok
          (require (not (leb_ℤ lockout_secs (pos 0)) && leb_ℤ lockout_secs max_lockout_secs)
            invalid_lockout)
          _ t₃ in
      let (s₁, _, t₅) = >>=-eq-ok (burn_replaced rt clock a old s) _ t₄ in
      let (image, _, t₆) =
        >>=-eq-ok
          (validate_artwork_receipt rt s₁ a.position.artwork_id a.remaining_accounts
            a.position.authority_seed rt.program_id (some (2, 0)) true)
          _ t₅ in
      let (nft, _, t₇) = >>=-eq-ok (nft_name (codes "Härdig Recovery Key") name) _ t₆ in
      let (s₂, _, t₈) =
        >>=-eq-ok
          (rt.invoke
            (create_key a recovery_asset target nft (metadata_uri nft 0 none none none none image)
              (recovery_attributes rt clock a.position.authority_seed))
            s₁)
          _ t₇ in
      assemble-Configured clock a.position recovery_asset lockout_secs lock_config p'
        (require-true _ _ unlocked) (require-true _ _ range) (ap (λ r. r.0) (ok_injective t₈))
