-- ===== src/Tests/Managing.antt =====
-- Examples of the instructions that manage keys.
use hardig.Base.{arith, ◌≡◌, refl, none, some, [], ◌∷◌, true, pos, to_le_bytes}
use hardig.Error.{ok}
use hardig.Runtime.{Store, Pubkey, codes}
use hardig.State.{PositionState}
use hardig.Keys.Authorize.{Grant, new_key_state}
use hardig.Keys.Authorize.Minted.{Authorized, authorize_effect}
use hardig.Keys.Revoke.Effect.{Revoked, revoke_effect}
use hardig.Recovery.Execute.{recovered, execute_recovery}
use hardig.Recovery.Success.{execute_decides}
use hardig.Recovery.Lockout.{
  Expired, Executed, execute_effect, execute_waits, heartbeat_effect, Configured, configure_effect,
}
use hardig.Tests.World.{
  world, clock, store, manage, position, key_state, limited_key, admin_key, recovery_key, holder,
  set,
}
use hardig.Tests.Running.{managing}

abbrev new_key : Pubkey
new_key = 26

abbrev wallet : Pubkey
wallet = 27

-- The account of a key that was minted for an owner.
abbrev minted : Pubkey → Pubkey → Store → Store
minted key owner = set key (record { owner = 12; lamports = 1; bytes = 1 ∷ to_le_bytes 32 owner })

abbrev burned : Pubkey → Store → Store
burned key = set key (record { owner = 0; lamports = 0; bytes = [] })

abbrev active : PositionState
active = record position { last_admin_activity = clock.unix_timestamp }

-- Buying, and borrowing 200 in 1000 slots.
abbrev grant : Grant
grant = record {
  permissions = 0x81;
  sell_bucket_capacity = 0;
  sell_refill_period_slots = 0;
  borrow_bucket_capacity = 200;
  borrow_refill_period_slots = 1000;
  total_sell_limit = 0;
  total_borrow_limit = 5000;
  name = some (codes "Bob");
}

authorize_effect_example :
    Authorized world clock
      (manage admin_key)
      new_key
      wallet
      109
      grant
      store
      active
      (new_key_state world clock new_key admin_key grant)
      (minted new_key wallet store)
unfolding managing
authorize_effect_example =
    authorize_effect world clock (manage admin_key) new_key wallet 109 grant store active
      (new_key_state world clock new_key admin_key grant) (minted new_key wallet store) refl

revoke_effect_example :
    Revoked world clock (manage admin_key) limited_key store active none (burned limited_key store)
unfolding managing
revoke_effect_example =
    revoke_effect world clock (manage admin_key) limited_key store key_state active none
      (burned limited_key store) refl

heartbeat_effect_example : (admin_key ≡ admin_key) × (active ≡ active)
unfolding managing
heartbeat_effect_example = heartbeat_effect world clock (manage admin_key) store active refl

configure_effect_example : Configured clock position new_key (pos 600) true (record active {
  recovery_asset = new_key;
  recovery_lockout_secs = pos 600;
  recovery_config_locked = true;
})
unfolding managing
configure_effect_example =
    configure_effect world clock (manage admin_key) new_key wallet (some recovery_key) (pos 600)
      true none store
      (record active {
        recovery_asset = new_key;
        recovery_lockout_secs = pos 600;
        recovery_config_locked = true;
      })
      (minted new_key wallet (burned recovery_key store)) refl

abbrev taken : Store
taken = burned recovery_key (burned admin_key (minted new_key holder store))

execute_effect_example :
    Executed world clock
      (manage recovery_key)
      admin_key
      new_key
      store
      (recovered world clock position new_key)
      taken
unfolding managing
execute_effect_example =
    execute_effect world clock (manage recovery_key) admin_key new_key store
      (recovered world clock position new_key) taken refl

execute_waits_example : Expired (pos 500) (pos 8000) (pos 9000)
unfolding managing
execute_waits_example =
    execute_waits world clock (manage recovery_key) admin_key new_key store
      (recovered world clock position new_key) taken (omega arith) refl

-- The owner comes after the lockout; `execute_waits_example` has the times.
execute_decides_example :
    execute_recovery world clock (manage recovery_key) admin_key new_key store
    ≡ ok (recovered world clock position new_key, taken)
unfolding managing
execute_decides_example =
    execute_decides world clock (manage recovery_key) new_key store taken refl (λ e. omega arith)
      refl refl refl (omega arith) (omega arith) (omega arith) refl refl
