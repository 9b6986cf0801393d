-- ===== src/Client/Build/Recovery.antt =====
-- The builders of crates/tui/src/app.rs for recovery: build_configure_recovery and
-- build_execute_recovery.
use hardig.Base.{
  ℕ, ◌+◌, ◌*◌, ◌^◌, Bool, true, false, ◌||◌, none, some, List, [], ◌∷◌, ◌++◌, ltb, leb, ◌==◌, ◌/=◌,
  ◌&&◌, if◌then◌else◌, to_le_bytes, u64_mod, map,
}
use hardig.Runtime.{Runtime, Pubkey, Text, AccountMeta, codes, default_key, text_eq}
use hardig.State.{PositionState}
use hardig.Mayflower.Cpi.{writable, readonly}
use hardig.Client.{Host, App, Field, PendingAction}
use hardig.Client.Texts.{trim, short_pubkey, format_grace_period, number_or_zero}
use hardig.Client.Attempt.{Attempt, built, ◌>>=◌, ◌>>◌, or_refuse, refuse_if, or_panic, field_value}
use hardig.Client.Build.{sighash, config_pda, hardig_ix, option_string_bytes, optional_name}
use hardig.Client.Build.Keys.{form_pubkey}

-- `char::to_ascii_lowercase`
abbrev pub ascii_lower : ℕ → ℕ
ascii_lower c = if leb b'A' c && leb c b'Z' then c + 32 else c

-- `s.eq_ignore_ascii_case("true")`
unfoldable pub is_true_text : Text → Bool
is_true_text s = text_eq (map ascii_lower s) (codes "true")

-- A period in seconds: the sum panics past 64 bits, and the cast to `i64` makes a negative number
-- of what is not below 2 ^ 63.
unfoldable pub grace_seconds : ℕ → ℕ → ℕ → Attempt ℕ
grace_seconds days hours minutes =
    let total = days * 86400 + hours * 3600 + minutes * 60 in
    do
      secs ← or_panic (if ltb total u64_mod then some total else none)
      refuse_if (secs == 0 || leb (2 ^ 63) secs) (codes "Grace period must be positive")
      built secs

unfoldable pub form_number : List Field → ℕ → Attempt ℕ
unfolding field_value number_or_zero
form_number fields i = do text ← field_value fields i; built (number_or_zero (some text))

abbrev pub bool_text : Bool → Text
bool_text b = if b then codes "true" else codes "false"

module _ (rt : Runtime) (host : Host) where
  -- The old recovery key, or the program itself where there is none.
  abbrev pub old_recovery : PositionState → Pubkey
  old_recovery pos = if pos.recovery_asset /= default_key then pos.recovery_asset else rt.program_id

  unfoldable pub configure_metas :
      App → Pubkey → Pubkey → Pubkey → Pubkey → Pubkey → Pubkey → List AccountMeta
  configure_metas app key_asset position_pda recovery_asset target_wallet old collection =
      writable app.keypair true
      ∷ readonly key_asset false
      ∷ writable position_pda false
      ∷ writable recovery_asset true
      ∷ readonly target_wallet false
      ∷ writable old false
      ∷ readonly (config_pda rt) false
      ∷ writable collection false
      ∷ readonly rt.mpl_core_id false
      ∷ readonly rt.system_id false
      ∷ []

  -- The recovery asset is the key of a fresh keypair. `self.position.as_ref().unwrap()` panics
  -- where no position is loaded.
  unfoldable pub configure_recovery_action : Pubkey → App → Attempt PendingAction
  unfolding form_pubkey form_number grace_seconds field_value is_true_text optional_name
      configure_metas option_string_bytes format_grace_period sighash
  configure_recovery_action recovery_asset app = do
    target_wallet ← form_pubkey host app.form_fields (codes "Invalid target wallet pubkey")
    days ← form_number app.form_fields 1
    hours ← form_number app.form_fields 2
    minutes ← form_number app.form_fields 3
    grace_secs ← grace_seconds days hours minutes
    lock_text ← field_value app.form_fields 4
    name_text ← field_value app.form_fields 5
    position_pda ← or_refuse app.position_pda (codes "No position loaded")
    key_asset ← or_refuse app.my_asset (codes "No key asset")
    collection ← or_refuse app.collection (codes "No collection")
    pos ← or_panic app.position
    let lock_config = is_true_text (trim lock_text)
    let payload =
        sighash host (codes "configure_recovery")
        ++ (to_le_bytes 8 grace_secs
            ++ ((if lock_config then 1 else 0) ∷ option_string_bytes (optional_name name_text)))
    built (record {
      description =
          codes "Configure Recovery"
          ∷ (codes "Target wallet: " ++ short_pubkey rt target_wallet)
          ∷ (codes "Grace period: " ++ format_grace_period days hours minutes)
          ∷ (codes "Lock config: " ++ bool_text lock_config)
          ∷ (codes "Recovery key: " ++ short_pubkey rt recovery_asset)
          ∷ [];
      instructions =
          hardig_ix rt payload (
            configure_metas app key_asset position_pda recovery_asset target_wallet
              (old_recovery pos) collection)
          ∷ [];
      extra_signers = recovery_asset ∷ [];
    })

  unfoldable pub execute_metas : App → PositionState → Pubkey → Pubkey → Pubkey → List AccountMeta
  execute_metas app pos position_pda new_admin_asset collection =
      writable app.keypair true
      ∷ writable pos.recovery_asset false
      ∷ writable position_pda false
      ∷ writable pos.current_admin_asset false
      ∷ writable new_admin_asset true
      ∷ readonly (config_pda rt) false
      ∷ writable collection false
      ∷ readonly rt.mpl_core_id false
      ∷ readonly rt.system_id false
      ∷ []

  unfoldable pub execute_recovery_action : Pubkey → App → Attempt PendingAction
  unfolding execute_metas sighash
  execute_recovery_action new_admin_asset app = do
    pos ← or_refuse app.position (codes "No position loaded")
    position_pda ← or_refuse app.position_pda (codes "No position loaded")
    refuse_if (pos.recovery_asset == default_key)
        (codes "No recovery key configured for this position")
    collection ← or_refuse app.collection (codes "No collection")
    built (record {
      description =
          codes "Execute Recovery"
          ∷ (codes "Position: " ++ short_pubkey rt position_pda)
          ∷ (codes "Burns old admin: " ++ short_pubkey rt pos.current_admin_asset)
          ∷ (codes "Burns recovery key: " ++ short_pubkey rt pos.recovery_asset)
          ∷ (codes "New admin key: " ++ short_pubkey rt new_admin_asset)
          ∷ codes "You will become the new admin."
          ∷ [];
      instructions =
          hardig_ix rt (sighash host (codes "execute_recovery"))
            (execute_metas app pos position_pda new_admin_asset collection)
          ∷ [];
      extra_signers = new_admin_asset ∷ [];
    })
