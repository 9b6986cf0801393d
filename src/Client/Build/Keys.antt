-- ===== src/Client/Build/Keys.antt =====
-- The builders of crates/tui/src/app.rs for the keys of a position: build_authorize_key,
-- build_revoke_key and build_heartbeat.
use hardig.Base.{
  ℕ, zero, suc, Bool, true, false, ◌&&◌, Option, none, some, List, [], ◌∷◌, ◌++◌, ◌==◌, ◌/=◌,
  if◌then◌else◌, to_le_bytes, u64_mod,
}
use hardig.Runtime.{Runtime, Pubkey, Bytes, Text, AccountMeta, codes}
use hardig.State.{perm_limited_borrow, perm_limited_sell, perm_manage_keys}
use hardig.Permissions.{has_any}
use hardig.Mayflower.Cpi.{writable, readonly}
use hardig.Keys.Authorize.{Grant, key_state_seeds}
use hardig.Client.{Host, App, Field, KeyEntry, PendingAction, find_field}
use hardig.Client.Texts.{
  trim, parse_unsigned, permissions_name, short_pubkey, time_fields_to_slots, hex_byte,
}
use hardig.Client.Attempt.{Attempt, built, ◌>>=◌, ◌>>◌, or_refuse, refuse_if, or_panic, field_value}
use hardig.Client.Build.{
  sighash, config_pda, hardig_ix, parse_sol_to_lamports, optional_name, serialize_optional_name,
  name_line, text_or_empty,
}

-- `.and_then(|v| parse_sol_to_lamports(&v)).unwrap_or(0)`
unfoldable pub sol_or_zero : Host → Option Text → ℕ
unfolding parse_sol_to_lamports
sol_or_zero host none = 0
sol_or_zero host (some v) = elim (parse_sol_to_lamports host v) [ none ↦ 0 | some n ↦ n ]

abbrev pub no_collection : Text
no_collection = codes "No collection set — run create-collection first"

-- One limit of the form: the capacity and the refill period in slots.
unfoldable pub refill_of : List Field → Text → Text → Text → Attempt ℕ
unfolding find_field time_fields_to_slots
refill_of fields days hours minutes = or_panic (
    time_fields_to_slots (find_field fields days) (find_field fields hours)
      (find_field fields minutes))

-- Both numbers of a limit must be positive where the key has the permission.
unfoldable pub check_limit : Bool → ℕ → ℕ → Text → Attempt (Unit {0})
check_limit limited capacity refill label = do
  refuse_if (limited && capacity == 0) (label ++ codes " capacity must be > 0")
  refuse_if (limited && refill == 0) (label ++ codes " refill period must be > 0")

-- The permission byte of the second field, which must not be zero nor grant the managing of keys.
unfoldable pub form_permissions : List Field → Attempt ℕ
unfolding field_value trim parse_unsigned
form_permissions fields = do
  text ← field_value fields 1
  permissions ← or_refuse (parse_unsigned 256 (trim text)) (codes "Invalid permissions")
  refuse_if (permissions == 0) (codes "Permissions cannot be zero")
  refuse_if (has_any permissions perm_manage_keys)
      (codes "Cannot grant PERM_MANAGE_KEYS to delegated keys")
  built permissions

-- The arguments that the form spells, with the name as it is typed.
module _ (host : Host) where
  unfoldable pub form_grant : List Field → ℕ → Attempt Grant
  unfolding sol_or_zero refill_of check_limit find_field optional_name
  form_grant fields permissions = do
    sell_refill ←
        refill_of fields (codes "Sell Refill Days") (codes "Sell Refill Hours")
          (codes "Sell Refill Minutes")
    borrow_refill ←
        refill_of fields (codes "Borrow Refill Days") (codes "Borrow Refill Hours")
          (codes "Borrow Refill Minutes")
    let sell_cap = sol_or_zero host (find_field fields (codes "Sell Capacity"))
    let borrow_cap = sol_or_zero host (find_field fields (codes "Borrow Capacity"))
    check_limit (has_any permissions perm_limited_sell) sell_cap sell_refill (codes "LimSell")
    check_limit (has_any permissions perm_limited_borrow) borrow_cap borrow_refill
        (codes "LimBorrow")
    built (record {
      permissions = permissions;
      sell_bucket_capacity = sell_cap;
      sell_refill_period_slots = sell_refill;
      borrow_bucket_capacity = borrow_cap;
      borrow_refill_period_slots = borrow_refill;
      total_sell_limit = sol_or_zero host (find_field fields (codes "Total Sell Limit"));
      total_borrow_limit = sol_or_zero host (find_field fields (codes "Total Borrow Limit"));
      name = optional_name (text_or_empty (find_field fields (codes "Label (optional)")));
    })

  unfoldable pub form_pubkey : List Field → Text → Attempt Pubkey
  unfolding field_value trim
  form_pubkey fields msg = do
    text ← field_value fields 0
    or_refuse (host.parse_key (trim text)) msg

-- The arguments of `authorize_key` in the order of their declaration, but for the name.
unfoldable pub grant_bytes : Grant → Bytes
grant_bytes g =
    g.permissions
    ∷ (to_le_bytes 8 g.sell_bucket_capacity
        ++ (to_le_bytes 8 g.sell_refill_period_slots
            ++ (to_le_bytes 8 g.borrow_bucket_capacity
                ++ (to_le_bytes 8 g.borrow_refill_period_slots
                    ++ (to_le_bytes 8 g.total_sell_limit ++ to_le_bytes 8 g.total_borrow_limit)))))

module _ (rt : Runtime) (host : Host) where
  unfoldable pub authorize_metas :
      App → Pubkey → Pubkey → Pubkey → Pubkey → Pubkey → List AccountMeta
  authorize_metas app admin_asset position_pda new_asset target_wallet collection =
      writable app.keypair true
      ∷ readonly admin_asset false
      ∷ readonly position_pda false
      ∷ writable new_asset true
      ∷ readonly target_wallet false
      ∷ writable (rt.find_program_address (key_state_seeds new_asset) rt.program_id).0 false
      ∷ readonly (config_pda rt) false
      ∷ writable collection false
      ∷ readonly rt.mpl_core_id false
      ∷ readonly rt.system_id false
      ∷ []

  -- The new asset is the key of a fresh keypair. The form spells all arguments before the builder
  -- looks for the collection.
  unfoldable pub authorize_action : Pubkey → App → Attempt PendingAction
  unfolding form_pubkey form_permissions form_grant find_field serialize_optional_name
      authorize_metas grant_bytes name_line permissions_name sighash
  authorize_action new_asset app = do
    target_wallet ← form_pubkey host app.form_fields (codes "Invalid pubkey")
    permissions ← form_permissions app.form_fields
    position_pda ← or_refuse app.position_pda (codes "No position loaded")
    admin_asset ← or_refuse app.my_asset (codes "No key asset loaded")
    grant ← form_grant host app.form_fields permissions
    collection ← or_refuse app.collection no_collection
    let name = text_or_empty (find_field app.form_fields (codes "Label (optional)"))
    name_bytes ← serialize_optional_name name
    built (record {
      description =
          codes "Authorize Key"
          ∷ (codes "Target: " ++ rt.key_text target_wallet)
          ∷ (codes "Permissions: " ++ permissions_name permissions ++ hex_byte permissions)
          ∷ name_line (codes "Härdig Key") name
          ∷ (codes "Key Asset: " ++ rt.key_text new_asset)
          ∷ [];
      instructions =
          hardig_ix rt (sighash host (codes "authorize_key") ++ (grant_bytes grant ++ name_bytes))
            (authorize_metas app admin_asset position_pda new_asset target_wallet collection)
          ∷ [];
      extra_signers = new_asset ∷ [];
    })

  -- `Some(asset) != position.map(|p| p.current_admin_asset)`
  unfoldable pub revocable : App → KeyEntry → Bool
  revocable app entry = elim app.position [
    | none ↦ true
    | some p ↦ entry.asset /= p.current_admin_asset
  ]

  -- The entry at an index of the revocable ones.
  unfoldable pub nth_revocable : App → List KeyEntry → ℕ → Option KeyEntry
  unfolding revocable
  nth_revocable app [] i = none
  nth_revocable app (entry ∷ entries) zero =
      let rest = nth_revocable app entries zero in if revocable app entry then some entry else rest
  nth_revocable app (entry ∷ entries) (suc i) =
      let found = nth_revocable app entries i in
      let rest = nth_revocable app entries (suc i) in if revocable app entry then found else rest

  unfoldable pub revoke_metas : App → Pubkey → Pubkey → Pubkey → Pubkey → List AccountMeta
  revoke_metas app admin_asset position_pda target collection =
      writable app.keypair true
      ∷ readonly admin_asset false
      ∷ readonly position_pda false
      ∷ writable target false
      ∷ writable (rt.find_program_address (key_state_seeds target) rt.program_id).0 false
      ∷ readonly (config_pda rt) false
      ∷ writable collection false
      ∷ readonly rt.mpl_core_id false
      ∷ readonly rt.system_id false
      ∷ []

  unfoldable pub revoke_action : App → Attempt PendingAction
  unfolding field_value trim parse_unsigned nth_revocable revoke_metas permissions_name sighash
  revoke_action app = do
    text ← field_value app.form_fields 1
    idx ← or_refuse (parse_unsigned u64_mod (trim text)) (codes "Invalid index")
    target ← or_refuse (nth_revocable app app.keyring idx) (codes "Index out of range")
    position_pda ← or_refuse app.position_pda (codes "No position loaded")
    admin_asset ← or_refuse app.my_asset (codes "No key asset loaded")
    collection ← or_refuse app.collection no_collection
    built (record {
      description =
          codes "Revoke Key"
          ∷ (codes "Key Asset: " ++ rt.key_text target.asset)
          ∷ (codes "Permissions: " ++ permissions_name target.permissions)
          ∷ [];
      instructions =
          hardig_ix rt (sighash host (codes "revoke_key"))
            (revoke_metas app admin_asset position_pda target.asset collection)
          ∷ [];
      extra_signers = [];
    })

  unfoldable pub heartbeat_action : App → Attempt PendingAction
  unfolding sighash
  heartbeat_action app = do
    position_pda ← or_refuse app.position_pda (codes "No position loaded")
    key_asset ← or_refuse app.my_asset (codes "No key asset")
    built (record {
      description =
          codes "Heartbeat"
          ∷ codes "Updates last_admin_activity timestamp to prove liveness."
          ∷ (codes "Position: " ++ short_pubkey rt position_pda)
          ∷ [];
      instructions =
          hardig_ix rt (sighash host (codes "heartbeat")) (
            readonly app.keypair true
            ∷ readonly key_asset false
            ∷ writable position_pda false
            ∷ readonly (config_pda rt) false
            ∷ [])
          ∷ [];
      extra_signers = [];
    })
