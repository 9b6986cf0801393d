-- ===== src/Protocol/Migrate.antt =====
-- `migrate_config`: programs/hardig/src/instructions/migrate_config.rs.
pub mod Layout
use hardig.Base.{
  ℕ, ◌+◌, ◌-◌, ◌||◌, [], ◌∷◌, ◌++◌, length, take, drop, slice, replicate, get_or, from_le_bytes,
  ltb, ◌==◌, if◌then◌else◌,
}
use hardig.Error.{Result, ok, ◌>>=◌, ◌>>◌, require, constrain, already_migrated, unauthorized}
use hardig.Runtime.{Runtime, Store, Pubkey, Bytes, transfer, default_key}
use hardig.State.{config_seed, config_size}
use hardig.Mayflower.Cpi.{key_bytes}

abbrev pub v0_size : ℕ
v0_size = 8 + 32 + 1

abbrev pub v1_size : ℕ
v1_size = 8 + 32 + 32 + 1

-- `realloc(new_size, false)` and `data[from..from + n].copy_from_slice(new)`
abbrev pub resize : ℕ → Bytes → Bytes
resize n bytes = take n (bytes ++ replicate n 0)

abbrev pub write_at : ℕ → Bytes → Bytes → Bytes
write_at from new bytes = take from bytes ++ new ++ drop (from + length new) bytes

-- The collection and the bump, which the old layouts hold at different places.
unfoldable pub old_fields : Bytes → Pubkey × ℕ
old_fields bytes =
    if length bytes == v0_size
    then (default_key, get_or bytes 40 0)
    else (from_le_bytes (slice bytes 40 72), get_or bytes 72 0)

-- What is written over the old account.
unfoldable pub migrated_bytes : Pubkey → ℕ → Bytes → Bytes
migrated_bytes collection bump bytes = write_at 104 (bump ∷ []) (
    write_at 72 (key_bytes default_key)
      (write_at 40 (key_bytes collection) (resize config_size bytes)))

unfoldable pub update_bytes : Pubkey → (Bytes → Bytes) → Store → Store
update_bytes key f s k =
    if k == key
    then record { owner = (s key).owner; lamports = (s key).lamports; bytes = f (s key).bytes }
    else s k

module _ (rt : Runtime) where
  -- The rent that the larger account lacks.
  unfoldable pub top_up : Pubkey → Pubkey → Store → Result Store
  top_up admin config_key s =
      let diff = rt.minimum_balance config_size - (s config_key).lamports in
      if ltb 0 diff then rt.invoke (transfer admin config_key diff) s else ok s

  unfoldable pub migrate_config : Pubkey → Pubkey → Store → Result Store
  migrate_config admin config_key s =
      let bytes = (s config_key).bytes in
      do
        constrain (config_key == (rt.find_program_address (config_seed ∷ []) rt.program_id).0)
        require (length bytes == v0_size || length bytes == v1_size) already_migrated
        require (from_le_bytes (slice bytes 8 40) == admin) unauthorized
        let (collection, bump) = old_fields bytes
        s' ← top_up admin config_key s
        ok (update_bytes config_key (migrated_bytes collection bump) s')
