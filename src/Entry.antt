-- ===== src/Entry.antt =====
-- The entry points of the program, programs/hardig/src/lib.rs: which account of the list of an
-- instruction is which field of its `#[derive(Accounts)]` struct, what the struct demands of each,
-- and how the arguments follow the discriminator. The account framework and Borsh, which generate
-- the code from these declarations, are arguments: `Anchor` and `Borsh`.
pub mod Args
pub mod Trade
use hardig.Base.{
  ℕ, zero, suc, ◌+◌, ◌<◌, ◌^◌, ◌≡◌, Bool, true, false, ◌&&◌, ◌||◌, not, Option, none, some, List,
  [], ◌∷◌, ◌++◌, ◌==◌, if◌then◌else◌, to_le_bytes,
}
use hardig.Error.{Result, ok, err, ◌>>=◌, ◌>>◌, constrain, constraint}
use hardig.Runtime.{Runtime, Store, Pubkey, Bytes, Text, AccountMeta}
use hardig.State.{PositionState, ProtocolConfig, MarketConfig, KeyState, PromoConfig}
use hardig.Client.Build.{string_bytes}

-- The readers of the argument types, and the format that they read.
pub record Borsh : Type 0 where
  pub read_uint : ℕ → Bytes → Option (ℕ × Bytes)
  -- an unsigned integer of `n` bytes
  pub read_uint_le :
      (n x : ℕ) (rest : Bytes)
      → x < 256 ^ n
      → read_uint n (to_le_bytes n x ++ rest) ≡ some (x, rest)

-- What a field of the struct demands of its account: `Signer`, `#[account(mut)]`; and whether the
-- account is optional.
pub record Slot : Type 0 where
  pub signer : Bool
  pub mutable : Bool
  pub optional : Bool

abbrev pub plain : Slot
plain = record { signer = false; mutable = false; optional = false }

abbrev pub mutable_slot : Slot
mutable_slot = record { signer = false; mutable = true; optional = false }

abbrev pub signer_slot : Slot
signer_slot = record { signer = true; mutable = false; optional = false }

abbrev pub paying_slot : Slot
paying_slot = record { signer = true; mutable = true; optional = false }

abbrev pub optional_slot : Slot
optional_slot = record { signer = false; mutable = true; optional = true }

-- One account meets its demand; the program's own address stands for an optional account that is
-- absent, of which nothing is demanded.
abbrev pub meets : Pubkey → Slot → AccountMeta → Bool
meets program_id slot meta =
    (slot.optional && meta.pubkey == program_id)
    || ((not slot.signer || meta.is_signer) && (not slot.mutable || meta.is_writable))

-- The accounts of the list meet the demands, one by one; more may follow.
unfoldable pub fits : Pubkey → List Slot → List AccountMeta → Bool
fits program_id [] metas = true
fits program_id (slot ∷ slots) [] = false
fits program_id (slot ∷ slots) (meta ∷ metas) =
    meets program_id slot meta && fits program_id slots metas

-- The key of the account at an index of the list.
unfoldable pub account_at : List AccountMeta → ℕ → Pubkey
account_at [] i = 0
account_at (meta ∷ metas) zero = meta.pubkey
account_at (meta ∷ metas) (suc i) = account_at metas i
