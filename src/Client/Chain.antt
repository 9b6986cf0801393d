-- ===== src/Client/Chain.antt =====
-- What the client reads of the chain: the answers of the RPC node, and the readers of key NFTs at
-- the end of `impl App` in crates/tui/src/app.rs.
use hardig.Base.{
  ℕ, Bool, false, Option, none, some, List, length, slice, leb, ◌==◌, if◌then◌else◌, from_le_bytes,
}
use hardig.Runtime.{Runtime, Pubkey, Bytes, Text, AccountInfo, codes}
use hardig.KeyCheck.{find_attribute, parse_value}
use hardig.Client.{Host}

-- The answers of the node during one key press, with `Err` as `none`. The text of an error is
-- among the answers.
pub record Rpc : Type 0 where
  pub get_slot : Option ℕ
  pub get_account : Pubkey → Option AccountInfo
  -- `get_program_accounts_with_config`, with a filter on the size of the data
  pub accounts_of_size : ℕ → Option (List (Pubkey × AccountInfo))
  -- with filters on the bytes at an offset
  pub accounts_with : List (ℕ × Bytes) → Option (List (Pubkey × AccountInfo))
  pub scan_error : Text

-- Bytes 1 to 33 of the data of an account that is long enough.
unfoldable pub owner_field : Option AccountInfo → Option Pubkey
owner_field none = none
owner_field (some acc) =
    if leb 33 (length acc.bytes) then some (from_le_bytes (slice acc.bytes 1 33)) else none

unfoldable pub read_asset_owner_pubkey : Rpc → Pubkey → Option Pubkey
unfolding owner_field
read_asset_owner_pubkey rpc asset = owner_field (rpc.get_account asset)

unfoldable pub check_asset_owner : Rpc → Pubkey → Pubkey → Bool
unfolding owner_field
check_asset_owner rpc asset wallet = elim (owner_field (rpc.get_account asset)) [
  | none ↦ false
  | some owner ↦ owner == wallet
]

-- The balance of a token account, from bytes 64 to 72.
unfoldable pub read_token_balance : Rpc → Pubkey → Option ℕ
read_token_balance rpc ata = elim (rpc.get_account ata) [
  | none ↦ none
  | some account ↦
      (if leb 72 (length account.bytes)
        then some (from_le_bytes (slice account.bytes 64 72))
        else none)
]

unfoldable pub read_asset_permissions : Runtime → Rpc → Pubkey → Option ℕ
unfolding find_attribute parse_value
read_asset_permissions rt rpc asset = elim (rpc.get_account asset) [
  | none ↦ none
  | some acc ↦ elim (rt.fetch_attributes acc) [
    | none ↦ none
    | some attributes ↦ parse_value (find_attribute (codes "permissions") attributes)
  ]
]

unfoldable pub read_asset_name : Runtime → Rpc → Pubkey → Option Text
read_asset_name rt rpc asset = elim (rpc.get_account asset) [
  | none ↦ none
  | some acc ↦ rt.asset_name acc.bytes
]

-- `.and_then(|a| a.value.parse::<Pubkey>().ok())` behind the search of the attribute
unfoldable pub read_asset_position_binding : Runtime → Host → Rpc → Pubkey → Option Pubkey
unfolding find_attribute
read_asset_position_binding rt host rpc asset = elim (rpc.get_account asset) [
  | none ↦ none
  | some acc ↦ elim (rt.fetch_attributes acc) [
    | none ↦ none
    | some attributes ↦ elim (find_attribute (codes "position") attributes) [
      | none ↦ none
      | some a ↦ host.parse_key a.value
    ]
  ]
]
