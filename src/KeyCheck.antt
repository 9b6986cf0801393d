-- ===== src/KeyCheck.antt =====
-- The check of a key NFT, `validate_key` of programs/hardig/src/instructions/validate_key.rs.
pub mod Sound
use hardig.Base.{
  ℕ, Bool, Option, none, some, List, [], ◌∷◌, length, get_or, slice, from_le_bytes, ltb, leb, ◌==◌,
  ◌/=◌, if◌then◌else◌,
}
use hardig.Error.{
  Result, ok, ◌>>=◌, ◌>>◌, require, ok_or, invalid_key, key_not_held, wrong_position,
  insufficient_permission,
}
use hardig.Runtime.{Runtime, Store, Pubkey, Text, Attribute, codes, text_eq}
use hardig.Decimal.{parse_u8}
use hardig.Permissions.{has_any}

-- `attributes.iter().find(|a| a.key == key)`
unfoldable pub find_attribute : Text → List Attribute → Option Attribute
find_attribute key [] = none
find_attribute key (a ∷ rest) = if text_eq a.key key then some a else find_attribute key rest

-- `.and_then(|a| a.value.parse::<u8>().ok())`
unfoldable pub parse_value : Option Attribute → Option ℕ
parse_value none = none
parse_value (some a) = parse_u8 a.value

-- The part that reads the attribute list, from step 3 on.
unfoldable pub check_attributes : Runtime → List Attribute → Pubkey → ℕ → Result ℕ
check_attributes rt attributes expected_admin_asset required = do
  position_attr ← ok_or (find_attribute (codes "position") attributes) wrong_position
  require (text_eq position_attr.value (rt.key_text expected_admin_asset)) wrong_position
  permissions ← ok_or (parse_value (find_attribute (codes "permissions") attributes)) invalid_key
  require (has_any permissions required) insufficient_permission
  ok permissions

-- Layout of an asset: kind (1 byte), owner (32), tag of the update authority (1), its key (32).
unfoldable pub validate_key : Runtime → Store → Pubkey → Pubkey → Pubkey → ℕ → Pubkey → Result ℕ
validate_key rt s signer key_asset expected_admin_asset required expected_collection =
    let info = s key_asset in
    let bytes = info.bytes in
    do
      require (info.owner == rt.mpl_core_id) invalid_key
      require (ltb 0 (length bytes)) invalid_key
      kind ← ok_or (rt.asset_kind (get_or bytes 0 0)) invalid_key
      require (kind == rt.asset_v1) invalid_key
      require (leb 33 (length bytes)) invalid_key
      let owner = from_le_bytes (slice bytes 1 33)
      require (leb 66 (length bytes)) invalid_key
      require (get_or bytes 33 0 == 2) invalid_key
      require (from_le_bytes (slice bytes 34 66) == expected_collection) invalid_key
      require (owner == signer) key_not_held
      attributes ← ok_or (rt.fetch_attributes info) invalid_key
      check_attributes rt attributes expected_admin_asset required
