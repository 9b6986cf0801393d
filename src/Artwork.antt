-- ===== src/Artwork.antt =====
-- Receipts for custom artwork: programs/hardig/src/artwork.rs. The accounts that an instruction
-- gets beyond its own (`remaining_accounts`) are a list of keys into the store.
use hardig.Base.{
  ℕ, zero, suc, ◌+◌, ◌-◌, ◌*◌, Bool, true, false, ◌&&◌, ◌||◌, Option, none, some, List, [], ◌∷◌,
  length, take, get_or, slice, from_le_bytes, ltb, leb, ◌==◌, ◌/=◌, if◌then◌else◌,
}
use hardig.Error.{
  Result, ok, err, custom, ◌>>=◌, ◌>>◌, require, ok_or, invalid_artwork_receipt, untrusted_provider,
  artwork_receipt_position_mismatch,
}
use hardig.Runtime.{Runtime, Store, Pubkey, Bytes, Text, codes, text_eq}
use hardig.Mayflower.Cpi.{key_bytes}

abbrev pub artwork_receipt_discriminator : Bytes
artwork_receipt_discriminator = 0xe2 ∷ 0x3c ∷ 0x32 ∷ 0x41 ∷ 0xab ∷ 0x2e ∷ 0xd6 ∷ 0x47 ∷ []

abbrev pub trusted_provider_discriminator : Bytes
trusted_provider_discriminator = 0xa8 ∷ 0x60 ∷ 0x60 ∷ 0xc0 ∷ 0xdc ∷ 0x7c ∷ 0x06 ∷ 0xcc ∷ []

abbrev pub artwork_image_discriminator : Bytes
artwork_image_discriminator = 0x61 ∷ 0x94 ∷ 0x7d ∷ 0xf4 ∷ 0xb6 ∷ 0xd2 ∷ 0x4a ∷ 0x61 ∷ []

abbrev pub artwork_set_offset : ℕ
artwork_set_offset = 8

abbrev pub position_seed_offset : ℕ
position_seed_offset = 40

abbrev pub artwork_image_uri_offset : ℕ
artwork_image_uri_offset = 75

-- `TrustedProvider::SEED`, `TrustedProvider::SIZE`
abbrev pub trusted_provider_seed : Bytes
trusted_provider_seed = codes "trusted_provider"

abbrev pub trusted_provider_size : ℕ
trusted_provider_size = 8 + 32 + 32 + 1 + 1

unfoldable pub read_receipt_position_seed : Bytes → Result Pubkey
read_receipt_position_seed bytes = do
  require (leb (position_seed_offset + 32) (length bytes)) invalid_artwork_receipt
  require (text_eq (take 8 bytes) artwork_receipt_discriminator) invalid_artwork_receipt
  ok (from_le_bytes (slice bytes position_seed_offset (position_seed_offset + 32)))

unfoldable pub read_receipt_artwork_set : Bytes → Result Pubkey
read_receipt_artwork_set bytes = do
  require (leb (artwork_set_offset + 32) (length bytes)) invalid_artwork_receipt
  require (text_eq (take 8 bytes) artwork_receipt_discriminator) invalid_artwork_receipt
  ok (from_le_bytes (slice bytes artwork_set_offset (artwork_set_offset + 32)))

-- The first byte of a UTF-8 sequence: how many bytes follow, the range of the next one, and the
-- bits that it carries.
utf8_lead : ℕ → Option (ℕ × ℕ × ℕ × ℕ)
utf8_lead b =
    if leb 0xc2 b && leb b 0xdf
    then some (0, 0x80, 0xbf, b - 0xc0)
    else if b == 0xe0
    then some (1, 0xa0, 0xbf, 0)
    else if b == 0xed
    then some (1, 0x80, 0x9f, 13)
    else if leb 0xe1 b && leb b 0xef
    then some (1, 0x80, 0xbf, b - 0xe0)
    else if b == 0xf0
    then some (2, 0x90, 0xbf, 0)
    else if leb 0xf1 b && leb b 0xf3
    then some (2, 0x80, 0xbf, b - 0xf0)
    else if b == 0xf4
    then some (2, 0x80, 0x8f, 4)
    else none

cons_char : ℕ → Option Text → Option Text
cons_char c none = none
cons_char c (some t) = some (c ∷ t)

-- What a decoder waits for: a first byte, or a further one in a range, with bytes behind it.
pub data Utf8 : Type 0 where
  start : Utf8
  follow : ℕ → ℕ → ℕ → ℕ → Utf8

utf8_from : Bytes → Utf8 → Option Text
utf8_from [] start = some []
utf8_from [] (follow _ _ _ _) = none
utf8_from (b ∷ rest) start = elim (ltb b 0x80) [
  | true ↦ cons_char b (utf8_from rest start)
  | false ↦ elim (utf8_lead b) [
    | none ↦ none
    | some (n, lo, hi, acc) ↦ utf8_from rest (follow n lo hi acc)
  ]
]
utf8_from (b ∷ rest) (follow zero lo hi acc) = elim (leb lo b && leb b hi) [
  | true ↦ cons_char (acc * 64 + (b - 0x80)) (utf8_from rest start)
  | false ↦ none
]
utf8_from (b ∷ rest) (follow (suc n) lo hi acc) = elim (leb lo b && leb b hi) [
  | true ↦ utf8_from rest (follow n 0x80 0xbf (acc * 64 + (b - 0x80)))
  | false ↦ none
]

-- `String::from_utf8`
unfoldable pub from_utf8 : Bytes → Option Text
unfolding utf8_from utf8_lead cons_char
from_utf8 bytes = utf8_from bytes start

unfoldable pub read_borsh_string : Bytes → ℕ → Result Text
read_borsh_string bytes offset = do
  require (leb (offset + 4) (length bytes)) invalid_artwork_receipt
  let len = from_le_bytes (slice bytes offset (offset + 4))
  require (leb len 128) invalid_artwork_receipt
  require (leb (offset + 4 + len) (length bytes)) invalid_artwork_receipt
  ok_or (from_utf8 (slice bytes (offset + 4) (offset + 4 + len))) invalid_artwork_receipt

unfoldable pub read_artwork_image_uri : Bytes → Result Text
read_artwork_image_uri bytes = do
  require (ltb (artwork_image_uri_offset + 4) (length bytes)) invalid_artwork_receipt
  require (text_eq (take 8 bytes) artwork_image_discriminator) invalid_artwork_receipt
  read_borsh_string bytes artwork_image_uri_offset

-- Without what is needed: nothing where a fallback is allowed, else the error.
abbrev pub fall_back : Bool → Result (Option Text)
fall_back true = ok none
fall_back false = err (custom invalid_artwork_receipt)

module _ (rt : Runtime) (s : Store) where
  -- `b"artwork_image", artwork_set, key_type, permissions`, derived for the provider.
  image_address : Pubkey → Pubkey → ℕ → ℕ → Pubkey
  image_address provider artwork_set key_type permissions =
      (rt.find_program_address
        (codes "artwork_image" ∷ key_bytes artwork_set ∷ (key_type ∷ []) ∷ (permissions ∷ []) ∷ [])
        provider).0

  -- The image of the exact permissions, or the one for all permissions of the key type.
  image_matches : Pubkey → Pubkey → ℕ → ℕ → Pubkey → Bool
  image_matches provider artwork_set key_type permissions image =
      image == image_address provider artwork_set key_type permissions
      || (permissions /= 0 && image == image_address provider artwork_set key_type 0)

  -- From the third account on.
  unfoldable pub read_image : Pubkey → Pubkey → ℕ → ℕ → List Pubkey → Bool → Result (Option Text)
  unfolding image_matches image_address
  read_image provider artwork_set key_type permissions [] graceful_fallback =
      fall_back graceful_fallback
  read_image provider artwork_set key_type permissions (image ∷ _) graceful_fallback = do
    require (image_matches provider artwork_set key_type permissions image) invalid_artwork_receipt
    require ((s image).owner == provider) invalid_artwork_receipt
    if length (s image).bytes == 0
        then fall_back graceful_fallback
        else (do uri ← read_artwork_image_uri (s image).bytes; ok (some uri))

  -- The provider that the second account names, if it is one that the program trusts.
  unfoldable pub trusted_provider : Pubkey → Pubkey → Result Pubkey
  trusted_provider program_id trusted = do
    let bytes = (s trusted).bytes
    require (leb trusted_provider_size (length bytes)) untrusted_provider
    require (text_eq (take 8 bytes) trusted_provider_discriminator) untrusted_provider
    let provider = from_le_bytes (slice bytes 8 40)
    require (get_or bytes 72 0 /= 0) untrusted_provider
    require ((s trusted).owner == program_id) untrusted_provider
    require
        (trusted
          == (rt.find_program_address (trusted_provider_seed ∷ key_bytes provider ∷ [])
              program_id).0)
        untrusted_provider
    ok provider

  -- The receipt, behind the tests for missing accounts.
  unfoldable pub check_receipt :
      Pubkey → Pubkey → List Pubkey → Pubkey → Pubkey → Option (ℕ × ℕ) → Bool → Result (Option Text)
  check_receipt receipt trusted rest position_authority_seed program_id image_key_type
        graceful_fallback =
      do
        provider ← trusted_provider program_id trusted
        require ((s receipt).owner == provider) untrusted_provider
        position_seed ← read_receipt_position_seed (s receipt).bytes
        require (position_seed == position_authority_seed) artwork_receipt_position_mismatch
        elim image_key_type [
          | none ↦ ok none
          | some (key_type, permissions) ↦ do
            artwork_set ← read_receipt_artwork_set (s receipt).bytes
            read_image provider artwork_set key_type permissions rest graceful_fallback
        ]

  unfoldable pub validate_artwork_receipt :
      Option Pubkey → List Pubkey → Pubkey → Pubkey → Option (ℕ × ℕ) → Bool → Result (Option Text)
  validate_artwork_receipt none accounts seed program_id image_key_type graceful_fallback = ok none
  validate_artwork_receipt (some pk) [] seed program_id image_key_type graceful_fallback =
      fall_back graceful_fallback
  validate_artwork_receipt (some pk) (_ ∷ []) seed program_id image_key_type graceful_fallback =
      fall_back graceful_fallback
  validate_artwork_receipt (some pk) (receipt ∷ trusted ∷ rest) seed program_id image_key_type
        graceful_fallback =
      do
        require (receipt == pk) invalid_artwork_receipt
        if graceful_fallback && (length (s receipt).bytes == 0)
            then ok none
            else check_receipt receipt trusted rest seed program_id image_key_type graceful_fallback
