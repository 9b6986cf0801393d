-- ===== src/Mayflower.antt =====
-- Mayflower, the lending program that the positions live in: its addresses and layouts
-- (programs/hardig/src/mayflower/constants.rs) and the readers of its accounts (floor.rs). The
-- instructions sent to it are in the child `Cpi`.
pub mod Cpi
pub mod Price
use hardig.Base.{
  ℕ, zero, suc, ◌+◌, ◌-◌, ◌*◌, ◌/◌, ◌%◌, ◌^◌, Bool, List, [], ◌∷◌, Option, none, some, length, take,
  get_or, slice, from_le_bytes, ltb, leb, ◌==◌, ◌/=◌, if◌then◌else◌, checked_mul, u64_mod, u128_mod,
  bit_and, bit_or,
}
use hardig.Error.{
  Result, ok, ◌>>=◌, ◌>>◌, require, ok_or, insufficient_funds, invalid_position_pda,
  invalid_mayflower_account,
}
use hardig.Runtime.{Pubkey, Bytes, Text, codes, text_eq}

-- The base-58 addresses of the source as numbers.
abbrev pub mayflower_program_id : Pubkey
mayflower_program_id = 0x5da168f5496e0a36a8466a04e7d2176c0b8402a8f4681e84bc966ea688eefc8c

abbrev pub mayflower_tenant : Pubkey
mayflower_tenant = 0x6b5378172c6c3eb5b4c3aabc9d6c1f3a406950d7b7a1cc37535a4b93304a1568

abbrev pub ix_init_personal_position : Bytes
ix_init_personal_position = 146 ∷ 163 ∷ 167 ∷ 48 ∷ 30 ∷ 216 ∷ 179 ∷ 88 ∷ []

abbrev pub ix_buy : Bytes
ix_buy = 30 ∷ 205 ∷ 124 ∷ 67 ∷ 20 ∷ 142 ∷ 236 ∷ 136 ∷ []

abbrev pub ix_borrow : Bytes
ix_borrow = 228 ∷ 253 ∷ 131 ∷ 202 ∷ 207 ∷ 116 ∷ 89 ∷ 18 ∷ []

abbrev pub ix_repay : Bytes
ix_repay = 234 ∷ 103 ∷ 67 ∷ 82 ∷ 208 ∷ 234 ∷ 219 ∷ 166 ∷ []

abbrev pub ix_sell : Bytes
ix_sell = 223 ∷ 239 ∷ 212 ∷ 254 ∷ 255 ∷ 120 ∷ 53 ∷ 1 ∷ []

abbrev pub pp_discriminator : Bytes
pp_discriminator = 40 ∷ 172 ∷ 123 ∷ 89 ∷ 170 ∷ 15 ∷ 56 ∷ 141 ∷ []

abbrev pub pp_deposited_shares_offset : ℕ
pp_deposited_shares_offset = 104

abbrev pub pp_debt_offset : ℕ
pp_debt_offset = 112

abbrev pub market_discriminator : Bytes
market_discriminator = 133 ∷ 114 ∷ 237 ∷ 100 ∷ 77 ∷ 96 ∷ 120 ∷ 49 ∷ []

abbrev pub market_floor_price_offset : ℕ
market_floor_price_offset = 104

abbrev pub rust_decimal_size : ℕ
rust_decimal_size = 16

unfoldable pub read_deposited_shares : Bytes → Result ℕ
read_deposited_shares position_data = do
  require (leb (pp_deposited_shares_offset + 8) (length position_data)) invalid_position_pda
  require (text_eq (take 8 position_data) pp_discriminator) invalid_position_pda
  ok (
      from_le_bytes
        (slice position_data pp_deposited_shares_offset (pp_deposited_shares_offset + 8)))

unfoldable pub read_debt : Bytes → Result ℕ
read_debt position_data = do
  require (leb (pp_debt_offset + 8) (length position_data)) invalid_position_pda
  require (text_eq (take 8 position_data) pp_discriminator) invalid_position_pda
  ok (from_le_bytes (slice position_data pp_debt_offset (pp_debt_offset + 8)))

-- `u64::try_from` of a 128-bit number
abbrev pub to_u64 : ℕ → Option ℕ
to_u64 x = if ltb x u64_mod then some x else none

unfoldable pub calculate_borrow_capacity : ℕ → ℕ → ℕ → Result ℕ
calculate_borrow_capacity deposited_shares floor_price_lamports current_debt = do
  value ← ok_or (checked_mul u128_mod deposited_shares floor_price_lamports) insufficient_funds
  let floor_value = value / 1_000_000_000
  ok_or (to_u64 (floor_value - current_debt)) insufficient_funds

-- `10u128.checked_pow(scale)`: 10 ^ 38 is the last power below 2 ^ 128.
abbrev pub checked_pow_ten : ℕ → Option ℕ
checked_pow_ten scale = if leb scale 38 then some (10 ^ scale) else none

-- `for i in 4..16 { mantissa |= bytes[i] << (8 * (i - 4)) }`, over the rounds left.
unfoldable pub mantissa_loop : Bytes → ℕ → ℕ → ℕ → ℕ
mantissa_loop bytes zero i mantissa = mantissa
mantissa_loop bytes (suc rounds) i mantissa =
    mantissa_loop bytes rounds (i + 1)
      (bit_or mantissa (get_or bytes i 0 * 2 ^ (8 * (i - 4)) % u128_mod))

unfoldable pub decode_rust_decimal_to_lamports : Bytes → Result ℕ
unfolding mantissa_loop
decode_rust_decimal_to_lamports bytes =
    let scale = get_or bytes 2 0 in
    let mantissa = mantissa_loop bytes 12 4 0 in
    if bit_and (get_or bytes 3 0) 0x80 /= 0 then ok 0 else do
      scaled ← ok_or (checked_mul u128_mod mantissa 1_000_000_000) insufficient_funds
      divisor ← ok_or (checked_pow_ten scale) insufficient_funds
      ok_or (to_u64 (scaled / divisor)) insufficient_funds

unfoldable pub read_floor_price : Bytes → Result ℕ
read_floor_price market_data = do
  require (ltb (market_floor_price_offset + rust_decimal_size) (length market_data))
      invalid_position_pda
  require (text_eq (take 8 market_data) market_discriminator) invalid_mayflower_account
  decode_rust_decimal_to_lamports
      (slice market_data market_floor_price_offset (market_floor_price_offset + rust_decimal_size))
