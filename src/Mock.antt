-- ===== src/Mock.antt =====
-- The stand-in for Mayflower of the tests, test-programs/mock-mayflower/src/lib.rs: what it does
-- with the account of the personal position. Borrowing an account's data, which fails only where it
-- is held already, is left out.
pub mod Slices
pub mod Matches
use hardig.Base.{
  ℕ, zero, suc, ◌+◌, ◌-◌, Bool, true, false, List, [], ◌∷◌, ◌++◌, length, take, drop, slice, ltb,
  leb, ◌==◌, if◌then◌else◌, from_le_bytes, to_le_bytes, saturating_add, u64_mod, map,
}
use hardig.Runtime.{Store, Pubkey, Bytes, AccountInfo, AccountMeta, Instruction, text_eq}

-- The discriminators and the offsets, which the mock spells for itself.
abbrev pub ix_buy : Bytes
ix_buy = 30 ∷ 205 ∷ 124 ∷ 67 ∷ 20 ∷ 142 ∷ 236 ∷ 136 ∷ []

abbrev pub ix_sell : Bytes
ix_sell = 223 ∷ 239 ∷ 212 ∷ 254 ∷ 255 ∷ 120 ∷ 53 ∷ 1 ∷ []

abbrev pub ix_borrow : Bytes
ix_borrow = 228 ∷ 253 ∷ 131 ∷ 202 ∷ 207 ∷ 116 ∷ 89 ∷ 18 ∷ []

abbrev pub ix_repay : Bytes
ix_repay = 234 ∷ 103 ∷ 67 ∷ 82 ∷ 208 ∷ 234 ∷ 219 ∷ 166 ∷ []

abbrev pub pp_deposited_shares_offset : ℕ
pp_deposited_shares_offset = 104

abbrev pub pp_debt_offset : ℕ
pp_debt_offset = 112

-- `data[offset..offset + 8].copy_from_slice(&value.to_le_bytes())`
unfoldable pub write_u64 : ℕ → ℕ → Bytes → Bytes
write_u64 offset value bytes = take offset bytes ++ (to_le_bytes 8 value ++ drop (offset + 8) bytes)

abbrev pub read_u64 : ℕ → Bytes → ℕ
read_u64 offset bytes = from_le_bytes (slice bytes offset (offset + 8))

-- The number at an offset, changed, where the data reaches that far.
unfoldable pub change_u64 : ℕ → (ℕ → ℕ) → Bytes → Bytes
unfolding write_u64
change_u64 offset change bytes =
    if leb (offset + 8) (length bytes)
    then write_u64 offset (change (read_u64 offset bytes)) bytes
    else bytes

-- `accounts[i]`, where there are more than `i`
unfoldable pub nth_key : List AccountMeta → ℕ → Pubkey
nth_key [] i = 0
nth_key (meta ∷ metas) zero = meta.pubkey
nth_key (meta ∷ metas) (suc i) = nth_key metas i

-- The data of one account
unfoldable pub set_bytes : Pubkey → Bytes → Store → Store
set_bytes key bytes s k = if k == key then record (s key) { bytes = bytes } else s k

-- The account at an index gets its number changed, if the instruction has an amount and the list
-- reaches that far.
unfoldable pub change_account : List AccountMeta → ℕ → Bytes → ℕ → (ℕ → ℕ → ℕ) → Store → Store
unfolding change_u64 nth_key set_bytes
change_account accounts index instruction_data offset change s =
    let amount = read_u64 8 instruction_data in
    let pp = nth_key accounts index in
    if leb 16 (length instruction_data)
    then (if ltb index (length accounts)
        then set_bytes pp (change_u64 offset (λ n. change n amount) (s pp).bytes) s
        else s)
    else s

abbrev pub saturating_add_u64 : ℕ → ℕ → ℕ
saturating_add_u64 = saturating_add u64_mod

abbrev pub saturating_sub_u64 : ℕ → ℕ → ℕ
saturating_sub_u64 a b = a - b

unfoldable pub process_instruction : List AccountMeta → Bytes → Store → Store
unfolding change_account
process_instruction accounts instruction_data s =
    let disc = take 8 instruction_data in
    if ltb (length instruction_data) 8
    then s
    else if text_eq disc ix_buy
    then change_account accounts 5 instruction_data pp_deposited_shares_offset saturating_add_u64 s
    else if text_eq disc ix_sell
    then change_account accounts 5 instruction_data pp_deposited_shares_offset saturating_sub_u64 s
    else if text_eq disc ix_borrow
    then change_account accounts 10 instruction_data pp_debt_offset saturating_add_u64 s
    else if text_eq disc ix_repay
    then change_account accounts 3 instruction_data pp_debt_offset saturating_sub_u64 s
    else s
