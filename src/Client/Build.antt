-- ===== src/Client/Build.antt =====
-- The instructions that crates/tui/src/app.rs builds. This file has what the builders share: the
-- discriminator, the addresses, and the encoding of the arguments.
pub mod Trade
pub mod Admin
pub mod Keys
pub mod Recovery
pub mod Promo
pub mod Position
use hardig.Base.{
  ℕ, ◌+◌, Bool, true, false, ◌&&◌, Option, none, some, List, [], ◌∷◌, ◌++◌, length, take, leb, ltb,
  ◌==◌, if◌then◌else◌, to_le_bytes,
}
use hardig.Runtime.{Runtime, Pubkey, Bytes, Text, AccountMeta, Instruction, codes, byte_len}
use hardig.State.{config_seed}
use hardig.Decimal.{u64_text}
use hardig.Mayflower.Cpi.{key_bytes, writable, readonly}
use hardig.Promo.{utf8}
use hardig.Client.{Host, App}
use hardig.Client.Texts.{trim, is_empty}
use hardig.Client.Attempt.{Attempt, built, refused, ◌>>◌, refuse_if}

-- `ATA_PROGRAM_ID`
abbrev pub ata_program_id : Pubkey
ata_program_id = 40695635629901152665410025302173295360073252240518262094500050880242748069772

abbrev pub default_nav_sol_mint : Pubkey
default_nav_sol_mint = 21042371379124231045029659209074966095009616219742536101447065608135582264587

unfoldable pub nav_token_name : Pubkey → Text
nav_token_name mint = if mint == default_nav_sol_mint then codes "navSOL" else codes "shares"

unfoldable pub parse_sol_to_lamports : Host → Text → Option ℕ
unfolding trim
parse_sol_to_lamports host s = elim (host.parse_f64 (trim s)) [
  | none ↦ none
  | some sol ↦
      (let zero_sol = host.to_f64 0 in
        let lamports =
          host.f64_as_u64 (host.f64_round (host.f64_mul sol (host.to_f64 1_000_000_000))) in
        if host.f64_lt sol zero_sol
        then none
        else if lamports == 0 && host.f64_lt zero_sol sol
        then none
        else some lamports)
]

-- `hash(…).to_bytes()[..8]` of `global:<name>`
unfoldable pub sighash : Host → Text → Bytes
unfolding utf8
sighash host name = take 8 (host.sha256 (utf8 (codes "global:" ++ name)))

unfoldable pub get_ata : Runtime → Pubkey → Pubkey → Pubkey
get_ata rt wallet mint =
    (rt.find_program_address (key_bytes wallet ∷ key_bytes rt.token_id ∷ key_bytes mint ∷ [])
      ata_program_id).0

unfoldable pub create_ata_idempotent_ix : Runtime → Pubkey → Pubkey → Pubkey → Instruction
unfolding get_ata
create_ata_idempotent_ix rt payer wallet mint = record {
  program = ata_program_id;
  metas =
      writable payer true
      ∷ writable (get_ata rt wallet mint) false
      ∷ readonly wallet false
      ∷ readonly mint false
      ∷ readonly rt.system_id false
      ∷ readonly rt.token_id false
      ∷ [];
  payload = 1 ∷ [];
}

-- `find_program_address(&[ProtocolConfig::SEED], &hardig::ID)`
abbrev pub config_pda : Runtime → Pubkey
config_pda rt = (rt.find_program_address (config_seed ∷ []) rt.program_id).0

-- `Instruction::new_with_bytes(hardig::ID, &data, accounts)`
abbrev pub hardig_ix : Runtime → Bytes → List AccountMeta → Instruction
hardig_ix rt payload metas = record { program = rt.program_id; metas = metas; payload = payload }

-- A text behind the number of its bytes, in four bytes.
unfoldable pub string_bytes : Text → Bytes
unfolding utf8
string_bytes s = to_le_bytes 4 (byte_len s) ++ utf8 s

-- An optional text behind its tag.
unfoldable pub option_string_bytes : Option Text → Bytes
unfolding string_bytes
option_string_bytes none = 0 ∷ []
option_string_bytes (some s) = 1 ∷ string_bytes s

-- `if trimmed.is_empty() { None } else { Some(trimmed) }`
unfoldable pub optional_name : Text → Option Text
unfolding trim
optional_name name = let trimmed = trim name in if is_empty trimmed then none else some trimmed

-- The length in the message and in the test is the number of bytes.
unfoldable pub serialize_optional_name : Text → Attempt Bytes
unfolding trim option_string_bytes optional_name
serialize_optional_name name =
    let trimmed = trim name in
    if ltb 32 (byte_len trimmed)
    then refused (codes "Name too long (" ++ u64_text (byte_len trimmed) ++ codes " chars, max 32)")
    else built (option_string_bytes (optional_name name))

-- The line of the description that shows the name of the new key.
unfoldable pub name_line : Text → Text → Text
unfolding trim
name_line base name =
    let trimmed = trim name in
    if is_empty trimmed
    then codes "Name: " ++ base
    else codes "Name: " ++ base ++ codes " - " ++ trimmed

abbrev pub text_or_empty : Option Text → Text
text_or_empty none = []
text_or_empty (some s) = s
