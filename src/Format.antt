-- ===== src/Format.antt =====
-- The texts that go into the metadata of a key: durations, amounts, escaped text and the inline
-- document, of programs/hardig/src/instructions/mod.rs.
pub mod Json
use hardig.Base.{
  ℕ, ◌+◌, ◌-◌, ◌/◌, ◌%◌, Bool, ◌&&◌, ◌||◌, Option, none, some, List, [], ◌∷◌, ◌++◌, max, ltb, leb,
  ◌==◌, if◌then◌else◌, checked_mul, u64_mod,
}
use hardig.Error.{Result, ok, ◌>>=◌, or_panic}
use hardig.Runtime.{Text, Attribute, codes}
use hardig.Decimal.{padded, u8_text, u64_text}
use hardig.Permissions.{has_any}
use hardig.State.{perm_buy, perm_sell, perm_borrow, perm_repay, perm_reinvest, perm_manage_keys}

-- `parts.join(separator)`
unfoldable pub join : Text → List Text → Text
join separator [] = []
join separator (p ∷ []) = p
join separator (p ∷ q ∷ parts) = p ++ separator ++ join separator (q ∷ parts)

-- `1 unit`, `n units`
unfoldable pub counted : ℕ → Text → Text
counted n unit = if n == 1 then codes "1 " ++ unit else u64_text n ++ codes " " ++ unit ++ codes "s"

-- The multiplication is unchecked, and so panics past 64 bits.
unfoldable pub slots_to_duration : ℕ → Result Text
unfolding counted join
slots_to_duration slots = do
  millis ← or_panic (checked_mul u64_mod slots 400)
  let total_secs = millis / 1000
  let days = total_secs / 86400
  let hours = total_secs % 86400 / 3600
  let minutes = total_secs % 3600 / 60
  let parts =
      (if ltb 0 days then counted days (codes "day") ∷ [] else [])
      ++ (if ltb 0 hours then counted hours (codes "hour") ∷ [] else [])
  let parts' =
      if days == 0 && hours == 0 then counted (max minutes 1) (codes "minute") ∷ [] else parts
  ok (join (codes ", ") parts')

-- `trim_end_matches('0')`
unfoldable pub trim_end_zeros : Text → Text
trim_end_zeros [] = []
trim_end_zeros (c ∷ s) = elim (trim_end_zeros s) [
  | [] ↦ if c == b'0' then [] else c ∷ []
  | d ∷ t ↦ c ∷ d ∷ t
]

unfoldable pub format_sol_amount : ℕ → Text
unfolding trim_end_zeros padded
format_sol_amount raw =
    let whole = raw / 1_000_000_000 in
    let frac = raw % 1_000_000_000 in
    if frac == 0
    then u64_text whole
    else u64_text whole ++ codes "." ++ trim_end_zeros (padded 9 frac)

abbrev pub hex_digit : ℕ → ℕ
hex_digit d = if ltb d 10 then b'0' + d else b'a' + (d - 10)

-- `char::is_control`: the code points of category Cc.
abbrev pub is_control : ℕ → Bool
is_control c = ltb c 0x20 || (leb 0x7f c && ltb c 0xa0)

-- `{:04x}` of a control character, which is below 0x100.
unfoldable pub escape_char : ℕ → Text
escape_char c =
    if c == b'"'
    then b'\\' ∷ b'"' ∷ []
    else if c == b'\\'
    then b'\\' ∷ b'\\' ∷ []
    else if c == b'\n'
    then b'\\' ∷ b'n' ∷ []
    else if c == b'\r'
    then b'\\' ∷ b'r' ∷ []
    else if c == b'\t'
    then b'\\' ∷ b't' ∷ []
    else if is_control c
    then b'\\' ∷ b'u' ∷ b'0' ∷ b'0' ∷ hex_digit (c / 16) ∷ hex_digit (c % 16) ∷ []
    else c ∷ []

unfoldable pub json_escape : Text → Text
json_escape [] = []
json_escape (c ∷ s) = escape_char c ++ json_escape s

unfoldable pub flag : ℕ → ℕ → Text
flag permissions bit = if has_any permissions bit then codes "true" else codes "false"

abbrev pub attribute : Text → Text → Attribute
attribute k v = record { key = k; value = v }

unfoldable pub permission_attributes : ℕ → List Attribute
unfolding flag
permission_attributes permissions =
    attribute (codes "permissions") (u8_text permissions)
    ∷ attribute (codes "buy") (flag permissions perm_buy)
    ∷ attribute (codes "sell") (flag permissions perm_sell)
    ∷ attribute (codes "borrow") (flag permissions perm_borrow)
    ∷ attribute (codes "repay") (flag permissions perm_repay)
    ∷ attribute (codes "reinvest") (flag permissions perm_reinvest)
    ∷ attribute (codes "manage_keys") (flag permissions perm_manage_keys)
    ∷ []

abbrev pub key_image : Text
key_image = codes "https://gateway.irys.xyz/GKa2AyPSRe2VnsPXBepTzhzohEBsLNdxFctR1MFoYojK"

-- `{"trait_type":"label","value":"v"}`
abbrev pub trait_entry : Text → Text → Text
trait_entry label v =
    codes "{\"trait_type\":\"" ++ label ++ codes "\",\"value\":\"" ++ v ++ codes "\"}"

unfoldable pub permission_traits : ℕ → List (ℕ × Text) → List Text
unfolding json_escape escape_char
permission_traits permissions [] = []
permission_traits permissions ((bit, label) ∷ bits) =
    let rest = permission_traits permissions bits in
    if has_any permissions bit then trait_entry (json_escape label) (codes "true") ∷ rest else rest

unfoldable pub optional_trait : Text → Option Text → List Text
unfolding json_escape escape_char
optional_trait label none = []
optional_trait label (some v) = trait_entry label (json_escape v) ∷ []

abbrev pub unwrap_or {ℓ} : {A : Type ℓ} → Option A → A → A
unwrap_or none d = d
unwrap_or (some a) d = a

unfoldable pub metadata_uri :
    Text → ℕ → Option Text → Option Text → Option Text → Option Text → Option Text → Text
unfolding json_escape escape_char join permission_traits optional_trait
metadata_uri name permissions limited_sell limited_borrow market position_name image_override =
    let attrs =
      permission_traits permissions (
        (perm_buy, codes "buy")
        ∷ (perm_sell, codes "sell")
        ∷ (perm_borrow, codes "borrow")
        ∷ (perm_repay, codes "repay")
        ∷ (perm_reinvest, codes "reinvest")
        ∷ (perm_manage_keys, codes "manage_keys")
        ∷ [])
      ++ optional_trait (codes "limited_sell") limited_sell
      ++ optional_trait (codes "limited_borrow") limited_borrow
      ++ optional_trait (codes "market") market
      ++ optional_trait (codes "position_name") position_name in
    codes "data:application/json,{\"name\":\""
    ++ json_escape name
    ++ codes
        "\",\"symbol\":\"HKEY\",\"description\":\"Permission key for managing a H\\u00e4rdig position.\",\"image\":\""
    ++ json_escape (unwrap_or image_override key_image)
    ++ codes "\",\"attributes\":["
    ++ join (codes ",") attrs
    ++ codes "]}"
