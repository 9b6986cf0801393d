-- ===== src/Client/Texts.antt =====
-- The texts of the terminal client: what `str` does that crates/tui/src/app.rs uses, and the
-- helpers at the end of that file.
use hardig.Base.{
  ℕ, ◌+◌, ◌-◌, ◌*◌, ◌/◌, ◌%◌, Bool, true, false, ◌&&◌, ◌||◌, Option, none, some, List, [], ◌∷◌,
  ◌++◌, length, take, drop, max, ltb, leb, ◌==◌, if◌then◌else◌, u64_mod,
}
use hardig.Runtime.{Runtime, Pubkey, Text, codes}
use hardig.State.{
  perm_buy, perm_sell, perm_borrow, perm_repay, perm_reinvest, perm_manage_keys, perm_limited_sell,
  perm_limited_borrow, preset_admin,
}
use hardig.Decimal.{padded, u64_text}
use hardig.Permissions.{has_any}
use hardig.Format.{join}

-- `char::is_whitespace`: the property White_Space.
unfoldable pub is_whitespace : ℕ → Bool
is_whitespace c =
    (leb 9 c && leb c 13)
    || c == 0x20
    || c == 0x85
    || c == 0xa0
    || c == 0x1680
    || (leb 0x2000 c && leb c 0x200a)
    || c == 0x2028
    || c == 0x2029
    || c == 0x202f
    || c == 0x205f
    || c == 0x3000

-- `str::trim`
unfoldable pub trim_start : Text → Text
trim_start [] = []
trim_start (c ∷ s) = if is_whitespace c then trim_start s else c ∷ s

unfoldable pub trim_end : Text → Text
trim_end [] = []
trim_end (c ∷ s) = elim (trim_end s) [
  | [] ↦ if is_whitespace c then [] else c ∷ []
  | d ∷ t ↦ c ∷ d ∷ t
]

unfoldable pub trim : Text → Text
unfolding trim_start trim_end is_whitespace
trim s = trim_end (trim_start s)

-- `str::is_empty` and `Vec::is_empty`
abbrev pub is_empty {ℓ} : {A : Type ℓ} → List A → Bool
is_empty [] = true
is_empty (_ ∷ _) = false

-- `label.starts_with(prefix)`
unfoldable pub starts_with : Text → Text → Bool
starts_with [] s = true
starts_with (_ ∷ _) [] = false
starts_with (p ∷ ps) (c ∷ s) = p == c && starts_with ps s

unfoldable pub parse_digits_below : ℕ → Text → ℕ → Option ℕ
parse_digits_below m [] acc = some acc
parse_digits_below m (c ∷ s) acc =
    let next = acc * 10 + (c - b'0') in
    let rest = parse_digits_below m s next in
    if leb b'0' c && leb c b'9' && ltb next m then rest else none

-- `str::parse` of the unsigned type whose values are below `m`.
unfoldable pub parse_unsigned : ℕ → Text → Option ℕ
unfolding parse_digits_below
parse_unsigned m [] = none
parse_unsigned m (c ∷ []) = parse_digits_below m (c ∷ []) 0
parse_unsigned m (c ∷ d ∷ s) =
    if c == b'+' then parse_digits_below m (d ∷ s) 0 else parse_digits_below m (c ∷ d ∷ s) 0

-- `s.trim_end_matches(c)`
unfoldable pub trim_end_matches : ℕ → Text → Text
trim_end_matches c [] = []
trim_end_matches c (d ∷ s) = elim (trim_end_matches c s) [
  | [] ↦ if d == c then [] else d ∷ []
  | e ∷ t ↦ d ∷ e ∷ t
]

unfoldable pub lamports_to_sol : ℕ → Text
unfolding padded trim_end_matches
lamports_to_sol lamports =
    let whole = lamports / 1_000_000_000 in
    let frac = lamports % 1_000_000_000 in
    if lamports == 0
    then codes "0"
    else trim_end_matches b'.'
        (trim_end_matches b'0' (u64_text whole ++ codes "." ++ padded 9 frac))

unfoldable pub format_delta : ℕ → ℕ → Text
unfolding lamports_to_sol
format_delta before after =
    if ltb before after
    then codes "+" ++ lamports_to_sol (after - before)
    else if ltb after before
    then codes "-" ++ lamports_to_sol (before - after)
    else codes "0"

-- The table of `permissions_name`
abbrev pub permission_names : List (ℕ × Text)
permission_names =
    (perm_buy, codes "Buy")
    ∷ (perm_sell, codes "Sell")
    ∷ (perm_borrow, codes "Borrow")
    ∷ (perm_repay, codes "Repay")
    ∷ (perm_reinvest, codes "Reinvest")
    ∷ (perm_manage_keys, codes "ManageKeys")
    ∷ (perm_limited_sell, codes "LimSell")
    ∷ (perm_limited_borrow, codes "LimBorrow")
    ∷ []

unfoldable pub names_of : ℕ → List (ℕ × Text) → List Text
names_of permissions [] = []
names_of permissions ((bit, name) ∷ bits) =
    let rest = names_of permissions bits in if has_any permissions bit then name ∷ rest else rest

unfoldable pub permissions_name : ℕ → Text
unfolding names_of
permissions_name permissions =
    let names = names_of permissions permission_names in
    if permissions == preset_admin
    then codes "Admin"
    else if permissions == 0
    then codes "None"
    else if is_empty names
    then codes "None"
    else join (codes ", ") names

unfoldable pub format_grace_period : ℕ → ℕ → ℕ → Text
format_grace_period days hours minutes =
    let parts =
      (if ltb 0 days then (u64_text days ++ codes "d") ∷ [] else [])
      ++ (if ltb 0 hours then (u64_text hours ++ codes "h") ∷ [] else [])
      ++ (if ltb 0 minutes then (u64_text minutes ++ codes "m") ∷ [] else []) in
    if is_empty parts then codes "0" else join (codes " ") parts

-- The text of a key is ASCII, so its bytes are its code points.
unfoldable pub short_pubkey : Runtime → Pubkey → Text
short_pubkey rt pubkey =
    let s = rt.key_text pubkey in
    if ltb 12 (length s) then take 4 s ++ codes ".." ++ drop (length s - 4) s else s

abbrev pub slots_per_minute : ℕ
slots_per_minute = 150

abbrev pub slots_per_hour : ℕ
slots_per_hour = 9_000

abbrev pub slots_per_day : ℕ
slots_per_day = 216_000

-- The release profile has overflow checks, so a product past 64 bits panics: `none`.
unfoldable pub slots_to_human : ℕ → Option Text
slots_to_human slots =
    let total_secs = slots * 400 / 1000 in
    if slots == 0
    then some (codes "~0s")
    else if leb u64_mod (slots * 400)
    then none
    else if ltb slots 150
    then some (codes "~" ++ u64_text total_secs ++ codes "s")
    else if ltb slots 9_000
    then some (codes "~" ++ u64_text (max (total_secs / 60) 1) ++ codes "m")
    else if ltb slots 216_000
    then some (codes "~" ++ u64_text (max (total_secs / 3600) 1) ++ codes "h")
    else some (codes "~" ++ u64_text (max (total_secs / 86400) 1) ++ codes "d")

-- `value.as_ref().and_then(|v| v.trim().parse().ok()).unwrap_or(0)`
unfoldable pub number_or_zero : Option Text → ℕ
unfolding trim parse_unsigned
number_or_zero none = 0
number_or_zero (some v) = elim (parse_unsigned u64_mod (trim v)) [ none ↦ 0 | some n ↦ n ]

-- The sum panics past 64 bits: `none`.
unfoldable pub time_fields_to_slots : Option Text → Option Text → Option Text → Option ℕ
unfolding number_or_zero
time_fields_to_slots days hours minutes =
    let total =
      number_or_zero days * slots_per_day
      + number_or_zero hours * slots_per_hour
      + number_or_zero minutes * slots_per_minute in
    if ltb total u64_mod then some total else none

abbrev pub upper_hex : ℕ → ℕ
upper_hex d = if ltb d 10 then b'0' + d else b'A' + (d - 10)

-- `(0x{:02X})` of a byte
abbrev pub hex_byte : ℕ → Text
hex_byte b = codes " (0x" ++ upper_hex (b / 16) ∷ upper_hex (b % 16) ∷ codes ")"
