-- ===== src/Decimal.antt =====
-- Decimal text of unsigned integers, as the source's `to_string`, `{:09}` and `parse::<u8>` write
-- and read it. A text is a list of code points.
use hardig.Base.{
  ℕ, zero, suc, ◌+◌, ◌-◌, ◌*◌, ◌/◌, ◌%◌, ◌<◌, ◌≡◌, refl, arith, Bool, true, false, ◌&&◌, Option,
  none, some, [], ◌∷◌, ◌++◌, ltb, leb, ◌==◌, if◌then◌else◌, ==→eq, ap,
}
use hardig.Runtime.{Text}

-- The last `n` decimal digits of `x`, most significant first: `{:0n}` of a number below 10 ^ n.
unfoldable pub padded : ℕ → ℕ → Text
padded zero x = []
padded (suc n) x = padded n (x / 10) ++ (b'0' + x % 10) ∷ []

-- Without leading zeros; the fuel is the number of digits at most.
unfoldable pub decimal : ℕ → ℕ → Text
decimal zero x = []
decimal (suc n) x =
    let rest = decimal n (x / 10) in
    if ltb x 10 then (b'0' + x) ∷ [] else rest ++ (b'0' + x % 10) ∷ []

-- `u8::to_string` and `u64::to_string`; a number below 2 ^ 64 has at most 20 digits.
unfoldable pub u8_text : ℕ → Text
unfolding decimal
u8_text = decimal 3

unfoldable pub u64_text : ℕ → Text
unfolding decimal
u64_text = decimal 20

is_digit : ℕ → Bool
is_digit c = leb b'0' c && leb c b'9'

parse_digits : Text → ℕ → Option ℕ
parse_digits [] acc = some acc
parse_digits (c ∷ s) acc =
    let next = acc * 10 + (c - b'0') in
    let rest = parse_digits s next in if is_digit c && ltb next 256 then rest else none

-- `str::parse::<u8>`: one `+` may stand in front; no digit, or a value above 255, is an error.
unfoldable pub parse_u8 : Text → Option ℕ
unfolding parse_digits is_digit
parse_u8 [] = none
parse_u8 (c ∷ []) = parse_digits (c ∷ []) 0
parse_u8 (c ∷ d ∷ s) = if c == b'+' then parse_digits (d ∷ s) 0 else parse_digits (c ∷ d ∷ s) 0

-- Over a small range, check every value by evaluation.
unfoldable pub all_below : ℕ → (ℕ → Bool) → Bool
all_below (suc bound) test = all_below bound test && test bound
all_below zero test = true

pub all_below_sound :
    (bound : ℕ) (test : ℕ → Bool) (x : ℕ) → all_below bound test ≡ true → x < bound → test x ≡ true
unfolding all_below
all_below_sound (suc bound) test x every small = ground (arith, all_below_sound bound test x)
all_below_sound zero test x every small = absurd (omega arith)

is_some_of : ℕ → Option ℕ → Bool
is_some_of x none = false
is_some_of x (some y) = y == x

eq_of_is_some_of : (x : ℕ) (o : Option ℕ) → is_some_of x o ≡ true → o ≡ some x
unfolding is_some_of
eq_of_is_some_of x none h = cc
eq_of_is_some_of x (some y) h = ap some (==→eq y x h)

byte_table : all_below 256 (λ x. is_some_of x (parse_u8 (u8_text x))) ≡ true
unfolding all_below parse_u8 u8_text is_some_of
byte_table = refl

-- Every byte is read back from its text.
pub parse_u8-u8_text : (x : ℕ) → x < 256 → parse_u8 (u8_text x) ≡ some x
parse_u8-u8_text x h = eq_of_is_some_of x _ (all_below_sound 256 _ x byte_table h)

parse_digits-lt : (s : Text) (acc x : ℕ) → acc < 256 → parse_digits s acc ≡ some x → x < 256
unfolding parse_digits
parse_digits-lt [] acc x a h = ground arith
parse_digits-lt (c ∷ s) acc x a h = ground (arith, parse_digits-lt s (acc * 10 + (c - b'0')) x)

-- What is read fits a byte.
pub parse_u8-lt : (s : Text) (x : ℕ) → parse_u8 s ≡ some x → x < 256
unfolding parse_u8
parse_u8-lt [] x h = cc
parse_u8-lt (c ∷ []) x h = parse_digits-lt (c ∷ []) 0 x (omega arith) h
parse_u8-lt (c ∷ d ∷ s) x h =
    ground (arith, parse_digits-lt (d ∷ s) 0 x, parse_digits-lt (c ∷ d ∷ s) 0 x)
