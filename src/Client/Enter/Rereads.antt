-- ===== src/Client/Enter/Rereads.antt =====
-- The numbers that the form of the recovery settings shows, and what the builder reads of them, both
-- in crates/tui/src/app.rs.
use hardig.Base.{
  ℕ, zero, suc, ◌+◌, ◌-◌, ◌*◌, ◌/◌, ◌%◌, ◌<◌, ◌≤◌, ◌^◌, ◌≡◌, refl, ap, ◌∙◌, arith, Bool, true,
  false, ◌&&◌, ◌||◌, Option, none, some, [], ◌∷◌, ◌++◌, ltb, leb, ◌==◌, if◌then◌else◌, Bool-cases,
  inl, inr, u64_mod, pos,
}
use native.Mathlib.Nat.{pow-suc}
use hardig.Runtime.{Runtime, Text, default_key}
use hardig.State.{PositionState}
use hardig.Decimal.{decimal, u64_text}
use hardig.Client.{App}
use hardig.Client.Texts.{
  parse_digits_below, parse_unsigned, trim, trim_start, trim_end, is_whitespace, number_or_zero,
}
use hardig.Client.Chain.{Rpc}
use hardig.Client.Attempt.{built, ◌>>=◌, field_value}
use hardig.Client.Build.Recovery.{grace_seconds, form_number}
use hardig.Client.Enter.{enter_configure_recovery, signed_part}

abbrev digit : ℕ → Bool
digit c = leb b'0' c && leb c b'9'

all_digits : Text → Bool
all_digits [] = true
all_digits (c ∷ s) = digit c && all_digits s

all_digits-append :
    (s t : Text) → all_digits s ≡ true → all_digits t ≡ true → all_digits (s ++ t) ≡ true
unfolding all_digits
all_digits-append [] t h k = k
all_digits-append (c ∷ s) t h k = ground (arith, h, k, all_digits-append s t)

all_digits-decimal : (n x : ℕ) → all_digits (decimal n x) ≡ true
unfolding all_digits decimal
all_digits-decimal zero x = refl
all_digits-decimal (suc n) x = elim (Bool-cases (ltb x 10)) [
  | inl small ↦ rw (decimal, small) (ground arith)
  | inr large ↦
      rw (decimal, large)
        (all_digits-append (decimal n (x / 10)) ((b'0' + x % 10) ∷ [])
          (all_digits-decimal n (x / 10)) (ground arith))
]

-- A digit is no white space.
digit-not_whitespace : (c : ℕ) → digit c ≡ true → is_whitespace c ≡ false
unfolding is_whitespace
digit-not_whitespace c h = ground (arith, h)

trim_start-digits : (s : Text) → all_digits s ≡ true → trim_start s ≡ s
unfolding all_digits trim_start
trim_start-digits [] h = refl
trim_start-digits (c ∷ s) h =
    let d : digit c ≡ true = ground (arith, h) in rw (trim_start, digit-not_whitespace c d) refl

trim_end-digits : (s : Text) → all_digits s ≡ true → trim_end s ≡ s
unfolding all_digits trim_end
trim_end-digits [] h = refl
trim_end-digits (c ∷ []) h =
    let d : digit c ≡ true = ground (arith, h) in rw (trim_end, digit-not_whitespace c d) refl
trim_end-digits (c ∷ d ∷ s) h = rw (trim_end, trim_end-digits (d ∷ s) (ground (arith, h))) refl

digit_taken :
    (m acc d : ℕ)
    → d < 10
    → acc * 10 + d < m
    → (leb b'0' (b'0' + d) && leb (b'0' + d) b'9' && ltb (acc * 10 + (b'0' + d - b'0')) m) ≡ true
digit_taken m acc d small bound = ground arith

parse-last :
    (m acc d : ℕ)
    → d < 10
    → acc * 10 + d < m
    → parse_digits_below m ((b'0' + d) ∷ []) acc ≡ some (acc * 10 + d)
unfolding parse_digits_below
parse-last m acc d small bound =
    rw (parse_digits_below, digit_taken m acc d small bound) (ap some (omega arith))

parse-append :
    (m : ℕ) (s : Text) (acc a d : ℕ)
    → parse_digits_below m s acc ≡ some a
    → d < 10
    → a * 10 + d < m
    → parse_digits_below m (s ++ (b'0' + d) ∷ []) acc ≡ some (a * 10 + d)
unfolding parse_digits_below
parse-append m [] acc a d h small bound =
    let e : acc ≡ a = cc in
    ap (parse_digits_below m ((b'0' + d) ∷ [])) e ∙ parse-last m a d small bound
parse-append m (c ∷ s) acc a d h small bound =
    more (λ k. parse-append m s (acc * 10 + (c - b'0')) a d k small bound)
      (leb b'0' c && leb c b'9' && ltb (acc * 10 + (c - b'0')) m) h
  where
    more :
        (parse_digits_below m s (acc * 10 + (c - b'0')) ≡ some a
          → parse_digits_below m (s ++ (b'0' + d) ∷ []) (acc * 10 + (c - b'0')) ≡ some (a * 10 + d))
        → (test : Bool)
        → (if test then parse_digits_below m s (acc * 10 + (c - b'0')) else none) ≡ some a
        → (if test
            then parse_digits_below m (s ++ (b'0' + d) ∷ []) (acc * 10 + (c - b'0'))
            else none)
          ≡ some (a * 10 + d)
    more ih true k = ih k
    more ih false k = cc

parse-decimal : (m n x : ℕ) → x < 10 ^ n → x < m → parse_digits_below m (decimal n x) 0 ≡ some x
unfolding decimal parse_digits_below
parse-decimal m zero x h bound = ap some (omega arith)
parse-decimal m (suc n) x h bound =
    let p = pow-suc 10 n in
    elim (Bool-cases (ltb x 10)) [
      | inl small ↦
          rw (decimal, small)
            (parse-last m 0 x (ground arith) (omega (arith, bound)) ∙ ap some (omega arith))
      | inr large ↦
          rw (decimal, large)
            (parse-append m (decimal n (x / 10)) 0 (x / 10) (x % 10)
                (parse-decimal m n (x / 10) (omega (arith, h, p)) (omega arith)) (omega arith)
                (omega arith)
              ∙ ap some (omega arith))
    ]

unsigned-digits :
    (m : ℕ) (s : Text) (x : ℕ)
    → all_digits s ≡ true
    → ¬ (s ≡ [])
    → parse_digits_below m s 0 ≡ some x
    → parse_unsigned m s ≡ some x
unfolding parse_unsigned all_digits
unsigned-digits m [] x h ne k = absurd (ne refl)
unsigned-digits m (c ∷ []) x h ne k = k
unsigned-digits m (c ∷ d ∷ s) x h ne k =
    let plain : (c == b'+') ≡ false = ground (arith, h) in rw (parse_unsigned, plain) k

append-not_empty : (s : Text) (c : ℕ) → ¬ (s ++ c ∷ [] ≡ [])
append-not_empty [] c = λ h. cc
append-not_empty (d ∷ s) c = λ h. cc

decimal-not_empty : (n x : ℕ) → ¬ (decimal (suc n) x ≡ [])
unfolding decimal
decimal-not_empty n x = elim (Bool-cases (ltb x 10)) [
  | inl small ↦ rw (decimal, small) (λ h. cc)
  | inr large ↦ rw (decimal, large) (append-not_empty (decimal n (x / 10)) (b'0' + x % 10))
]

abbrev value_or_zero : Option ℕ → ℕ
value_or_zero r = elim r [ none ↦ 0 | some n ↦ n ]

-- A number that the client writes, it reads back.
number_or_zero-u64_text : (x : ℕ) → x < u64_mod → number_or_zero (some (u64_text x)) ≡ x
unfolding number_or_zero u64_text trim
number_or_zero-u64_text x h =
    let digits = all_digits-decimal 20 x in
    let kept =
      ap trim_end (trim_start-digits (decimal 20 x) digits)
      ∙ trim_end-digits (decimal 20 x) digits in
    let read =
      unsigned-digits u64_mod (decimal 20 x) x digits (decimal-not_empty 19 x)
        (parse-decimal u64_mod 20 x (omega (arith, h)) h) in
    ap (λ s. value_or_zero (parse_unsigned u64_mod s)) kept ∙ ap value_or_zero read

whole_minutes :
    (n : ℕ) → n / 86400 * 86400 + n % 86400 / 3600 * 3600 + n % 3600 / 60 * 60 ≡ n - n % 60
whole_minutes n = omega arith

grace_of :
    (days hours minutes total : ℕ)
    → days * 86400 + hours * 3600 + minutes * 60 ≡ total
    → 0 < total
    → total < 2 ^ 63
    → grace_seconds days hours minutes ≡ built total
unfolding grace_seconds
grace_of days hours minutes total sum some_time short =
    let fits : ltb total u64_mod ≡ true = ground (arith, short) in
    let positive : (total == 0 || leb (2 ^ 63) total) ≡ false = ground (arith, some_time, short) in
    rw (grace_seconds, sum, fits, positive) refl

-- Let a position have a recovery key and a lockout of at least a minute (below 2 ^ 63 seconds, as its
-- type has it). What the builder reads of the form that shows these settings is the lockout, less the
-- seconds that do not make a minute: editing the settings without a change rounds the lockout down.
pub grace_seconds-enter_configure_recovery :
    (rt : Runtime) (rpc : Rpc) (app : App) (p : PositionState) (n : ℕ)
    → app.position ≡ some p
    → (p.recovery_asset == default_key) ≡ false
    → p.recovery_lockout_secs ≡ pos n
    → 60 ≤ n
    → n < 2 ^ 63
    → (form_number (enter_configure_recovery rt rpc app).form_fields 1 >>= λ days.
        form_number (enter_configure_recovery rt rpc app).form_fields 2 >>= λ hours.
        form_number (enter_configure_recovery rt rpc app).form_fields 3 >>= λ minutes.
        grace_seconds days hours minutes)
      ≡ built (n - n % 60)
unfolding enter_configure_recovery form_number field_value signed_part
grace_seconds-enter_configure_recovery rt rpc app p n loaded has_recovery secs long short =
    rw
      (
        enter_configure_recovery,
        loaded,
        has_recovery,
        secs,
        number_or_zero-u64_text (n / 86400) (omega (arith, short)),
        number_or_zero-u64_text (n % 86400 / 3600) (omega (arith, short)),
        number_or_zero-u64_text (n % 3600 / 60) (omega (arith, short)),
      )
      (grace_of (n / 86400) (n % 86400 / 3600) (n % 3600 / 60) (n - n % 60) (whole_minutes n)
        (omega (arith, long)) (omega (arith, short)))
