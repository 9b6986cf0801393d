-- ===== src/Client/Amounts.antt =====
-- The two texts of an amount: `lamports_to_sol` of crates/tui/src/app.rs and `format_sol_amount` of
-- programs/hardig/src/instructions/mod.rs.
use hardig.Base.{
  ℕ, zero, suc, ◌+◌, ◌/◌, ◌%◌, ◌<◌, ◌^◌, ◌≡◌, refl, sym, ap, ◌∙◌, arith, Bool, true, false, inl,
  inr, [], ◌∷◌, ◌++◌, ltb, leb, ◌&&◌, ◌==◌, if◌then◌else◌, Bool-cases, ==→eq,
}
use native.Mathlib.Nat.{pow-suc}
use hardig.Runtime.{Text, codes}
use hardig.Decimal.{padded, decimal, u64_text}
use hardig.Format.{trim_end_zeros, format_sol_amount}
use hardig.Client.Texts.{trim_end_matches, lamports_to_sol}

trim_end_matches-zero : (s : Text) → trim_end_matches b'0' s ≡ trim_end_zeros s
unfolding trim_end_matches trim_end_zeros
trim_end_matches-zero [] = refl
trim_end_matches-zero (c ∷ s) = rw (trim_end_matches, trim_end_zeros, trim_end_matches-zero s) refl

-- Trimming reaches into the front only where nothing is left of the back.
trim-append_kept :
    (c : ℕ) (s t : Text) (d : ℕ) (r : Text)
    → trim_end_matches c t ≡ d ∷ r
    → trim_end_matches c (s ++ t) ≡ s ++ d ∷ r
unfolding trim_end_matches
trim-append_kept c [] t d r h = h
trim-append_kept c (x ∷ []) t d r h = rw (trim_end_matches, trim-append_kept c [] t d r h) refl
trim-append_kept c (x ∷ y ∷ s) t d r h =
    rw (trim_end_matches, trim-append_kept c (y ∷ s) t d r h) refl

trim-append_gone :
    (c : ℕ) (s t : Text)
    → trim_end_matches c t ≡ []
    → trim_end_matches c (s ++ t) ≡ trim_end_matches c s
unfolding trim_end_matches
trim-append_gone c [] t h = h
trim-append_gone c (x ∷ s) t h = rw (trim_end_matches, trim-append_gone c s t h) refl

-- Every character is a digit, or at least none that comes before them.
from_zero : Text → Bool
from_zero [] = true
from_zero (c ∷ s) = leb b'0' c && from_zero s

from_zero-append :
    (s t : Text) → from_zero s ≡ true → from_zero t ≡ true → from_zero (s ++ t) ≡ true
unfolding from_zero
from_zero-append [] t h k = k
from_zero-append (c ∷ s) t h k = ground (arith, h, k, from_zero-append s t)

from_zero-padded : (n x : ℕ) → from_zero (padded n x) ≡ true
unfolding from_zero padded
from_zero-padded zero x = refl
from_zero-padded (suc n) x =
    from_zero-append (padded n (x / 10)) ((b'0' + x % 10) ∷ []) (from_zero-padded n (x / 10))
      (ground arith)

from_zero-decimal : (n x : ℕ) → from_zero (decimal n x) ≡ true
unfolding from_zero decimal
from_zero-decimal zero x = refl
from_zero-decimal (suc n) x = elim (Bool-cases (ltb x 10)) [
  | inl small ↦ rw (decimal, small) (ground arith)
  | inr large ↦
      rw (decimal, large)
        (from_zero-append (decimal n (x / 10)) ((b'0' + x % 10) ∷ []) (from_zero-decimal n (x / 10))
          (ground arith))
]

-- There is no point to trim behind digits.
trim-point : (s : Text) → from_zero s ≡ true → trim_end_matches b'.' s ≡ s
unfolding from_zero trim_end_matches
trim-point [] h = refl
trim-point (c ∷ []) h = ground (arith, h)
trim-point (c ∷ d ∷ s) h = rw (trim_end_matches, trim-point (d ∷ s) (ground (arith, h))) refl

from_zero-trim : (c : ℕ) (s : Text) → from_zero s ≡ true → from_zero (trim_end_matches c s) ≡ true
unfolding from_zero trim_end_matches
from_zero-trim c [] h = refl
from_zero-trim c (d ∷ s) h = step (trim_end_matches c s) (from_zero-trim c s (ground (arith, h)))
  where
    step :
        (rest : Text)
        → from_zero rest ≡ true
        → from_zero
            (elim rest as (λ _. Text) [ [] ↦ if d == c then [] else d ∷ [] | e ∷ t ↦ d ∷ e ∷ t ])
          ≡ true
    step [] k = ground (arith, h)
    step (e ∷ t) k = ground (arith, h, k)

append-ne : (s : Text) (d : ℕ) (r : Text) → ¬ (s ++ d ∷ r ≡ [])
append-ne [] d r h = cc
append-ne (c ∷ s) d r h = cc

last_gone : (k : ℕ) → (k == 0) ≡ true → trim_end_matches b'0' ((b'0' + k) ∷ []) ≡ []
unfolding trim_end_matches
last_gone k h = ground (arith, h)

last_kept : (k : ℕ) → (k == 0) ≡ false → trim_end_matches b'0' ((b'0' + k) ∷ []) ≡ (b'0' + k) ∷ []
unfolding trim_end_matches
last_kept k h = ground (arith, h)

-- Digits that are all zeros spell zero.
padded-trimmed : (n x : ℕ) → x < 10 ^ n → trim_end_matches b'0' (padded n x) ≡ [] → x ≡ 0
unfolding padded
padded-trimmed zero x h e = omega arith
padded-trimmed (suc n) x h e =
    let bound = pow-suc 10 n in
    elim (Bool-cases (x % 10 == 0)) [
      | inl round ↦
          (let last : trim_end_matches b'0' ((b'0' + x % 10) ∷ []) ≡ [] =
              last_gone (x % 10) round in
            let front =
              padded-trimmed n (x / 10) (omega (arith, h, bound))
                (sym (trim-append_gone b'0' (padded n (x / 10)) ((b'0' + x % 10) ∷ []) last) ∙ e) in
            let r = ==→eq (x % 10) 0 round in omega (arith, front, r))
      | inr odd ↦ absurd (
          append-ne (padded n (x / 10)) (b'0' + x % 10) [] (
            sym (
              trim-append_kept b'0' (padded n (x / 10)) ((b'0' + x % 10) ∷ []) (b'0' + x % 10) []
                (last_kept (x % 10) odd))
            ∙ e))
    ]

-- A number with a fraction: the zeros behind its last digit go, and the point stays.
with_fraction :
    (w : Text) (frac d : ℕ) (r : Text)
    → trim_end_matches b'0' (padded 9 frac) ≡ d ∷ r
    → trim_end_matches b'.' (trim_end_matches b'0' (w ++ codes "." ++ padded 9 frac))
      ≡ w ++ codes "." ++ (d ∷ r)
with_fraction w frac d r h =
    let digits =
      ap from_zero (sym h) ∙ from_zero-trim b'0' (padded 9 frac) (from_zero-padded 9 frac) in
    ap (trim_end_matches b'.') (trim-append_kept b'0' (w ++ codes ".") (padded 9 frac) d r h)
    ∙ trim-append_kept b'.' (w ++ codes ".") (d ∷ r) d r (trim-point (d ∷ r) digits)

-- A whole number: the zeros and the point go.
without_fraction :
    (w : Text)
    → from_zero w ≡ true
    → trim_end_matches b'.' (trim_end_matches b'0' (w ++ codes "." ++ padded 9 0)) ≡ w
unfolding padded trim_end_matches
without_fraction w digits =
    ap (trim_end_matches b'.') (
      trim-append_gone b'0' (w ++ codes ".") (padded 9 0) refl
      ∙ trim-append_kept b'0' w (codes ".") b'.' [] refl)
    ∙ trim-append_gone b'.' w (codes ".") refl
    ∙ trim-point w digits

-- The decimals of an amount that is not whole are not all zeros.
fraction_shown :
    (w : Text) (frac : ℕ)
    → frac < 10 ^ 9
    → (frac == 0) ≡ false
    → trim_end_matches b'.' (trim_end_matches b'0' (w ++ codes "." ++ padded 9 frac))
      ≡ w ++ codes "." ++ trim_end_zeros (padded 9 frac)
fraction_shown w frac small odd = trimmed (trim_end_matches b'0' (padded 9 frac)) refl
  where
    trimmed :
        (r : Text)
        → trim_end_matches b'0' (padded 9 frac) ≡ r
        → trim_end_matches b'.' (trim_end_matches b'0' (w ++ codes "." ++ padded 9 frac))
          ≡ w ++ codes "." ++ trim_end_zeros (padded 9 frac)
    trimmed [] h = let z = padded-trimmed 9 frac small h in ground (arith, z, odd)
    trimmed (d ∷ r) h =
        with_fraction w frac d r h
        ∙ ap (λ s. w ++ codes "." ++ s) (sym h ∙ trim_end_matches-zero (padded 9 frac))

-- The client and the program write every amount the same way: the text that the client shows, with
-- nine decimals whose zeros and then whose point are trimmed, is the text that the program puts in
-- a key's attributes.
pub lamports_to_sol_agrees : (n : ℕ) → lamports_to_sol n ≡ format_sol_amount n
unfolding lamports_to_sol format_sol_amount u64_text
lamports_to_sol_agrees n = elim (Bool-cases (n == 0)) [
  | inl nothing ↦
      (ap lamports_to_sol (==→eq n 0 nothing) ∙ sym (ap format_sol_amount (==→eq n 0 nothing)))
  | inr some_left ↦ elim (Bool-cases (n % 1_000_000_000 == 0)) [
    | inl round ↦
        rw (some_left, round, ==→eq (n % 1_000_000_000) 0 round)
          (without_fraction (u64_text (n / 1_000_000_000))
            (from_zero-decimal 20 (n / 1_000_000_000)))
    | inr odd ↦
        rw (some_left, odd)
          (fraction_shown (u64_text (n / 1_000_000_000)) (n % 1_000_000_000) (omega arith) odd)
  ]
]
