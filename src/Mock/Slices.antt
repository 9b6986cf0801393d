-- ===== src/Mock/Slices.antt =====
-- Reading and writing eight bytes of a list, as test-programs/mock-mayflower/src/lib.rs does.
use mathlib.Core.List.{append_assoc}
use hardig.Base.{
  ℕ, zero, suc, ◌+◌, ◌<◌, ◌≤◌, ◌^◌, ◌≡◌, refl, sym, ap, ◌∙◌, arith, List, [], ◌∷◌, ◌++◌, length,
  take, drop, take-append, drop-append, length-append, length-take, length-drop, from_le_bytes,
  to_le_bytes, length-to_le_bytes, from_le_bytes-to_le_bytes,
}
use hardig.Mock.{write_u64}

take-take_append :
    (k o : ℕ) (d ys : List ℕ) → k ≤ o → o ≤ length d → take k (take o d ++ ys) ≡ take k d
take-take_append zero o d ys h l = refl
take-take_append (suc k) zero d ys h l = absurd (omega arith)
take-take_append (suc k) (suc o) [] ys h l = absurd (omega arith)
take-take_append (suc k) (suc o) (x ∷ d) ys h l =
    ap (λ t. x ∷ t) (take-take_append k o d ys (omega arith) (omega arith))

-- A range in front of the place that is written.
pub slice_before :
    (i k o : ℕ) (d ys : List ℕ)
    → i + k ≤ o
    → o ≤ length d
    → take k (drop i (take o d ++ ys)) ≡ take k (drop i d)
slice_before zero k o d ys h l = take-take_append k o d ys (omega arith) l
slice_before (suc i) k zero d ys h l = absurd (omega arith)
slice_before (suc i) k (suc o) [] ys h l = absurd (omega arith)
slice_before (suc i) k (suc o) (x ∷ d) ys h l = slice_before i k o d ys (omega arith) (omega arith)

module _ (o v : ℕ) (d : List ℕ) (fits : o + 8 ≤ length d) where
  length-front : length (take o d) ≡ o
  length-front = let h = length-take o d in omega (arith, h, fits)

  -- The place itself.
  pub slice-write_u64 : take 8 (drop o (write_u64 o v d)) ≡ to_le_bytes 8 v
  unfolding write_u64
  slice-write_u64 =
      ap (take 8) (drop-append (take o d) (to_le_bytes 8 v ++ drop (o + 8) d) o length-front)
      ∙ take-append (to_le_bytes 8 v) (drop (o + 8) d) 8 (length-to_le_bytes 8 v)

  -- What follows it.
  pub drop-write_u64 : drop (o + 8) (write_u64 o v d) ≡ drop (o + 8) d
  unfolding write_u64
  drop-write_u64 =
      let front = length-front in
      let eight = length-to_le_bytes 8 v in
      let both = length-append (take o d) (to_le_bytes 8 v) in
      ap (drop (o + 8)) (sym (append_assoc (take o d) (to_le_bytes 8 v) (drop (o + 8) d)))
      ∙ drop-append (take o d ++ to_le_bytes 8 v) (drop (o + 8) d) (o + 8)
          (omega (arith, front, eight, both))

  pub length-write_u64 : length (write_u64 o v d) ≡ length d
  unfolding write_u64
  length-write_u64 =
      let front = length-front in
      let eight = length-to_le_bytes 8 v in
      let tail = length-drop (o + 8) d in
      let l₁ = length-append (take o d) (to_le_bytes 8 v ++ drop (o + 8) d) in
      let l₂ = length-append (to_le_bytes 8 v) (drop (o + 8) d) in
      omega (arith, front, eight, tail, l₁, l₂, fits)

  -- The number that was written is read back.
  pub read-write_u64 : v < 2 ^ 64 → from_le_bytes (take 8 (drop o (write_u64 o v d))) ≡ v
  read-write_u64 h = ap from_le_bytes slice-write_u64 ∙ from_le_bytes-to_le_bytes 8 v (omega arith)
