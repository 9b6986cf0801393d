-- ===== src/Base/Words.antt =====
-- Unsigned machine integers as native numbers, and their little-endian bytes.
use Prim.Native.Nat.{ℕ, zero, suc, ◌+◌, ◌-◌, ◌*◌, ◌/◌, ◌%◌, ◌^◌, ◌≤◌, ◌<◌}
use mathlib.Core.Path.{◌≡◌, refl}
use mathlib.Core.List.{List, [], ◌∷◌}
use mathlib.Core.Option.{Option, none, some}
use native.Mathlib.Omega.{arith}
use native.Mathlib.Nat.{pow-suc}
use hardig.Base.Tests.{ltb, if◌then◌else◌}
use hardig.Base.Lists.{length}

abbrev pub u32_mod : ℕ
u32_mod = 2 ^ 32

abbrev pub u64_mod : ℕ
u64_mod = 2 ^ 64

abbrev pub u128_mod : ℕ
u128_mod = 2 ^ 128

-- `checked_add` and `checked_mul` of the type whose values are below `m`.
abbrev pub checked_add : ℕ → ℕ → ℕ → Option ℕ
checked_add m a b = if ltb (a + b) m then some (a + b) else none

abbrev pub checked_mul : ℕ → ℕ → ℕ → Option ℕ
checked_mul m a b = if ltb (a * b) m then some (a * b) else none

abbrev pub checked_sub : ℕ → ℕ → Option ℕ
checked_sub a b = if ltb a b then none else some (a - b)

-- `saturating_add` of the type whose values are below `m`; `saturating_sub` is `-` on ℕ.
abbrev pub saturating_add : ℕ → ℕ → ℕ → ℕ
saturating_add m a b = if ltb (a + b) m then a + b else m - 1

-- `uN::from_le_bytes`
unfoldable pub from_le_bytes : List ℕ → ℕ
from_le_bytes [] = 0
from_le_bytes (b ∷ bs) = b + 256 * from_le_bytes bs

-- `to_le_bytes` of an integer of `n` bytes
unfoldable pub to_le_bytes : ℕ → ℕ → List ℕ
to_le_bytes zero x = []
to_le_bytes (suc n) x = (x % 256) ∷ to_le_bytes n (x / 256)

pub length-to_le_bytes : (n x : ℕ) → length (to_le_bytes n x) ≡ n
unfolding to_le_bytes
length-to_le_bytes zero x = refl
length-to_le_bytes (suc n) x = omega (arith, length-to_le_bytes n (x / 256))

pub from_le_bytes-to_le_bytes : (n x : ℕ) → x < 256 ^ n → from_le_bytes (to_le_bytes n x) ≡ x
unfolding from_le_bytes to_le_bytes
from_le_bytes-to_le_bytes zero x h = omega arith
from_le_bytes-to_le_bytes (suc n) x h =
    omega (arith, from_le_bytes-to_le_bytes n (x / 256) (omega (arith, pow-suc 256 n)))

-- What the checked operations return when they return.
pub checked_sub-eq-some : (a b : ℕ) {c : ℕ} → checked_sub a b ≡ some c → (b ≤ a) × (c ≡ a - b)
checked_sub-eq-some a b h = ground arith

pub checked_add-eq-some :
    (m a b : ℕ) {c : ℕ} → checked_add m a b ≡ some c → (a + b < m) × (c ≡ a + b)
checked_add-eq-some m a b h = ground arith

pub checked_mul-eq-some :
    (m a b : ℕ) {c : ℕ} → checked_mul m a b ≡ some c → (a * b < m) × (c ≡ a * b)
checked_mul-eq-some m a b h = ground arith
