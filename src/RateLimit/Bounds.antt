-- ===== src/RateLimit/Bounds.antt =====
-- One call of the limiter of programs/hardig/src/instructions/consume_rate_limit.rs.
use native.Mathlib.Nat.{div-le_of_le-mul, div-mul-le_self, mod-eq_of_lt}
use hardig.Base.{
  ℕ, ◌+◌, ◌-◌, ◌*◌, ◌/◌, ◌%◌, ◌≤◌, ◌<◌, ◌≡◌, arith, u64_mod, leb, if◌then◌else◌, Bool-cases, inl,
  inr, leb→le,
}
use hardig.Error.{ok, err, custom, rate_limit_exceeded}
use hardig.State.{RateBucket, available_now}
use hardig.RateLimit.{consume_rate_limit}

-- The fields fit their machine type and the level is within the capacity.
pub record IsValid (b : RateBucket) : Type 0 where
  pub capacity_fits : b.capacity < u64_mod
  pub level_capped : b.level ≤ b.capacity

-- The quotient of a part of the period is within the capacity, so the cast to 64 bits is exact.
pub refill-le-capacity : (c e p : ℕ) → e < p → c * e / p ≤ c
refill-le-capacity c e p h = div-le_of_le-mul p (grind arith)

refill_exact : (c e p : ℕ) → e < p → c < u64_mod → (c * e / p) % u64_mod ≡ c * e / p
refill_exact c e p h f = mod-eq_of_lt (omega (arith, refill-le-capacity c e p h))

abbrev pub refill_of : RateBucket → ℕ → ℕ
refill_of b slot =
    let elapsed = slot - b.last_update in
    if leb b.refill_period elapsed
    then b.capacity
    else (b.capacity * elapsed / b.refill_period) % u64_mod

-- In one period the refill is at most the proportional share, also where it is cut to 64 bits.
pub refill_proportional :
    (b : RateBucket) (slot : ℕ)
    → refill_of b slot * b.refill_period ≤ b.capacity * (slot - b.last_update)
refill_proportional b slot = elim (Bool-cases (leb b.refill_period (slot - b.last_update))) [
  | inl full ↦ rw full (grind (arith, leb→le b.refill_period (slot - b.last_update) full))
  | inr part ↦
      rw part (grind (arith, div-mul-le_self (b.capacity * (slot - b.last_update)) b.refill_period))
]

-- A call succeeds exactly when the amount is available, and takes it from what is available; it
-- fails with the rate-limit error otherwise.
pub consume_rate_limit-available_now :
    (b : RateBucket) (amount slot : ℕ)
    → consume_rate_limit b amount slot ≡ (
        if leb amount (available_now b slot)
        then ok (record b { level = available_now b slot - amount; last_update = slot })
        else err (custom rate_limit_exceeded))
unfolding consume_rate_limit available_now
consume_rate_limit-available_now b amount slot = ground arith

-- A granted call spends no more than the level and the refill that the slots bring, and leaves
-- the rest; it keeps the bucket valid and its parameters.
pub consume_rate_limit-spends :
    (b b' : RateBucket) (amount slot : ℕ)
    → IsValid b
    → consume_rate_limit b amount slot ≡ ok b'
    → IsValid b'
      × (b'.capacity ≡ b.capacity)
      × (b'.refill_period ≡ b.refill_period)
      × (b'.last_update ≡ slot)
      × (amount + b'.level ≤ b.level + refill_of b slot)
unfolding consume_rate_limit
consume_rate_limit-spends b b' amount slot v h = ground arith
