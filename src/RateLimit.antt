-- ===== src/RateLimit.antt =====
-- The token-bucket limiter and the lifetime cap of
-- programs/hardig/src/instructions/consume_rate_limit.rs. A function that writes through `&mut`
-- returns the new value.
pub mod Bounds
pub mod Window
use hardig.Base.{
  ℕ, ◌+◌, ◌-◌, ◌*◌, ◌/◌, ◌%◌, min, leb, ◌==◌, if◌then◌else◌, saturating_add, checked_add, u64_mod,
}
use hardig.Error.{
  Result, ok, ◌>>=◌, ◌>>◌, require, ok_or, rate_limit_exceeded, total_limit_exceeded,
}
use hardig.State.{RateBucket}

unfoldable pub consume_rate_limit : RateBucket → ℕ → ℕ → Result RateBucket
consume_rate_limit bucket amount current_slot =
    let elapsed = current_slot - bucket.last_update in
    let refill =
      if leb bucket.refill_period elapsed
      then bucket.capacity
      else (bucket.capacity * elapsed / bucket.refill_period) % u64_mod in
    let level = min (saturating_add u64_mod bucket.level refill) bucket.capacity in
    do
      require (leb amount level) rate_limit_exceeded
      ok (record bucket { level = level - amount; last_update = current_slot })

unfoldable pub consume_total_limit : ℕ → ℕ → ℕ → Result ℕ
consume_total_limit used limit amount = if limit == 0 then ok used else do
  new_total ← ok_or (checked_add u64_mod used amount) total_limit_exceeded
  require (leb new_total limit) total_limit_exceeded
  ok new_total
