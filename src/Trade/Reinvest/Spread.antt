-- ===== src/Trade/Reinvest/Spread.antt =====
-- The spread check of programs/hardig/src/instructions/reinvest.rs.
use native.Mathlib.Nat.{div-le_self, div-lt_iff_lt-mul}
use hardig.Base.{ℕ, ◌+◌, ◌-◌, ◌*◌, ◌/◌, ◌<◌, ◌≤◌, ◌≡◌, ◌↔◌, arith, u64_mod}
use hardig.Error.{ok}
use hardig.Trade.Reinvest.{check_spread}

-- The excess over the floor price in basis points, without a quotient.
excess_iff :
    (bps floor e : ℕ)
    → 0 < floor
    → floor < e
    → ((e - floor) * 10_000 / floor ≤ bps) ↔ (e * 10_000 < (10_001 + bps) * floor)
excess_iff bps floor e pos above =
    let q = div-lt_iff_lt-mul {k = floor} {x = (e - floor) * 10_000} {y = bps + 1} pos in
    (λ h. omega (arith, q.0 (omega (arith, h))), λ h. omega (arith, q.1 (omega (arith, h))))

-- With a limit, a floor price and shares received, the check never overflows, and it passes
-- exactly if the price paid per 10 ^ 9 shares, cut to a whole number, exceeds the floor price by
-- less than one basis point more than the limit.
pub check_spread_iff :
    (bps floor amount shares : ℕ)
    → 0 < bps
    → 0 < floor
    → 0 < shares
    → amount < u64_mod
    → (check_spread bps floor amount shares ≡ ok tt)
      ↔ (amount * 1_000_000_000 / shares * 10_000 < (10_001 + bps) * floor)
unfolding check_spread
check_spread_iff bps floor amount shares b f n fits =
    let small = div-le_self (amount * 1_000_000_000) shares in
    (
      λ h. ground (arith, small, excess_iff bps floor (amount * 1_000_000_000 / shares) f),
      λ h. ground (arith, small, excess_iff bps floor (amount * 1_000_000_000 / shares) f),
    )
