-- ===== src/Mayflower/Price.antt =====
-- The borrow capacity of programs/hardig/src/mayflower/floor.rs.
use hardig.Base.{
  ℕ, ◌+◌, ◌*◌, ◌/◌, ◌≤◌, ◌<◌, ◌≡◌, arith, checked_mul-eq-some, u64_mod, u128_mod, max,
}
use hardig.Error.{ok, insufficient_funds, ok_or-eq-ok, ok_or}
use hardig.Mayflower.{calculate_borrow_capacity, to_u64}

to_u64-eq-ok : (x c : ℕ) → ok_or (to_u64 x) insufficient_funds ≡ ok c → (c ≡ x) × (x < u64_mod)
to_u64-eq-ok x c h = ground arith

-- The capacity fits 64 bits and is exactly what is left under the floor value of the shares; a
-- loan within it never brings the debt above the floor value, or above what it was.
pub borrow_capacity_safe :
    (shares price debt capacity amount : ℕ)
    → calculate_borrow_capacity shares price debt ≡ ok capacity
    → amount ≤ capacity
    → (capacity < u64_mod)
      × (debt + capacity ≡ max debt (shares * price / 1_000_000_000))
      × ((debt + amount) * 1_000_000_000 ≤ max (debt * 1_000_000_000) (shares * price))
unfolding calculate_borrow_capacity
borrow_capacity_safe shares price debt capacity amount h q =
    let (value, product, t) = ok_or-eq-ok _ _ _ h in
    let (fits, exact) = checked_mul-eq-some u128_mod shares price product in
    let (left, small) = to_u64-eq-ok _ capacity t in (omega arith, omega arith, omega arith)
