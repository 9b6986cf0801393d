-- ===== src/Permissions.antt =====
-- Permission bytes, and which of them a delegated key may carry: `validate_delegated_permissions`
-- of programs/hardig/src/instructions/mod.rs.
pub mod Delegable
use hardig.Base.{ℕ, Bool, ◌&&◌, ltb, ◌==◌, ◌/=◌, if◌then◌else◌, bit_and, bit_xor}
use hardig.Error.{Result, ok, ◌>>=◌, ◌>>◌, require, invalid_key_role}
use hardig.State.{KeyCreatorOrigin, allowed_permissions, perm_limited_sell, perm_limited_borrow}

-- `permissions & mask != 0`
abbrev pub has_any : ℕ → ℕ → Bool
has_any permissions mask = bit_and permissions mask /= 0

-- `permissions & mask == 0`
abbrev pub not_any : ℕ → ℕ → Bool
not_any permissions mask = bit_and permissions mask == 0

-- `!x` of a byte
abbrev pub complement_u8 : ℕ → ℕ
complement_u8 x = bit_xor x 0xff

-- The limits that go with one of the two limited permissions.
unfoldable pub validate_limits : Bool → ℕ → ℕ → ℕ → Result (Unit {0})
validate_limits limited capacity refill_period total_limit =
    if limited then require (ltb 0 capacity && ltb 0 refill_period) invalid_key_role else do
      require (capacity == 0 && refill_period == 0) invalid_key_role
      require (total_limit == 0) invalid_key_role

unfoldable pub validate_delegated_permissions :
    KeyCreatorOrigin → ℕ → ℕ → ℕ → ℕ → ℕ → ℕ → ℕ → Result (Unit {0})
unfolding allowed_permissions
validate_delegated_permissions origin permissions sell_capacity sell_refill_period borrow_capacity
      borrow_refill_period total_sell_limit total_borrow_limit =
    do
      require (permissions /= 0) invalid_key_role
      require (bit_and permissions (complement_u8 (allowed_permissions origin)) == 0)
          invalid_key_role
      validate_limits (has_any permissions perm_limited_sell) sell_capacity sell_refill_period
          total_sell_limit
      validate_limits (has_any permissions perm_limited_borrow) borrow_capacity borrow_refill_period
          total_borrow_limit
