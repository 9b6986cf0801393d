-- ===== src/Permissions/Delegable.antt =====
-- The requests for a delegated key that `validate_delegated_permissions` of
-- programs/hardig/src/instructions/mod.rs accepts.
use hardig.Base.{
  ℕ, ◌/◌, ◌%◌, ◌<◌, ◌≡◌, refl, arith, Bool, true, false, ◌||◌, ◌⊎◌, ◌↔◌, ◌==◌, bit_and,
}
use hardig.Error.{ok}
use hardig.Decimal.{all_below, all_below_sound}
use hardig.State.{KeyCreatorOrigin, allowed_permissions, perm_limited_sell, perm_limited_borrow}
use hardig.Permissions.{has_any, complement_u8, validate_limits, validate_delegated_permissions}

-- The permission bytes that an origin may grant: an admin any set without the bit that manages
-- keys, a promo `buy`, `limited borrow` or both.
abbrev pub Grantable : KeyCreatorOrigin → ℕ → Type 0
Grantable KeyCreatorOrigin.admin p = (0 < p) × (p / 32 % 2 ≡ 0)
Grantable KeyCreatorOrigin.promo p = (p ≡ 1) ⊎ (p ≡ 128) ⊎ (p ≡ 129)

-- A limited permission comes with a bucket that refills; without it there is no limit at all.
abbrev pub LimitsFit : ℕ → ℕ → ℕ → ℕ → Type 0
LimitsFit bit capacity refill_period total_limit =
    ((bit ≡ 1) × (0 < capacity) × (0 < refill_period))
    ⊎ ((bit ≡ 0) × (capacity ≡ 0) × (refill_period ≡ 0) × (total_limit ≡ 0))

grantable : KeyCreatorOrigin → ℕ → Bool
grantable KeyCreatorOrigin.admin p = p / 32 % 2 == 0
grantable KeyCreatorOrigin.promo p = (p == 0 || p == 1) || (p == 128 || p == 129)

bool_eq : Bool → Bool → Bool
bool_eq true b = b
bool_eq false true = false
bool_eq false false = true

eq_of_bool_eq : (a b : Bool) → bool_eq a b ≡ true → a ≡ b
unfolding bool_eq
eq_of_bool_eq a b h = ground arith

mask_table :
    (o : KeyCreatorOrigin)
    → all_below 256
        (λ p. bool_eq (bit_and p (complement_u8 (allowed_permissions o)) == 0) (grantable o p))
      ≡ true
unfolding all_below bool_eq grantable allowed_permissions
mask_table KeyCreatorOrigin.admin = refl
mask_table KeyCreatorOrigin.promo = refl

mask_test :
    (o : KeyCreatorOrigin) (p : ℕ)
    → p < 256
    → (bit_and p (complement_u8 (allowed_permissions o)) == 0) ≡ grantable o p
mask_test o p h = eq_of_bool_eq _ _ (all_below_sound 256 _ p (mask_table o) h)

sell_table : all_below 256 (λ p. bool_eq (has_any p perm_limited_sell) (p / 64 % 2 == 1)) ≡ true
unfolding all_below bool_eq
sell_table = refl

borrow_table :
    all_below 256 (λ p. bool_eq (has_any p perm_limited_borrow) (p / 128 % 2 == 1)) ≡ true
unfolding all_below bool_eq
borrow_table = refl

has_limited_sell : (p : ℕ) → p < 256 → has_any p perm_limited_sell ≡ (p / 64 % 2 == 1)
has_limited_sell p h = eq_of_bool_eq _ _ (all_below_sound 256 _ p sell_table h)

has_limited_borrow : (p : ℕ) → p < 256 → has_any p perm_limited_borrow ≡ (p / 128 % 2 == 1)
has_limited_borrow p h = eq_of_bool_eq _ _ (all_below_sound 256 _ p borrow_table h)

validate_limits_iff :
    (bit capacity refill_period total_limit : ℕ)
    → bit < 2
    → (validate_limits (bit == 1) capacity refill_period total_limit ≡ ok tt)
      ↔ LimitsFit bit capacity refill_period total_limit
unfolding validate_limits
validate_limits_iff bit c r t h = (λ e. ground arith, λ f. ground arith)

-- A request is accepted exactly if its origin may grant the byte and both limits fit it: the byte
-- is not zero and never holds the bit that manages keys, and a bucket is configured if and only if
-- its limited permission is.
pub validate_delegated_permissions_iff :
    (o : KeyCreatorOrigin) (p sc sr bc br ts tb : ℕ)
    → p < 256
    → (validate_delegated_permissions o p sc sr bc br ts tb ≡ ok tt)
      ↔ (Grantable o p × LimitsFit (p / 64 % 2) sc sr ts × LimitsFit (p / 128 % 2) bc br tb)
unfolding validate_delegated_permissions grantable
validate_delegated_permissions_iff KeyCreatorOrigin.admin p sc sr bc br ts tb h =
    rw (mask_test KeyCreatorOrigin.admin p h, has_limited_sell p h, has_limited_borrow p h)
      (
        λ e. ground (
          arith,
          (validate_limits_iff (p / 64 % 2) sc sr ts (omega arith)).0,
          (validate_limits_iff (p / 128 % 2) bc br tb (omega arith)).0,
        ),
        λ f. ground (
          arith,
          (validate_limits_iff (p / 64 % 2) sc sr ts (omega arith)).1 f.1,
          (validate_limits_iff (p / 128 % 2) bc br tb (omega arith)).1 f.2,
        ),
      )
validate_delegated_permissions_iff KeyCreatorOrigin.promo p sc sr bc br ts tb h =
    rw (mask_test KeyCreatorOrigin.promo p h, has_limited_sell p h, has_limited_borrow p h)
      (
        λ e. ground (
          arith,
          (validate_limits_iff (p / 64 % 2) sc sr ts (omega arith)).0,
          (validate_limits_iff (p / 128 % 2) bc br tb (omega arith)).0,
        ),
        λ f. ground (
          arith,
          (validate_limits_iff (p / 64 % 2) sc sr ts (omega arith)).1 f.1,
          (validate_limits_iff (p / 128 % 2) bc br tb (omega arith)).1 f.2,
        ),
      )
