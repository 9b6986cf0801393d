-- ===== src/Trade/Draw.antt =====
-- What a limited key draws on its limits, and `touch`, for
-- programs/hardig/src/instructions/withdraw.rs and borrow.rs.
use hardig.Base.{ℕ, ◌+◌, ◌-◌, ◌≤◌, ◌<◌, ◌≡◌, ◌⊎◌, arith, some}
use hardig.Error.{ok}
use hardig.Runtime.{Clock, Pubkey}
use hardig.State.{PositionState, KeyState, RateBucket, available_now}
use hardig.RateLimit.{consume_rate_limit, consume_total_limit}
use hardig.RateLimit.Bounds.{consume_rate_limit-available_now}
use hardig.Trade.{TradeAccounts, check_key_state, touch}

-- Drawing `x` at a slot on a bucket and a lifetime counter: the amount was available, and what is
-- left is what the later calls see; with a cap the counter takes the amount and stays within it,
-- without one it stands still.
pub record Drawn (x slot : ℕ) (b b' : RateBucket) (limit used used' : ℕ) : Type 0 where
  pub available : x ≤ available_now b slot
  pub left : b' ≡ record b { level = available_now b slot - x; last_update = slot }
  pub counted :
      ((limit ≡ 0) × (used' ≡ used)) ⊎ ((0 < limit) × (used' ≡ used + x) × (used' ≤ limit))

pub Drawn-of_consume :
    (x slot : ℕ) (b b' : RateBucket) (limit used used' : ℕ)
    → consume_rate_limit b x slot ≡ ok b'
    → consume_total_limit used limit x ≡ ok used'
    → Drawn x slot b b' limit used used'
unfolding consume_total_limit
Drawn-of_consume x slot b b' limit used used' h k =
    ground (arith, consume_rate_limit-available_now b x slot)

pub matched_asset :
    (a : TradeAccounts) (ks : KeyState)
    → a.key_state ≡ some ks
    → check_key_state a ≡ ok tt
    → ks.asset ≡ a.key_asset
unfolding check_key_state
matched_asset a ks e h = ground arith

pub touch_debt :
    (clock : Clock) (k : Pubkey) (p : PositionState) → (touch clock k p).user_debt ≡ p.user_debt
unfolding touch
touch_debt clock k p = ground arith

pub touch_nav :
    (clock : Clock) (k : Pubkey) (p : PositionState)
    → (touch clock k p).deposited_nav ≡ p.deposited_nav
unfolding touch
touch_nav clock k p = ground arith
