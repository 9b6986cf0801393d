-- ===== src/RateLimit/Window.antt =====
-- Sequences of calls of the limiter and of the lifetime cap of
-- programs/hardig/src/instructions/consume_rate_limit.rs.
use native.Mathlib.Nat.{mul-le-mul_right}
use hardig.Base.{ℕ, ◌+◌, ◌-◌, ◌*◌, ◌≤◌, ◌<◌, ◌≡◌, sym, ap, subst, arith, List, [], ◌∷◌}
use hardig.Error.{Result, ok, ◌>>=◌, >>=-eq-ok}
use hardig.State.{RateBucket}
use hardig.RateLimit.{consume_rate_limit, consume_total_limit}
use hardig.RateLimit.Bounds.{IsValid, refill_of, refill_proportional, consume_rate_limit-spends}

-- Calls of the limiter, each at a slot for an amount, all of which must be granted.
unfoldable pub consume_all : List (ℕ × ℕ) → RateBucket → Result RateBucket
consume_all [] b = ok b
consume_all ((slot, amount) ∷ calls) b = do
  b' ← consume_rate_limit b amount slot
  consume_all calls b'

-- What the calls spend together.
abbrev pub spent : List (ℕ × ℕ) → ℕ
spent [] = 0
spent ((_, amount) ∷ calls) = amount + spent calls

-- The slots do not go back.
abbrev pub InOrder : ℕ → List (ℕ × ℕ) → Type 0
InOrder from [] = Unit {0}
InOrder from ((slot, _) ∷ calls) = (from ≤ slot) × InOrder slot calls

-- One more call in front of a sequence, in units of amount times period.
prepend_bound :
    (a t l l₁ l' r p p₁ c c₁ e e₁ : ℕ)
    → a + l₁ ≤ l + r
    → r * p ≤ c * e
    → (t + l') * p₁ ≤ l₁ * p₁ + c₁ * e₁
    → p₁ ≡ p
    → c₁ ≡ c
    → (a + t + l') * p ≤ l * p + c * (e + e₁)
prepend_bound a t l l₁ l' r p p₁ c c₁ e e₁ h k g ep ec = omega (
  arith,
  mul-le-mul_right p h,
  ap (λ (x : ℕ). (t + l') * x) ep,
  ap (λ (x : ℕ). l₁ * x) ep,
  ap (λ (x : ℕ). x * e₁) ec,
)

-- In any sequence of granted calls at slots that do not go back, from a bucket whose capacity fits
-- 64 bits and whose level is within it, a key spends, together with what is left in its bucket, no
-- more than the level it began with and the share of the capacity that the elapsed slots make of
-- the refill period.
pub consume_all_bounded :
    (calls : List (ℕ × ℕ)) (b b' : RateBucket)
    → IsValid b
    → InOrder b.last_update calls
    → consume_all calls b ≡ ok b'
    → (b.last_update ≤ b'.last_update)
      × ((spent calls + b'.level) * b.refill_period
          ≤ b.level * b.refill_period + b.capacity * (b'.last_update - b.last_update))
unfolding consume_all
consume_all_bounded [] b b' v o h = ground arith
consume_all_bounded ((slot, amount) ∷ calls) b b' v o h =
    let (b₁, here, rest) = >>=-eq-ok (consume_rate_limit b amount slot) (consume_all calls) h in
    let (v₁, c₁, p₁, u₁, s₁) = consume_rate_limit-spends b b₁ amount slot v here in
    let (l₂, s₂) =
      consume_all_bounded calls b₁ b' v₁ (subst (λ u. InOrder u calls) (sym u₁) o.1) rest in
    let bound =
      prepend_bound amount (spent calls) b.level b₁.level b'.level (refill_of b slot)
        b.refill_period b₁.refill_period b.capacity b₁.capacity (slot - b.last_update)
        (b'.last_update - b₁.last_update) s₁ (refill_proportional b slot) s₂ p₁ c₁ in
    let elapsed : slot - b.last_update + (b'.last_update - b₁.last_update)
        ≡ b'.last_update - b.last_update =
      omega (arith, o.0) in
    (
      omega (arith, o.0),
      subst
          (λ e.
            (amount + spent calls + b'.level) * b.refill_period
            ≤ b.level * b.refill_period + b.capacity * e)
          elapsed bound,
    )

-- Charges against a lifetime cap, all of which must be granted.
unfoldable pub consume_total_all : ℕ → List ℕ → ℕ → Result ℕ
consume_total_all limit [] used = ok used
consume_total_all limit (amount ∷ amounts) used = do
  used' ← consume_total_limit used limit amount
  consume_total_all limit amounts used'

abbrev pub sum : List ℕ → ℕ
sum [] = 0
sum (a ∷ rest) = a + sum rest

consume_total_limit-counts :
    (used limit amount used' : ℕ)
    → 0 < limit
    → consume_total_limit used limit amount ≡ ok used'
    → (used' ≡ used + amount) × (used' ≤ limit)
unfolding consume_total_limit
consume_total_limit-counts used limit amount used' p h = ground arith

-- With a cap that the count has not passed, the charges granted in any sequence are counted in
-- full and the count stays within the cap.
pub consume_total_all_capped :
    (limit : ℕ) (amounts : List ℕ) (used used' : ℕ)
    → 0 < limit
    → used ≤ limit
    → consume_total_all limit amounts used ≡ ok used'
    → (used' ≡ used + sum amounts) × (used' ≤ limit)
unfolding consume_total_all
consume_total_all_capped limit [] used used' p u h = ground arith
consume_total_all_capped limit (a ∷ amounts) used used' p u h =
    let (mid, here, rest) =
      >>=-eq-ok (consume_total_limit used limit a) (consume_total_all limit amounts) h in
    let (counted, within) = consume_total_limit-counts used limit a mid p here in
    let (all, capped) = consume_total_all_capped limit amounts mid used' p within rest in
    (omega arith, capped)
