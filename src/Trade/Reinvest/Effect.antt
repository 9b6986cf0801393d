-- ===== src/Trade/Reinvest/Effect.antt =====
-- What a successful run of programs/hardig/src/instructions/reinvest.rs has done.
use hardig.Base.{
  ℕ, ◌+◌, ◌-◌, ◌≤◌, ◌<◌, ◌≡◌, ◌⊎◌, inl, inr, sym, ap, ◌∙◌, arith, true, some, leb, leb→le, ◌==◌,
  ==→eq, Bool-cases, subst, if◌then◌else◌, checked_sub, checked_add, checked_sub-eq-some,
  checked_add-eq-some, u64_mod,
}
use hardig.Error.{Result, ok, >>=-eq-ok, >>-eq-ok, require-eq-ok, ok_or-eq-ok}
use hardig.Error.{ok_injective}
use hardig.Runtime.{Runtime, Store, Clock}
use hardig.State.{PositionState, perm_reinvest}
use hardig.KeyCheck.{validate_key}
use hardig.Mayflower.{read_floor_price, read_deposited_shares, read_debt, calculate_borrow_capacity}
use hardig.Trade.{
  TradeAccounts, touch, token_amount, check_personal_position, check_escrow, check_log,
}
use hardig.Trade.Accounts.{reinvest_constraints}
use hardig.Trade.Buy.{buy_cpi}
use hardig.Trade.Borrow.{borrow_cpi}
use hardig.Trade.Reinvest.{check_spread, reinvest_buy, reinvest_borrow, reinvest_handler, reinvest}

-- The purchase: the shares grew by `min_out` at least within the spread, and the tracked deposit
-- grew by as much.
pub record Purchase (rt : Runtime) (a : TradeAccounts)
    (min_out max_spread_bps floor_price actual_amount : ℕ) (p : PositionState) (s : Store)
    (p' : PositionState) (s' : Store) : Type 0 where
  pub before : ℕ
  pub after : ℕ
  pub shares_before : read_deposited_shares (s a.personal_position).bytes ≡ ok before
  pub called : rt.invoke (buy_cpi rt a actual_amount) s ≡ ok s'
  pub shares_after : read_deposited_shares (s' a.personal_position).bytes ≡ ok after
  pub received : before + min_out ≤ after
  pub spread : check_spread max_spread_bps floor_price actual_amount (after - before) ≡ ok tt
  pub fits : p.deposited_nav + (after - before) < u64_mod
  pub position : p' ≡ record p { deposited_nav = p.deposited_nav + (after - before) }

module _ (rt : Runtime) (a : TradeAccounts) (min_out max_spread_bps floor_price actual_amount : ℕ)
    (p : PositionState) (s : Store) (p' : PositionState) (s' : Store) where
  assemble_purchase :
      (before after received nav : ℕ) (s₁ : Store)
      → read_deposited_shares (s a.personal_position).bytes ≡ ok before
      → rt.invoke (buy_cpi rt a actual_amount) s ≡ ok s₁
      → read_deposited_shares (s₁ a.personal_position).bytes ≡ ok after
      → checked_sub after before ≡ some received
      → leb min_out received ≡ true
      → check_spread max_spread_bps floor_price actual_amount received ≡ ok tt
      → checked_add u64_mod p.deposited_nav received ≡ some nav
      → ◌≡◌ {A = Result (PositionState × Store)}
          (ok (record p { deposited_nav = nav }, s₁))
          (ok (p', s'))
      → Purchase rt a min_out max_spread_bps floor_price actual_amount p s p' s'
  assemble_purchase before after received nav s₁ sb called sa sub slip spread add e =
      let (grown, difference) = checked_sub-eq-some after before sub in
      let (fits, total) = checked_add-eq-some u64_mod p.deposited_nav received add in
      let store : s₁ ≡ s' = cc in
      record {
        before = before;
        after = after;
        shares_before = sb;
        called = cc (called, store);
        shares_after = rw (← store) sa;
        received = omega (arith, leb→le min_out received slip);
        spread = cc (spread, difference);
        fits = omega arith;
        position = ground arith;
      }

  purchase_effect :
      reinvest_buy rt a min_out max_spread_bps floor_price actual_amount p s ≡ ok (p', s')
      → Purchase rt a min_out max_spread_bps floor_price actual_amount p s p' s'
  unfolding reinvest_buy
  purchase_effect h =
      let (before, sb, t₁) = >>=-eq-ok _ _ h in
      let (s₁, called, t₂) = >>=-eq-ok _ _ t₁ in
      let (after, sa, t₃) = >>=-eq-ok _ _ t₂ in
      let (received, sub, t₄) = ok_or-eq-ok _ _ _ t₃ in
      let (slip, t₅) = require-eq-ok _ _ _ t₄ in
      let (spread, t₆) =
        >>-eq-ok (check_spread max_spread_bps floor_price actual_amount received) _ t₅ in
      let (nav, add, t₇) = ok_or-eq-ok _ _ _ t₆ in
      assemble_purchase before after received nav s₁ sb called sa sub slip spread add t₇

-- The loan: the debt grew by what the tracked debt grew by; what then stood on the base token
-- account was spent on shares, if anything did.
pub record Loan (rt : Runtime) (a : TradeAccounts) (min_out max_spread_bps floor_price capacity : ℕ)
    (p : PositionState) (s : Store) (p' : PositionState) (s' : Store) : Type 0 where
  pub before : ℕ
  pub after : ℕ
  pub s₁ : Store
  pub debt_before : read_debt (s a.personal_position).bytes ≡ ok before
  pub called : rt.invoke (borrow_cpi rt a capacity) s ≡ ok s₁
  pub debt_after : read_debt (s₁ a.personal_position).bytes ≡ ok after
  pub grown : before ≤ after
  pub fits : p.user_debt + (after - before) < u64_mod
  pub spent :
      let p₁ = record p { user_debt = p.user_debt + (after - before) } in
      ((token_amount (s₁ a.user_base_token_ata).bytes ≡ 0) × (p' ≡ p₁) × (s' ≡ s₁))
      ⊎ Purchase rt a min_out max_spread_bps floor_price
          (token_amount (s₁ a.user_base_token_ata).bytes)
          p₁
          s₁
          p'
          s'

module _ (rt : Runtime) (a : TradeAccounts) (min_out max_spread_bps floor_price capacity : ℕ)
    (p : PositionState) (s : Store) (p' : PositionState) (s' : Store) where
  spending :
      (p₁ : PositionState) (s₁ : Store) (amount : ℕ)
      → (if amount == 0
          then ok (p₁, s₁)
          else reinvest_buy rt a min_out max_spread_bps floor_price amount p₁ s₁)
        ≡ ok (p', s')
      → ((amount ≡ 0) × (p' ≡ p₁) × (s' ≡ s₁))
        ⊎ Purchase rt a min_out max_spread_bps floor_price amount p₁ s₁ p' s'
  spending p₁ s₁ amount h = elim (Bool-cases (amount == 0)) [
    | inl none_left ↦
        let e = ok_injective (rw none_left at h) in
        inl (==→eq amount 0 none_left, sym (ap (λ r. r.0) e), sym (ap (λ r. r.1) e))
    | inr some_left ↦ inr (
        purchase_effect rt a min_out max_spread_bps floor_price amount p₁ s₁ p' s'
          (rw some_left at h))
  ]

  Loan-effect :
      reinvest_borrow rt a min_out max_spread_bps floor_price capacity p s ≡ ok (p', s')
      → Loan rt a min_out max_spread_bps floor_price capacity p s p' s'
  unfolding reinvest_borrow
  Loan-effect h =
      let (before, db, t₁) = >>=-eq-ok _ _ h in
      let (s₁, called, t₂) = >>=-eq-ok _ _ t₁ in
      let (after, da, t₃) = >>=-eq-ok _ _ t₂ in
      let (actual, sub, t₄) = ok_or-eq-ok _ _ _ t₃ in
      let (debt, add, t₅) = ok_or-eq-ok _ _ _ t₄ in
      let (grown, difference) = checked_sub-eq-some after before sub in
      let (fits, total) = checked_add-eq-some u64_mod p.user_debt actual add in
      let e : debt ≡ p.user_debt + (after - before) =
        total ∙ ap (λ x. p.user_debt + x) difference in
      record {
        before = before;
        after = after;
        s₁ = s₁;
        debt_before = db;
        called = called;
        debt_after = da;
        grown = grown;
        fits = subst (λ x. p.user_debt + x < u64_mod) difference fits;
        spent =
            spending (record p { user_debt = p.user_debt + (after - before) }) s₁
              (token_amount (s₁ a.user_base_token_ata).bytes)
              (subst
                (λ d.
                  (if token_amount (s₁ a.user_base_token_ata).bytes == 0
                    then ok (record p { user_debt = d }, s₁)
                    else reinvest_buy rt a min_out max_spread_bps floor_price
                        (token_amount (s₁ a.user_base_token_ata).bytes) (record p { user_debt = d })
                        s₁)
                  ≡ ok (p', s'))
                e t₅);
      }

-- A key that may reinvest was shown. The capacity is computed from the floor price, the shares and
-- the debt that Mayflower's accounts hold. Where it is 0, nothing is called and only the admin's
-- activity may change; else the loan is of exactly the capacity.
pub record Reinvested (rt : Runtime) (clock : Clock) (a : TradeAccounts)
    (min_out max_spread_bps : ℕ) (s : Store) (p' : PositionState) (s' : Store) : Type 0 where
  pub permissions : ℕ
  pub validated :
      validate_key rt s a.signer a.key_asset a.position.authority_seed perm_reinvest
        a.config.collection
      ≡ ok permissions
  pub floor_price : ℕ
  pub shares : ℕ
  pub debt : ℕ
  pub capacity : ℕ
  pub priced : read_floor_price (s a.mayflower_market).bytes ≡ ok floor_price
  pub held : read_deposited_shares (s a.personal_position).bytes ≡ ok shares
  pub owed : read_debt (s a.personal_position).bytes ≡ ok debt
  pub computed : calculate_borrow_capacity shares floor_price debt ≡ ok capacity
  pub outcome :
      ((capacity ≡ 0) × (p' ≡ touch clock a.key_asset a.position) × (s' ≡ s))
      ⊎ ((0 < capacity)
          × Loan rt a min_out max_spread_bps floor_price capacity
              (touch clock a.key_asset a.position)
              s
              p'
              s')

module _ (rt : Runtime) (clock : Clock) (a : TradeAccounts) (min_out max_spread_bps : ℕ) (s : Store)
    (p' : PositionState) (s' : Store) where
  outcome_of :
      (floor_price capacity : ℕ) (p : PositionState)
      → (if capacity == 0
          then ok (p, s)
          else reinvest_borrow rt a min_out max_spread_bps floor_price capacity p s)
        ≡ ok (p', s')
      → ((capacity ≡ 0) × (p' ≡ p) × (s' ≡ s))
        ⊎ ((0 < capacity) × Loan rt a min_out max_spread_bps floor_price capacity p s p' s')
  outcome_of floor_price capacity p h = elim (Bool-cases (capacity == 0)) [
    | inl idle ↦
        let e = ok_injective (rw idle at h) in
        inl (==→eq capacity 0 idle, sym (ap (λ r. r.0) e), sym (ap (λ r. r.1) e))
    | inr busy ↦ inr (
      ground arith,
      Loan-effect rt a min_out max_spread_bps floor_price capacity p s p' s' (rw busy at h),
    )
  ]

  -- A reinvestment that succeeds was shown a key of the position with the reinvest permission.
  -- The capacity is computed from the floor price, shares and debt of Mayflower's accounts. If
  -- it is 0, no call is made. Otherwise the loan is of the capacity, the position's debt grows
  -- as Mayflower's does, and if base tokens are in the account they all go into a purchase that
  -- meets the minimum and passes the spread check, and whose shares the position's deposit
  -- takes up, within 64 bits.
  pub reinvest_effect :
      reinvest rt clock a min_out max_spread_bps s ≡ ok (p', s')
      → Reinvested rt clock a min_out max_spread_bps s p' s'
  unfolding reinvest reinvest_handler
  reinvest_effect h =
      let (_, t₁) = >>-eq-ok (reinvest_constraints rt a) _ h in
      let (perm, valid, t₂) = >>=-eq-ok _ _ t₁ in
      let (_, t₃) = >>-eq-ok (check_personal_position rt a) _ t₂ in
      let (_, t₄) = >>-eq-ok (check_escrow rt a) _ t₃ in
      let (_, t₅) = >>-eq-ok (check_log rt a) _ t₄ in
      let (floor_price, priced, t₆) = >>=-eq-ok _ _ t₅ in
      let (shares, held, t₇) = >>=-eq-ok _ _ t₆ in
      let (debt, owed, t₈) = >>=-eq-ok _ _ t₇ in
      let (capacity, computed, t₉) = >>=-eq-ok _ _ t₈ in
      record {
        permissions = perm;
        validated = valid;
        floor_price = floor_price;
        shares = shares;
        debt = debt;
        capacity = capacity;
        priced = priced;
        held = held;
        owed = owed;
        computed = computed;
        outcome = outcome_of floor_price capacity (touch clock a.key_asset a.position) t₉;
      }
