-- ===== src/Promo/Deposit.antt =====
-- The deposit of programs/hardig/src/instructions/promo/claim_promo_key.rs.
use hardig.Base.{
  ℕ, ◌+◌, ◌-◌, ◌≤◌, ◌<◌, ◌≡◌, ◌⊎◌, inl, inr, sym, ap, ◌∙◌, arith, some, Bool-cases, ltb,
  checked_add, checked_sub, checked_add-eq-some, checked_sub-eq-some, u64_mod,
}
use hardig.Error.{Result, ok, >>=-eq-ok, >>-eq-ok, ok_or-eq-ok, ok_injective, insufficient_funds}
use hardig.Runtime.{Runtime, Store}
use hardig.State.{PositionState}
use hardig.Mayflower.{read_deposited_shares}
use hardig.Trade.{TradeAccounts, check_personal_position, check_escrow, check_log}
use hardig.Trade.Buy.{buy_cpi}
use hardig.Promo.Claim.{claim_deposit}

-- The shares that Mayflower added for the deposit are added to the position's.
pub record Deposited (rt : Runtime) (a : TradeAccounts) (amount : ℕ) (s : Store)
    (p' : PositionState) (s' : Store) : Type 0 where
  pub before : ℕ
  pub after : ℕ
  pub shares_before : read_deposited_shares (s a.personal_position).bytes ≡ ok before
  pub called : rt.invoke (buy_cpi rt a amount) s ≡ ok s'
  pub shares_after : read_deposited_shares (s' a.personal_position).bytes ≡ ok after
  pub risen : before ≤ after
  pub fits : a.position.deposited_nav + (after - before) < u64_mod
  pub position :
      p' ≡ record (a.position) { deposited_nav = a.position.deposited_nav + (after - before) }

module _ (rt : Runtime) (a : TradeAccounts) (amount : ℕ) (s : Store) (p' : PositionState)
    (s' : Store) where
  assemble :
      (before after received nav : ℕ) (s₁ : Store)
      → read_deposited_shares (s a.personal_position).bytes ≡ ok before
      → rt.invoke (buy_cpi rt a amount) s ≡ ok s₁
      → read_deposited_shares (s₁ a.personal_position).bytes ≡ ok after
      → checked_sub after before ≡ some received
      → checked_add u64_mod a.position.deposited_nav received ≡ some nav
      → ◌≡◌ {A = Result (PositionState × Store)}
          (ok (record (a.position) { deposited_nav = nav }, s₁))
          (ok (p', s'))
      → Deposited rt a amount s p' s'
  assemble before after received nav s₁ db called da sub add e =
      let (risen, difference) = checked_sub-eq-some after before sub in
      let (fits, total) = checked_add-eq-some u64_mod a.position.deposited_nav received add in
      let same = ap (λ r. r.1) (ok_injective e) in
      record {
        before = before;
        after = after;
        shares_before = db;
        called = called ∙ ap ok same;
        shares_after =
            ap (λ (t : Store). read_deposited_shares (t a.personal_position).bytes) (sym same) ∙ da;
        risen = risen;
        fits = omega (arith, difference);
        position =
            sym (ap (λ r. r.0) (ok_injective e))
            ∙ ap (λ n. record (a.position) { deposited_nav = n })
                (total ∙ ap (λ x. a.position.deposited_nav + x) difference);
      }

  -- Without a deposit nothing happens; with one the shares are added.
  pub deposit_effect :
      claim_deposit rt a amount s ≡ ok (p', s')
      → ((amount ≡ 0) × (p' ≡ a.position) × (s' ≡ s)) ⊎ Deposited rt a amount s p' s'
  unfolding claim_deposit
  deposit_effect h = elim (Bool-cases (ltb 0 amount)) [
    | inr idle ↦
        let e = ok_injective (rw idle at h) in
        inl (ground arith, sym (ap (λ r. r.0) e), sym (ap (λ r. r.1) e))
    | inl paid ↦
        let (_, t₁) = >>-eq-ok (check_personal_position rt a) _ (rw paid at h) in
        let (_, t₂) = >>-eq-ok (check_escrow rt a) _ t₁ in
        let (_, t₃) = >>-eq-ok (check_log rt a) _ t₂ in
        let (before, db, t₄) =
          >>=-eq-ok (read_deposited_shares (s a.personal_position).bytes) _ t₃ in
        let (s₁, called, t₅) = >>=-eq-ok (rt.invoke (buy_cpi rt a amount) s) _ t₄ in
        let (after, da, t₆) =
          >>=-eq-ok (read_deposited_shares (s₁ a.personal_position).bytes) _ t₅ in
        let (received, sub, t₇) = ok_or-eq-ok (checked_sub after before) insufficient_funds _ t₆ in
        let (nav, add, t₈) =
          ok_or-eq-ok (checked_add u64_mod a.position.deposited_nav received) insufficient_funds _
            t₇ in
        inr (assemble before after received nav s₁ db called da sub add t₈)
  ]
