-- ===== src/Trade/Repay/Effect.antt =====
-- What a successful run of programs/hardig/src/instructions/repay.rs has done.
use hardig.Base.{
  ℕ, ◌-◌, ◌≤◌, ◌<◌, ◌≡◌, arith, true, some, ltb, leb, ltb→lt, leb→le, checked_sub,
  checked_sub-eq-some,
}
use hardig.Error.{Result, ok, >>=-eq-ok, >>-eq-ok, require-eq-ok, ok_or-eq-ok}
use hardig.Runtime.{Runtime, Store, Clock}
use hardig.State.{PositionState, perm_repay}
use hardig.KeyCheck.{validate_key}
use hardig.Mayflower.{read_debt}
use hardig.Trade.{TradeAccounts, touch, check_personal_position, check_log}
use hardig.Trade.Draw.{touch_debt}
use hardig.Trade.Accounts.{repay_constraints}
use hardig.Trade.Repay.{repay_cpi, repay, repay_handler}

-- A key that may repay was shown; no more than Mayflower's debt was asked for; in the one call
-- that was made the debt went down from `before` to `after`, and the tracked debt falls by as
-- much, to 0 at least. Of the position nothing else changed but the admin's activity.
pub record Repaid (rt : Runtime) (clock : Clock) (a : TradeAccounts) (amount : ℕ) (s : Store)
    (p' : PositionState) (s' : Store) : Type 0 where
  pub permissions : ℕ
  pub validated :
      validate_key rt s a.signer a.key_asset a.position.authority_seed perm_repay
        a.config.collection
      ≡ ok permissions
  pub positive : 0 < amount
  pub before : ℕ
  pub after : ℕ
  pub debt_before : read_debt (s a.personal_position).bytes ≡ ok before
  pub owed : amount ≤ before
  pub called : rt.invoke (repay_cpi rt a amount) s ≡ ok s'
  pub debt_after : read_debt (s' a.personal_position).bytes ≡ ok after
  pub fallen : after ≤ before
  pub position : p' ≡ record (touch clock a.key_asset a.position) {
    user_debt = a.position.user_debt - (before - after);
  }

module _ (rt : Runtime) (clock : Clock) (a : TradeAccounts) (amount : ℕ) (s : Store)
    (p' : PositionState) (s' : Store) where
  -- The parts of a run, put together.
  assemble :
      (perm owed before after repaid : ℕ) (s₁ : Store)
      → validate_key rt s a.signer a.key_asset a.position.authority_seed perm_repay
          a.config.collection
        ≡ ok perm
      → ltb 0 amount ≡ true
      → read_debt (s a.personal_position).bytes ≡ ok owed
      → leb amount owed ≡ true
      → read_debt (s a.personal_position).bytes ≡ ok before
      → rt.invoke (repay_cpi rt a amount) s ≡ ok s₁
      → read_debt (s₁ a.personal_position).bytes ≡ ok after
      → checked_sub before after ≡ some repaid
      → ◌≡◌ {A = Result (PositionState × Store)}
          (ok (
            record (touch clock a.key_asset a.position) {
              user_debt = (touch clock a.key_asset a.position).user_debt - repaid;
            },
            s₁,
          ))
          (ok (p', s'))
      → Repaid rt clock a amount s p' s'
  assemble perm owed before after repaid s₁ valid pos ob cover db called da sub e =
      let (fallen, difference) = checked_sub-eq-some before after sub in
      let same = touch_debt clock a.key_asset a.position in
      let store : s₁ ≡ s' = cc in
      let one : owed ≡ before = cc in
      record {
        permissions = perm;
        validated = valid;
        positive = ltb→lt 0 amount pos;
        before = before;
        after = after;
        debt_before = db;
        owed = omega (arith, leb→le amount owed cover);
        called = cc (called, store);
        debt_after = rw (← store) da;
        fallen = fallen;
        position = ground (arith, same);
      }

  -- A repayment that succeeds was for a positive amount within the debt that Mayflower held,
  -- and was shown a key of the position with the repay permission. The debt did not rise over
  -- the one call, and what it fell by was taken from the position's debt, down to 0 at most.
  -- Nothing else of the position changed but, for the admin key, the time of its activity.
  pub repay_effect : repay rt clock a amount s ≡ ok (p', s') → Repaid rt clock a amount s p' s'
  unfolding repay repay_handler
  repay_effect h =
      let (_, t₁) = >>-eq-ok (repay_constraints rt a) _ h in
      let (perm, valid, t₂) = >>=-eq-ok _ _ t₁ in
      let (pos, t₃) = require-eq-ok _ _ _ t₂ in
      let (_, t₄) = >>-eq-ok (check_personal_position rt a) _ t₃ in
      let (_, t₅) = >>-eq-ok (check_log rt a) _ t₄ in
      let (owed, ob, t₆) = >>=-eq-ok _ _ t₅ in
      let (cover, t₇) = require-eq-ok _ _ _ t₆ in
      let (before, db, t₈) = >>=-eq-ok _ _ t₇ in
      let (s₁, called, t₉) = >>=-eq-ok _ _ t₈ in
      let (after, da, u₁) = >>=-eq-ok _ _ t₉ in
      let (repaid, sub, u₂) = ok_or-eq-ok _ _ _ u₁ in
      assemble perm owed before after repaid s₁ valid pos ob cover db called da sub u₂
