-- ===== src/Trade/Borrow/Effect.antt =====
-- What a successful run of programs/hardig/src/instructions/borrow.rs has done.
use hardig.Base.{
  ℕ, ◌+◌, ◌-◌, ◌≤◌, ◌<◌, ◌≡◌, arith, true, Option, some, ltb, ltb→lt, checked_sub, checked_add,
  checked_sub-eq-some, checked_add-eq-some, u64_mod, bit_or,
}
use hardig.Error.{Result, ok, >>=-eq-ok, >>-eq-ok, require-eq-ok, ok_or-eq-ok}
use hardig.Runtime.{Runtime, Store, Clock}
use hardig.State.{PositionState, KeyState, perm_borrow, perm_limited_borrow}
use hardig.KeyCheck.{validate_key}
use hardig.Mayflower.{read_debt}
use hardig.Trade.{
  TradeAccounts, touch, close_if_initialized, check_key_state, check_personal_position, check_log,
}
use hardig.Trade.Draw.{touch_debt}
use hardig.Trade.Accounts.{borrow_constraints}
use hardig.Trade.Borrow.{borrow_cpi, charge_borrow, borrow, borrow_handler}

-- A key with one of the two permissions was shown, and the key state, if any, is its own; Mayflower's debt went from
-- `before` to `after` in the one call that was made; the limits were charged with the difference,
-- and the tracked debt grew by it, within 64 bits. Of the position nothing else changed but the
-- admin's activity.
pub record Borrowed (rt : Runtime) (clock : Clock) (a : TradeAccounts) (amount : ℕ) (s : Store)
    (p' : PositionState) (ks' : Option KeyState) (s'' : Store) : Type 0 where
  pub permissions : ℕ
  pub validated :
      validate_key rt s a.signer a.key_asset a.position.authority_seed
        (bit_or perm_borrow perm_limited_borrow)
        a.config.collection
      ≡ ok permissions
  pub matched : check_key_state a ≡ ok tt
  pub positive : 0 < amount
  pub before : ℕ
  pub after : ℕ
  pub s' : Store
  pub debt_before : read_debt (s a.personal_position).bytes ≡ ok before
  pub called : rt.invoke (borrow_cpi rt a amount) s ≡ ok s'
  pub debt_after : read_debt (s' a.personal_position).bytes ≡ ok after
  pub grown : before ≤ after
  pub charged : charge_borrow permissions a.key_state (after - before) clock.slot ≡ ok ks'
  pub closed : close_if_initialized rt a a.user_base_token_ata s' ≡ ok s''
  pub fits : a.position.user_debt + (after - before) < u64_mod
  pub position : p' ≡ record (touch clock a.key_asset a.position) {
    user_debt = a.position.user_debt + (after - before);
  }

module _ (rt : Runtime) (clock : Clock) (a : TradeAccounts) (amount : ℕ) (s : Store)
    (p' : PositionState) (ks' : Option KeyState) (s'' : Store) where
  -- The parts of a run, put together.
  assemble :
      (perm before after actual debt : ℕ) (ks : Option KeyState) (s₁ s₂ : Store)
      → validate_key rt s a.signer a.key_asset a.position.authority_seed
          (bit_or perm_borrow perm_limited_borrow)
          a.config.collection
        ≡ ok perm
      → check_key_state a ≡ ok tt
      → ltb 0 amount ≡ true
      → read_debt (s a.personal_position).bytes ≡ ok before
      → rt.invoke (borrow_cpi rt a amount) s ≡ ok s₁
      → read_debt (s₁ a.personal_position).bytes ≡ ok after
      → checked_sub after before ≡ some actual
      → charge_borrow perm a.key_state actual clock.slot ≡ ok ks
      → close_if_initialized rt a a.user_base_token_ata s₁ ≡ ok s₂
      → checked_add u64_mod (touch clock a.key_asset a.position).user_debt actual ≡ some debt
      → ◌≡◌ {A = Result (PositionState × Option KeyState × Store)}
          (ok (record (touch clock a.key_asset a.position) { user_debt = debt }, ks, s₂))
          (ok (p', ks', s''))
      → Borrowed rt clock a amount s p' ks' s''
  assemble perm before after actual debt ks s₁ s₂ valid matched pos db called da sub charged closed
        add e =
      let (grown, difference) = checked_sub-eq-some after before sub in
      let (fits, total) =
        checked_add-eq-some u64_mod (touch clock a.key_asset a.position).user_debt actual add in
      let same = touch_debt clock a.key_asset a.position in
      record {
        permissions = perm;
        validated = valid;
        matched = matched;
        positive = ltb→lt 0 amount pos;
        before = before;
        after = after;
        s' = s₁;
        debt_before = db;
        called = called;
        debt_after = da;
        grown = grown;
        charged = cc (charged, difference, e);
        closed = cc (closed, e);
        fits = omega arith;
        position = ground (arith, same);
      }

  -- A borrow that succeeds was for a positive amount and was shown a key of the position with
  -- one of the two borrow permissions, and no other key's limits. Mayflower's debt did not fall
  -- over the one call; its growth was charged to the key's limits and added to the position's
  -- debt, which still fits 64 bits. Nothing else of the position changed but, for the admin
  -- key, the time of its activity.
  pub borrow_effect :
      borrow rt clock a amount s ≡ ok (p', ks', s'') → Borrowed rt clock a amount s p' ks' s''
  unfolding borrow borrow_handler
  borrow_effect h =
      let (_, t₁) = >>-eq-ok (borrow_constraints rt a) _ h in
      let (perm, valid, t₂) = >>=-eq-ok _ _ t₁ in
      let (matched, t₃) = >>-eq-ok (check_key_state a) _ t₂ in
      let (pos, t₄) = require-eq-ok _ _ _ t₃ in
      let (_, t₅) = >>-eq-ok (check_personal_position rt a) _ t₄ in
      let (_, t₆) = >>-eq-ok (check_log rt a) _ t₅ in
      let (before, db, t₇) = >>=-eq-ok _ _ t₆ in
      let (s₁, called, t₈) = >>=-eq-ok _ _ t₇ in
      let (after, da, t₉) = >>=-eq-ok _ _ t₈ in
      let (actual, sub, u₁) = ok_or-eq-ok _ _ _ t₉ in
      let (ks, charged, u₂) = >>=-eq-ok _ _ u₁ in
      let (s₂, closed, u₃) = >>=-eq-ok _ _ u₂ in
      let (debt, add, u₄) = ok_or-eq-ok _ _ _ u₃ in
      assemble perm before after actual debt ks s₁ s₂ valid matched pos db called da sub charged
        closed add u₄
