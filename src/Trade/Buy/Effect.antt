-- ===== src/Trade/Buy/Effect.antt =====
-- What a successful run of programs/hardig/src/instructions/buy.rs has done.
use hardig.Base.{
  ℕ, ◌+◌, ◌-◌, ◌≤◌, ◌<◌, ◌≡◌, arith, true, some, ltb, leb, ltb→lt, leb→le, checked_sub, checked_add,
  checked_sub-eq-some, checked_add-eq-some, u64_mod,
}
use hardig.Error.{Result, ok, >>=-eq-ok, >>-eq-ok, require-eq-ok, ok_or-eq-ok}
use hardig.Runtime.{Runtime, Store, Clock}
use hardig.State.{PositionState, perm_buy}
use hardig.KeyCheck.{validate_key}
use hardig.Mayflower.{read_deposited_shares}
use hardig.Trade.{TradeAccounts, touch, check_personal_position, check_escrow, check_log}
use hardig.Trade.Draw.{touch_nav}
use hardig.Trade.Accounts.{buy_constraints}
use hardig.Trade.Buy.{buy_cpi, buy, buy_handler}

-- A key that may buy was shown; in the one call that was made the shares at Mayflower went from
-- `before` to `after`, by `min_out` at least, and the tracked deposit grew by as much, within 64
-- bits. Of the position nothing else changed but the admin's activity.
pub record Bought (rt : Runtime) (clock : Clock) (a : TradeAccounts) (amount min_out : ℕ)
    (s : Store) (p' : PositionState) (s' : Store) : Type 0 where
  pub permissions : ℕ
  pub validated :
      validate_key rt s a.signer a.key_asset a.position.authority_seed perm_buy a.config.collection
      ≡ ok permissions
  pub positive : 0 < amount
  pub before : ℕ
  pub after : ℕ
  pub shares_before : read_deposited_shares (s a.personal_position).bytes ≡ ok before
  pub called : rt.invoke (buy_cpi rt a amount) s ≡ ok s'
  pub shares_after : read_deposited_shares (s' a.personal_position).bytes ≡ ok after
  pub received : before + min_out ≤ after
  pub fits : a.position.deposited_nav + (after - before) < u64_mod
  pub position : p' ≡ record (touch clock a.key_asset a.position) {
    deposited_nav = a.position.deposited_nav + (after - before);
  }

module _ (rt : Runtime) (clock : Clock) (a : TradeAccounts) (amount min_out : ℕ) (s : Store)
    (p' : PositionState) (s' : Store) where
  -- The parts of a run, put together.
  assemble :
      (perm before after received nav : ℕ) (s₁ : Store)
      → validate_key rt s a.signer a.key_asset a.position.authority_seed perm_buy
          a.config.collection
        ≡ ok perm
      → ltb 0 amount ≡ true
      → read_deposited_shares (s a.personal_position).bytes ≡ ok before
      → rt.invoke (buy_cpi rt a amount) s ≡ ok s₁
      → read_deposited_shares (s₁ a.personal_position).bytes ≡ ok after
      → checked_sub after before ≡ some received
      → leb min_out received ≡ true
      → checked_add u64_mod (touch clock a.key_asset a.position).deposited_nav received ≡ some nav
      → ◌≡◌ {A = Result (PositionState × Store)}
          (ok (record (touch clock a.key_asset a.position) { deposited_nav = nav }, s₁))
          (ok (p', s'))
      → Bought rt clock a amount min_out s p' s'
  assemble perm before after received nav s₁ valid pos sb called sa sub slip add e =
      let (grown, difference) = checked_sub-eq-some after before sub in
      let (fits, total) =
        checked_add-eq-some u64_mod (touch clock a.key_asset a.position).deposited_nav received
          add in
      let same = touch_nav clock a.key_asset a.position in
      let store : s₁ ≡ s' = cc in
      record {
        permissions = perm;
        validated = valid;
        positive = ltb→lt 0 amount pos;
        before = before;
        after = after;
        shares_before = sb;
        called = cc (called, store);
        shares_after = rw (← store) sa;
        received = omega (arith, leb→le min_out received slip);
        fits = omega arith;
        position = ground (arith, same);
      }

  -- A purchase that succeeds was for a positive amount and was shown a key of the position with
  -- the buy permission. The shares that Mayflower holds rose over the one call by the minimum
  -- asked for at least, and the position's deposit rose by as much as they did, within 64 bits.
  -- Nothing else of the position changed but, for the admin key, the time of its activity.
  pub buy_effect :
      buy rt clock a amount min_out s ≡ ok (p', s') → Bought rt clock a amount min_out s p' s'
  unfolding buy buy_handler
  buy_effect h =
      let (_, t₁) = >>-eq-ok (buy_constraints rt a) _ h in
      let (perm, valid, t₂) = >>=-eq-ok _ _ t₁ in
      let (pos, t₃) = require-eq-ok _ _ _ t₂ in
      let (_, t₄) = >>-eq-ok (check_personal_position rt a) _ t₃ in
      let (_, t₅) = >>-eq-ok (check_escrow rt a) _ t₄ in
      let (_, t₆) = >>-eq-ok (check_log rt a) _ t₅ in
      let (before, sb, t₇) = >>=-eq-ok _ _ t₆ in
      let (s₁, called, t₈) = >>=-eq-ok _ _ t₇ in
      let (after, sa, t₉) = >>=-eq-ok _ _ t₈ in
      let (received, sub, u₁) = ok_or-eq-ok _ _ _ t₉ in
      let (slip, u₂) = require-eq-ok _ _ _ u₁ in
      let (nav, add, u₃) = ok_or-eq-ok _ _ _ u₂ in
      assemble perm before after received nav s₁ valid pos sb called sa sub slip add u₃
