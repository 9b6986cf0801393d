-- ===== src/Trade/Withdraw/Effect.antt =====
-- What a successful run of programs/hardig/src/instructions/withdraw.rs has done.
use hardig.Base.{
  ℕ, ◌-◌, ◌≤◌, ◌<◌, ◌≡◌, arith, true, Option, some, ltb, leb, ltb→lt, leb→le, checked_sub,
  checked_sub-eq-some, bit_or,
}
use hardig.Error.{Result, ok, >>=-eq-ok, >>-eq-ok, require-eq-ok, ok_or-eq-ok}
use hardig.Runtime.{Runtime, Store, Clock}
use hardig.State.{PositionState, KeyState, perm_sell, perm_limited_sell}
use hardig.KeyCheck.{validate_key}
use hardig.Mayflower.{read_deposited_shares}
use hardig.Trade.{
  TradeAccounts, touch, token_amount, close_if_initialized, check_key_state,
  check_personal_position, check_escrow, check_log,
}
use hardig.Trade.Draw.{touch_nav}
use hardig.Trade.Accounts.{withdraw_constraints}
use hardig.Trade.Withdraw.{sell_cpi, charge_sell, withdraw, withdraw_handler}

-- A key with one of the two permissions was shown, and the key state, if any, is its own; no more
-- was asked for than the shares that Mayflower holds; in the one call that was made the shares
-- went from `before` to `after`, and the base token account gained `min_out` at least; the limits
-- were charged with the shares sold, and the tracked deposit falls by them, to 0 at least. Of the
-- position nothing else changed but the admin's activity.
pub record Withdrawn (rt : Runtime) (clock : Clock) (a : TradeAccounts) (amount min_out : ℕ)
    (s : Store) (p' : PositionState) (ks' : Option KeyState) (s'' : Store) : Type 0 where
  pub permissions : ℕ
  pub validated :
      validate_key rt s a.signer a.key_asset a.position.authority_seed
        (bit_or perm_sell perm_limited_sell)
        a.config.collection
      ≡ ok permissions
  pub matched : check_key_state a ≡ ok tt
  pub positive : 0 < amount
  pub before : ℕ
  pub after : ℕ
  pub s' : Store
  pub shares_before : read_deposited_shares (s a.personal_position).bytes ≡ ok before
  pub covered : amount ≤ before
  pub called : rt.invoke (sell_cpi rt a amount) s ≡ ok s'
  pub shares_after : read_deposited_shares (s' a.personal_position).bytes ≡ ok after
  pub fallen : after ≤ before
  pub charged : charge_sell permissions a.key_state (before - after) clock.slot ≡ ok ks'
  pub received :
      min_out ≤ token_amount (s' a.user_wsol_ata).bytes - token_amount (s a.user_wsol_ata).bytes
  pub closed : close_if_initialized rt a a.user_wsol_ata s' ≡ ok s''
  pub position : p' ≡ record (touch clock a.key_asset a.position) {
    deposited_nav = a.position.deposited_nav - (before - after);
  }

module _ (rt : Runtime) (clock : Clock) (a : TradeAccounts) (amount min_out : ℕ) (s : Store)
    (p' : PositionState) (ks' : Option KeyState) (s'' : Store) where
  -- The parts of a run, put together.
  assemble :
      (perm held before after sold : ℕ) (ks : Option KeyState) (s₁ s₂ : Store)
      → validate_key rt s a.signer a.key_asset a.position.authority_seed
          (bit_or perm_sell perm_limited_sell)
          a.config.collection
        ≡ ok perm
      → check_key_state a ≡ ok tt
      → ltb 0 amount ≡ true
      → read_deposited_shares (s a.personal_position).bytes ≡ ok held
      → leb amount held ≡ true
      → read_deposited_shares (s a.personal_position).bytes ≡ ok before
      → rt.invoke (sell_cpi rt a amount) s ≡ ok s₁
      → read_deposited_shares (s₁ a.personal_position).bytes ≡ ok after
      → checked_sub before after ≡ some sold
      → charge_sell perm a.key_state sold clock.slot ≡ ok ks
      → leb min_out
          (token_amount (s₁ a.user_wsol_ata).bytes - token_amount (s a.user_wsol_ata).bytes)
        ≡ true
      → close_if_initialized rt a a.user_wsol_ata s₁ ≡ ok s₂
      → ◌≡◌ {A = Result (PositionState × Option KeyState × Store)}
          (ok (
            record (touch clock a.key_asset a.position) {
              deposited_nav = (touch clock a.key_asset a.position).deposited_nav - sold;
            },
            ks,
            s₂,
          ))
          (ok (p', ks', s''))
      → Withdrawn rt clock a amount min_out s p' ks' s''
  assemble perm held before after sold ks s₁ s₂ valid matched pos hb cover sb called sa sub charged
        slip closed e =
      let (fallen, difference) = checked_sub-eq-some before after sub in
      let same = touch_nav clock a.key_asset a.position in
      let one : held ≡ before = cc in
      record {
        permissions = perm;
        validated = valid;
        matched = matched;
        positive = ltb→lt 0 amount pos;
        before = before;
        after = after;
        s' = s₁;
        shares_before = sb;
        covered = omega (arith, leb→le amount held cover);
        called = called;
        shares_after = sa;
        fallen = fallen;
        charged = cc (charged, difference, e);
        received = leb→le _ _ slip;
        closed = cc (closed, e);
        position = ground (arith, same);
      }

  -- A withdrawal that succeeds was for a positive amount within the shares that Mayflower held,
  -- and was shown a key of the position with one of the two sell permissions, and no other
  -- key's limits. The shares did not rise over the one call, and the base token account gained
  -- the minimum asked for at least. The shares sold were charged to the key's limits and taken
  -- from the position's deposit, down to 0 at most. Nothing else of the position changed but,
  -- for the admin key, the time of its activity.
  pub withdraw_effect :
      withdraw rt clock a amount min_out s ≡ ok (p', ks', s'')
      → Withdrawn rt clock a amount min_out s p' ks' s''
  unfolding withdraw withdraw_handler
  withdraw_effect h =
      let (_, t₁) = >>-eq-ok (withdraw_constraints rt a) _ h in
      let (perm, valid, t₂) = >>=-eq-ok _ _ t₁ in
      let (matched, t₃) = >>-eq-ok (check_key_state a) _ t₂ in
      let (pos, t₄) = require-eq-ok _ _ _ t₃ in
      let (_, t₅) = >>-eq-ok (check_personal_position rt a) _ t₄ in
      let (_, t₆) = >>-eq-ok (check_escrow rt a) _ t₅ in
      let (_, t₇) = >>-eq-ok (check_log rt a) _ t₆ in
      let (held, hb, t₈) = >>=-eq-ok _ _ t₇ in
      let (cover, t₉) = require-eq-ok _ _ _ t₈ in
      let (before, sb, u₁) = >>=-eq-ok _ _ t₉ in
      let (s₁, called, u₂) = >>=-eq-ok _ _ u₁ in
      let (after, sa, u₃) = >>=-eq-ok _ _ u₂ in
      let (sold, sub, u₄) = ok_or-eq-ok _ _ _ u₃ in
      let (ks, charged, u₅) = >>=-eq-ok _ _ u₄ in
      let (slip, u₆) = require-eq-ok _ _ _ u₅ in
      let (s₂, closed, u₇) = >>=-eq-ok _ _ u₆ in
      assemble perm held before after sold ks s₁ s₂ valid matched pos hb cover sb called sa sub
        charged slip closed u₇
