-- ===== src/Trade/Withdraw/Limits.antt =====
-- The limits of a key that may sell only within them, in
-- programs/hardig/src/instructions/withdraw.rs.
use hardig.Base.{
  ℕ, ◌-◌, ◌<◌, ◌≡◌, ◌||◌, refl, sym, ◌∙◌, arith, true, Option, none, some, ◌==◌, bit_or, bit_and,
}
use hardig.Error.{ok, >>=-eq-ok}
use hardig.Error.{ok_injective}
use hardig.Runtime.{Runtime, Store, Clock}
use hardig.State.{PositionState, KeyState, perm_sell, perm_limited_sell}
use hardig.Decimal.{all_below, all_below_sound}
use hardig.Permissions.{has_any, not_any}
use hardig.RateLimit.{consume_rate_limit, consume_total_limit}
use hardig.KeyCheck.{validate_key}
use hardig.KeyCheck.Sound.{validate_key_grants}
use hardig.Trade.{TradeAccounts}
use hardig.Mayflower.{read_deposited_shares}
use hardig.Trade.Draw.{Drawn, Drawn-of_consume, matched_asset}
use hardig.Trade.Withdraw.{sell_cpi, charge_sell, withdraw}
use hardig.Trade.Withdraw.Effect.{withdraw_effect}

-- Among the two permissions the one without limits is missing, so the limited one is there.
limited_table :
    all_below 256 (λ p.
      (bit_and p (bit_or perm_sell perm_limited_sell) == 0)
      || ((has_any p perm_sell) || (has_any p perm_limited_sell)))
    ≡ true
unfolding all_below
limited_table = refl

limited_of_not_sell :
    (p : ℕ)
    → p < 256
    → has_any p (bit_or perm_sell perm_limited_sell) ≡ true
    → not_any p perm_sell ≡ true
    → has_any p perm_limited_sell ≡ true
limited_of_not_sell p h some_bit plain = ground (arith, all_below_sound 256 _ p limited_table h)

-- What the charge of a limited key has drawn, on its own key state.
pub charge_sell-Drawn :
    (p x slot : ℕ) (key_state key_state' : Option KeyState)
    → not_any p perm_sell ≡ true
    → has_any p perm_limited_sell ≡ true
    → charge_sell p key_state x slot ≡ ok key_state'
    → (ks ks' : KeyState) × (key_state ≡ some ks)
      × (key_state' ≡ some ks')
      × Drawn x slot ks.sell_bucket ks'.sell_bucket ks.total_sell_limit ks.total_sold ks'.total_sold
      × (ks' ≡ record ks { sell_bucket = ks'.sell_bucket; total_sold = ks'.total_sold })
unfolding charge_sell
charge_sell-Drawn p x slot none key_state' plain limited h = ground arith
charge_sell-Drawn p x slot (some ks) key_state' plain limited h =
    let (b, granted, h₁) =
      >>=-eq-ok (consume_rate_limit ks.sell_bucket x slot) _ (rw (plain, limited) at h) in
    let (total, counted, h₂) =
      >>=-eq-ok (consume_total_limit ks.total_sold ks.total_sell_limit x) _ h₁ in
    let ks' : KeyState = record ks { sell_bucket = b; total_sold = total } in
    (
      ks,
      ks',
      refl,
      sym (ok_injective h₂),
      Drawn-of_consume x slot ks.sell_bucket b ks.total_sell_limit ks.total_sold total granted
          counted,
      refl,
    )

module _ (rt : Runtime) (clock : Clock) (a : TradeAccounts) (amount min_out : ℕ) (s : Store)
    (p' : PositionState) (key_state' : Option KeyState) (s' : Store) (perm : ℕ) where
  -- A key without the unlimited permission that sells has shown its own key state; the shares that
  -- Mayflower gave up were available in the bucket at this slot and are taken from it, and with a
  -- lifetime cap they are counted and the count stays within the cap.
  pub limited_withdraw_bounded :
      validate_key rt s a.signer a.key_asset a.position.authority_seed
          (bit_or perm_sell perm_limited_sell)
          a.config.collection
        ≡ ok perm
      → not_any perm perm_sell ≡ true
      → withdraw rt clock a amount min_out s ≡ ok (p', key_state', s')
      → (ks ks' : KeyState) × (a.key_state ≡ some ks)
        × (ks.asset ≡ a.key_asset)
        × (key_state' ≡ some ks')
        × ((before after : ℕ) × (s₁ : Store) × (read_deposited_shares (s a.personal_position).bytes
              ≡ ok before)
            × (rt.invoke (sell_cpi rt a amount) s ≡ ok s₁)
            × (read_deposited_shares (s₁ a.personal_position).bytes ≡ ok after)
            × Drawn
                (before - after)
                clock.slot
                ks.sell_bucket
                ks'.sell_bucket
                ks.total_sell_limit
                ks.total_sold
                ks'.total_sold)
  limited_withdraw_bounded valid plain h =
      let e = withdraw_effect rt clock a amount min_out s p' key_state' s' h in
      let same : e.permissions ≡ perm = ok_injective (sym e.validated ∙ valid) in
      let (small, either) =
        validate_key_grants rt s a.signer a.key_asset a.position.authority_seed
          (bit_or perm_sell perm_limited_sell) a.config.collection perm valid in
      let (ks, ks', old, new, drawn, _) =
        charge_sell-Drawn perm (e.before - e.after) clock.slot a.key_state key_state' plain
          (limited_of_not_sell perm small either plain) (rw same at e.charged) in
      (
        ks,
        ks',
        old,
        matched_asset a ks old e.matched,
        new,
        (e.before, e.after, e.s', e.shares_before, e.called, e.shares_after, drawn),
      )
