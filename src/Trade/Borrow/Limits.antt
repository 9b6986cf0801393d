-- ===== src/Trade/Borrow/Limits.antt =====
-- The limits of a key that may borrow only within them, in
-- programs/hardig/src/instructions/borrow.rs.
use hardig.Base.{
  ℕ, ◌-◌, ◌<◌, ◌≡◌, ◌||◌, refl, sym, ap, subst, ◌∙◌, arith, true, Option, none, some, ◌==◌, bit_or,
  bit_and,
}
use hardig.Error.{ok, >>=-eq-ok}
use hardig.Error.{ok_injective}
use hardig.Runtime.{Runtime, Store, Clock}
use hardig.State.{PositionState, KeyState, perm_borrow, perm_limited_borrow}
use hardig.Decimal.{all_below, all_below_sound}
use hardig.Permissions.{has_any, not_any}
use hardig.RateLimit.{consume_rate_limit, consume_total_limit}
use hardig.KeyCheck.{validate_key}
use hardig.KeyCheck.Sound.{validate_key_grants}
use hardig.Trade.{TradeAccounts}
use hardig.Trade.Draw.{Drawn, Drawn-of_consume, matched_asset}
use hardig.Trade.Borrow.{charge_borrow, borrow}
use hardig.Trade.Borrow.Effect.{borrow_effect}

-- Among the two permissions the one without limits is missing, so the limited one is there.
limited_table :
    all_below 256 (λ p.
      (bit_and p (bit_or perm_borrow perm_limited_borrow) == 0)
      || ((has_any p perm_borrow) || (has_any p perm_limited_borrow)))
    ≡ true
unfolding all_below
limited_table = refl

limited_of_not_borrow :
    (p : ℕ)
    → p < 256
    → has_any p (bit_or perm_borrow perm_limited_borrow) ≡ true
    → not_any p perm_borrow ≡ true
    → has_any p perm_limited_borrow ≡ true
limited_of_not_borrow p h some_bit plain = ground (arith, all_below_sound 256 _ p limited_table h)

-- What the charge of a limited key has drawn, on its own key state.
pub charge_borrow-Drawn :
    (p x slot : ℕ) (key_state key_state' : Option KeyState)
    → not_any p perm_borrow ≡ true
    → has_any p perm_limited_borrow ≡ true
    → charge_borrow p key_state x slot ≡ ok key_state'
    → (ks ks' : KeyState) × (key_state ≡ some ks)
      × (key_state' ≡ some ks')
      × Drawn x slot ks.borrow_bucket ks'.borrow_bucket ks.total_borrow_limit ks.total_borrowed
          ks'.total_borrowed
      × (ks' ≡ record ks { borrow_bucket = ks'.borrow_bucket; total_borrowed = ks'.total_borrowed })
unfolding charge_borrow
charge_borrow-Drawn p x slot none key_state' plain limited h = ground arith
charge_borrow-Drawn p x slot (some ks) key_state' plain limited h =
    let (b, granted, h₁) =
      >>=-eq-ok (consume_rate_limit ks.borrow_bucket x slot) _ (rw (plain, limited) at h) in
    let (total, counted, h₂) =
      >>=-eq-ok (consume_total_limit ks.total_borrowed ks.total_borrow_limit x) _ h₁ in
    let ks' : KeyState = record ks { borrow_bucket = b; total_borrowed = total } in
    (
      ks,
      ks',
      refl,
      sym (ok_injective h₂),
      Drawn-of_consume x slot ks.borrow_bucket b ks.total_borrow_limit ks.total_borrowed total
          granted counted,
      refl,
    )

module _ (rt : Runtime) (clock : Clock) (a : TradeAccounts) (amount : ℕ) (s : Store)
    (p' : PositionState) (key_state' : Option KeyState) (s' : Store) (perm : ℕ) where
  -- A key without the unlimited permission that borrows has shown its own key state; the debt that
  -- the position took on was available in the bucket at this slot and is taken from it, and with a
  -- lifetime cap it is counted and the count stays within the cap.
  pub limited_borrow_bounded :
      validate_key rt s a.signer a.key_asset a.position.authority_seed
          (bit_or perm_borrow perm_limited_borrow)
          a.config.collection
        ≡ ok perm
      → not_any perm perm_borrow ≡ true
      → borrow rt clock a amount s ≡ ok (p', key_state', s')
      → (ks ks' : KeyState) × (a.key_state ≡ some ks)
        × (ks.asset ≡ a.key_asset)
        × (key_state' ≡ some ks')
        × Drawn
            (p'.user_debt - a.position.user_debt)
            clock.slot
            ks.borrow_bucket
            ks'.borrow_bucket
            ks.total_borrow_limit
            ks.total_borrowed
            ks'.total_borrowed
  limited_borrow_bounded valid plain h =
      let e = borrow_effect rt clock a amount s p' key_state' s' h in
      let same : e.permissions ≡ perm = ok_injective (sym e.validated ∙ valid) in
      let (small, either) =
        validate_key_grants rt s a.signer a.key_asset a.position.authority_seed
          (bit_or perm_borrow perm_limited_borrow) a.config.collection perm valid in
      let (ks, ks', old, new, drawn, _) =
        charge_borrow-Drawn perm (e.after - e.before) clock.slot a.key_state key_state' plain
          (limited_of_not_borrow perm small either plain) (rw same at e.charged) in
      let growth : e.after - e.before ≡ p'.user_debt - a.position.user_debt =
        omega (arith, ap (λ (q : PositionState). q.user_debt) e.position) in
      (
        ks,
        ks',
        old,
        matched_asset a ks old e.matched,
        new,
        subst
            (λ x.
              Drawn x clock.slot ks.borrow_bucket ks'.borrow_bucket ks.total_borrow_limit
                ks.total_borrowed ks'.total_borrowed)
            growth drawn,
      )
