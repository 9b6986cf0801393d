-- ===== src/Promo/Claims.antt =====
-- Successful claims (programs/hardig/src/instructions/promo/claim_promo_key.rs), and promotions
-- under claims and updates (promo/update_promo.rs) as a step relation.
use native.Mathlib.Nat.{div-le_of_le-mul, mod-eq_of_lt}
use hardig.Base.{
  ◌%◌, ℕ, ◌+◌, ◌*◌, ◌/◌, ◌≤◌, ◌<◌, ◌≡◌, ◌⊎◌, sym, ap, subst, ◌∙◌, arith, Bool, true, false, Option,
  ltb, leb, ==→eq, leb→le, ◌==◌, if◌then◌else◌, checked_add, checked_add-eq-some, u32_mod, u64_mod,
}
use hardig.Error.{
  ok, >>=-eq-ok, >>-eq-ok, ok_or-eq-ok, require, require-true, ok_injective, promo_inactive,
  promo_max_claims_reached, invalid_key, insufficient_funds,
}
use hardig.Runtime.{Runtime, Store, Pubkey, Clock}
use hardig.State.{PromoConfig, perm_manage_keys, perm_limited_sell, perm_limited_borrow}
use hardig.RateLimit.Bounds.{IsValid}
use hardig.KeyCheck.{validate_key}
use hardig.Trade.Accounts.{config_constraint}
use hardig.Keys.{KeyAccounts}
use hardig.Promo.{update_promo, set_active, set_max_claims, promo_constraint}
use hardig.Permissions.{has_any}
use hardig.Keys.{config_seeds}
use hardig.Keys.Minting.{Mints}
use hardig.Keys.Authorize.{key_state_seeds}
use hardig.Promo.Deposit.{Deposited, deposit_effect}
use hardig.Promo.Minted.{claim_mint-Mints}
use hardig.Promo.Claim.{
  ClaimAccounts, Claim, claim_promo_key, claim_handler, claim_constraints, claim_mint,
  claim_deposit, claimed_key_state, claimed_bucket, initial_level,
}

-- The bucket of a claimed key begins within its capacity, at the configured share of it.
pub claimed_bucket-IsValid :
    (limited : Bool) (bps capacity period slot : ℕ)
    → bps ≤ 10_000
    → capacity < u64_mod
    → IsValid (claimed_bucket limited bps capacity period slot)
unfolding claimed_bucket initial_level
claimed_bucket-IsValid false bps capacity period slot h k = record {
  capacity_fits = omega arith;
  level_capped = omega arith;
}
claimed_bucket-IsValid true bps capacity period slot h k =
    let share : capacity * bps / 10_000 ≤ capacity = div-le_of_le-mul 10_000 (grind arith) in
    record {
      capacity_fits = k;
      level_capped = omega (
        arith,
        share,
        mod-eq_of_lt {n = capacity * bps / 10_000} {m = u64_mod} (omega (arith, share)),
      );
    }

-- A key was claimed: the promotion was active and not exhausted, it is one of the position, the
-- deposit was large enough, the claim is counted, and the key's limits are those of the promotion.
pub record Claimed (rt : Runtime) (clock : Clock) (c : ClaimAccounts) (amount : ℕ) (s : Store)
    (r : Claim) (s' : Store) : Type 0 where
  pub active : c.promo.active ≡ true
  pub left : (c.promo.max_claims ≡ 0) ⊎ (c.promo.claims_count < c.promo.max_claims)
  pub own : c.trade.position.authority_seed ≡ c.promo.authority_seed
  pub paid : c.promo.min_deposit_lamports ≤ amount
  pub counted : r.promo ≡ record (c.promo) { claims_count = c.promo.claims_count + 1 }
  pub receipt : (r.receipt.claimer ≡ c.trade.signer) × (r.receipt.promo ≡ c.promo_key)
  pub limits : r.key_state ≡ record {
    authority_seed = c.trade.position.authority_seed;
    asset = c.trade.key_asset;
    bump = (rt.find_program_address (key_state_seeds c.trade.key_asset) rt.program_id).1;
    sell_bucket =
        if has_any c.promo.permissions perm_limited_sell
        then record {
          capacity = c.promo.sell_capacity;
          refill_period = c.promo.sell_refill_period;
          level = c.promo.sell_capacity * c.promo.initial_fill_bps / 10_000 % u64_mod;
          last_update = clock.slot;
        }
        else record { capacity = 0; refill_period = 0; level = 0; last_update = 0 };
    borrow_bucket =
        if has_any c.promo.permissions perm_limited_borrow
        then record {
          capacity = c.promo.borrow_capacity;
          refill_period = c.promo.borrow_refill_period;
          level = c.promo.borrow_capacity * c.promo.initial_fill_bps / 10_000 % u64_mod;
          last_update = clock.slot;
        }
        else record { capacity = 0; refill_period = 0; level = 0; last_update = 0 };
    total_sell_limit = c.promo.total_sell_limit;
    total_sold = 0;
    total_borrow_limit = c.promo.total_borrow_limit;
    total_borrowed = 0;
  }
  pub s₁ : Store
  pub minted :
      Mints rt c.collection c.trade.config_key c.trade.signer
        (config_seeds c.trade.config)
        c.trade.key_asset
        c.trade.signer
        c.promo.permissions
        c.trade.position.authority_seed
        s
        s₁
  pub deposit :
      ((amount ≡ 0) × (r.position ≡ c.trade.position) × (s' ≡ s₁))
      ⊎ Deposited rt c.trade amount s₁ r.position s'

not_exhausted :
    (max count : ℕ) → (if ltb 0 max then ltb count max else true) ≡ true → (max ≡ 0) ⊎ (count < max)
not_exhausted max count h = ground arith

module _ (rt : Runtime) (clock : Clock) (c : ClaimAccounts) (amount : ℕ) (s : Store) (r : Claim)
    (s' : Store) where
  -- A claim that succeeds found the promotion active, of this position and not exhausted, and a
  -- deposit of the minimum at least. It counts one claim more and changes nothing else of the
  -- promotion, writes a receipt for the claimer, and mints for the claimer a key that carries the
  -- promotion's permissions and the position's address. The key's limits are the promotion's, each
  -- bucket filled to the promotion's share and empty where its permission is missing, with nothing
  -- spent. A deposit of nothing leaves the position as it was; any other adds to it the shares that
  -- Mayflower added for it, and nothing else of it changes.
  pub claim_effect :
      claim_promo_key rt clock c amount s ≡ ok (r, s') → Claimed rt clock c amount s r s'
  unfolding claim_promo_key claim_handler claimed_key_state claimed_bucket initial_level
  claim_effect h =
      let (_, t₁) = >>-eq-ok (claim_constraints rt c s) _ h in
      let (active, t₂) = >>-eq-ok (require c.promo.active promo_inactive) _ t₁ in
      let (left, t₃) =
        >>-eq-ok
          (require
            (if ltb 0 c.promo.max_claims then ltb c.promo.claims_count c.promo.max_claims else true)
            promo_max_claims_reached)
          _ t₂ in
      let (own, t₄) =
        >>-eq-ok (require (c.trade.position.authority_seed == c.promo.authority_seed) invalid_key) _
          t₃ in
      let (paid, t₅) =
        >>-eq-ok (require (leb c.promo.min_deposit_lamports amount) insufficient_funds) _ t₄ in
      let (s₁, minted, t₆) = >>=-eq-ok (claim_mint rt c s) _ t₅ in
      let (count, sum, t₇) =
        ok_or-eq-ok (checked_add u32_mod c.promo.claims_count 1) promo_max_claims_reached _ t₆ in
      let ((p₁, s₂), deposited, t₈) = >>=-eq-ok (claim_deposit rt c.trade amount s₁) _ t₇ in
      let e = ap (λ x. x.0) (ok_injective t₈) in
      let (_, exact) = checked_add-eq-some u32_mod c.promo.claims_count 1 sum in
      record {
        active = require-true _ _ active;
        left = not_exhausted c.promo.max_claims c.promo.claims_count (require-true _ _ left);
        own = ==→eq c.trade.position.authority_seed c.promo.authority_seed (require-true _ _ own);
        paid = leb→le c.promo.min_deposit_lamports amount (require-true _ _ paid);
        counted =
            sym (ap (λ (x : Claim). x.promo) e)
            ∙ ap (λ n. record (c.promo) { claims_count = n }) exact;
        receipt = (
          sym (ap (λ (x : Claim). x.receipt.claimer) e),
          sym (ap (λ (x : Claim). x.receipt.promo) e),
        );
        limits = sym (ap (λ (x : Claim). x.key_state) e);
        s₁ = s₁;
        minted = claim_mint-Mints rt c s s₁ minted;
        deposit =
            deposit_effect rt c.trade amount s₁ r.position s'
              (deposited ∙ ap (λ (x : Claim × Store). ok (x.0.position, x.1)) (ok_injective t₈));
      }

-- One instruction that writes a promotion. The index counts the keys that it hands out.
module _ (rt : Runtime) where
  pub data PromoStep : ℕ → PromoConfig → PromoConfig → Type 0 where
    update :
        (a : KeyAccounts) (key : Pubkey) (active : Option Bool) (max_claims : Option ℕ) (s : Store)
        (promo promo' : PromoConfig)
        → update_promo rt a key promo active max_claims s ≡ ok promo'
        → PromoStep 0 promo promo'
    claim :
        (clock : Clock) (c : ClaimAccounts) (amount : ℕ) (s s' : Store) (r : Claim)
        → claim_promo_key rt clock c amount s ≡ ok (r, s')
        → PromoStep 1 c.promo r.promo

  -- Any number of them, with all the keys that they hand out.
  pub data PromoSteps : ℕ → PromoConfig → PromoConfig → Type 0 where
    stay : (promo : PromoConfig) → PromoSteps 0 promo promo
    step :
        (n k : ℕ) (p q r : PromoConfig)
        → PromoStep n p q
        → PromoSteps k q r
        → PromoSteps (n + k) p r

-- The claims are within the maximum, where there is one.
abbrev pub WithinClaims : PromoConfig → Type 0
WithinClaims promo = (promo.max_claims ≡ 0) ⊎ (promo.claims_count ≤ promo.max_claims)

-- The terms of a promotion, all but its state: the claims, their maximum, and whether it is active.
pub record SameTerms (p q : PromoConfig) : Type 0 where
  pub authority_seed : q.authority_seed ≡ p.authority_seed
  pub permissions : q.permissions ≡ p.permissions
  pub borrow_capacity : q.borrow_capacity ≡ p.borrow_capacity
  pub sell_capacity : q.sell_capacity ≡ p.sell_capacity
  pub total_borrow_limit : q.total_borrow_limit ≡ p.total_borrow_limit
  pub total_sell_limit : q.total_sell_limit ≡ p.total_sell_limit
  pub min_deposit_lamports : q.min_deposit_lamports ≡ p.min_deposit_lamports
  pub borrow_refill_period : q.borrow_refill_period ≡ p.borrow_refill_period
  pub sell_refill_period : q.sell_refill_period ≡ p.sell_refill_period
  pub initial_fill_bps : q.initial_fill_bps ≡ p.initial_fill_bps
  pub name_suffix : q.name_suffix ≡ p.name_suffix
  pub image_uri : q.image_uri ≡ p.image_uri
  pub market_name : q.market_name ≡ p.market_name
  pub bump : q.bump ≡ p.bump

module _ (rt : Runtime) where
  update_changes :
      (promo promo' : PromoConfig) (active : Option Bool) (max_claims : Option ℕ)
      → WithinClaims promo
      → set_max_claims max_claims (set_active active promo) ≡ ok promo'
      → (promo'.claims_count ≡ promo.claims_count) × WithinClaims promo' × SameTerms promo promo'
  unfolding set_max_claims set_active
  update_changes promo promo' active max_claims w h = ground arith

  update_effect :
      (a : KeyAccounts) (key : Pubkey) (active : Option Bool) (max_claims : Option ℕ) (s : Store)
      (promo promo' : PromoConfig)
      → update_promo rt a key promo active max_claims s ≡ ok promo'
      → set_max_claims max_claims (set_active active promo) ≡ ok promo'
  unfolding update_promo
  update_effect a key active max_claims s promo promo' h =
      let (_, t₁) = >>-eq-ok (promo_constraint rt key a.position.authority_seed promo) _ h in
      let (_, t₂) =
        >>-eq-ok (require (promo.authority_seed == a.position.authority_seed) invalid_key) _ t₁ in
      let (_, t₃) = >>-eq-ok (config_constraint rt a.config_key a.config) _ t₂ in
      let (_, _, t₄) =
        >>=-eq-ok
          (validate_key rt s a.payer a.key_asset a.position.authority_seed perm_manage_keys
            a.config.collection)
          _ t₃ in
      t₄

  claim_changes :
      (promo promo' : PromoConfig)
      → (promo.max_claims ≡ 0) ⊎ (promo.claims_count < promo.max_claims)
      → promo' ≡ record promo { claims_count = promo.claims_count + 1 }
      → (promo'.claims_count ≡ promo.claims_count + 1)
        × WithinClaims promo'
        × SameTerms promo promo'
  claim_changes promo promo' left e =
      subst (λ p. (p.claims_count ≡ promo.claims_count + 1) × WithinClaims p × SameTerms promo p)
        (sym e) (ground arith)

  step_changes :
      (n : ℕ) (p q : PromoConfig)
      → WithinClaims p
      → PromoStep rt n p q
      → (q.claims_count ≡ p.claims_count + n) × WithinClaims q × SameTerms p q
  step_changes _ p q w (update a key active max_claims s _ _ h) =
      let (count, within, same) =
        update_changes p q active max_claims w (update_effect a key active max_claims s p q h) in
      (omega arith, within, same)
  step_changes _ _ _ w (claim clock c amount s s' r h) =
      let e = claim_effect rt clock c amount s r s' h in
      claim_changes c.promo r.promo e.left e.counted

  SameTerms-trans : (p q r : PromoConfig) → SameTerms p q → SameTerms q r → SameTerms p r
  SameTerms-trans p q r a b = ground arith

  -- Whatever the admin updates and whoever claims, in any order, from a promotion whose count is
  -- within its maximum: the counter counts every key handed out, it stays within the maximum that
  -- is then in force (0 is no maximum), and every other term of the promotion, but whether it is
  -- active, is what it was.
  pub claims_counted :
      (n : ℕ) (p q : PromoConfig)
      → WithinClaims p
      → PromoSteps rt n p q
      → (q.claims_count ≡ p.claims_count + n) × WithinClaims q × SameTerms p q
  claims_counted _ p _ w (stay _) = ground arith
  claims_counted _ p r w (step n k _ q _ one rest) =
      let (count, within, same) = step_changes n p q w one in
      let (counts, within', same') = claims_counted k q r within rest in
      (omega arith, within', SameTerms-trans p q r same same')
