-- ===== src/Keys/Authorize/Minted.antt =====
-- What a successful run of programs/hardig/src/instructions/authorize_key.rs has done.
use hardig.Base.{
  ℕ, ◌==◌, ◌/=◌, bit_and, Option, ◌≡◌, ==→eq, ap, sym, ◌∙◌, refl, subst, arith, Bool, true, false,
  some, if◌then◌else◌,
}
use hardig.Error.{
  ok, >>=-eq-ok, >>-eq-ok, ok_or-eq-ok, require, constrain, constrain-true, ok_injective,
  invalid_key, invalid_key_role,
}
use hardig.Runtime.{Runtime, Store, Pubkey, Clock, Text, codes, text_eq}
use hardig.State.{
  PositionState, KeyState, KeyCreatorOrigin, allowed_permissions, perm_manage_keys,
  perm_limited_sell, perm_limited_borrow,
}
use hardig.Decimal.{u8_text}
use hardig.Permissions.{complement_u8, has_any, validate_limits, validate_delegated_permissions}
use hardig.KeyCheck.{validate_key, find_attribute}
use hardig.Artwork.{validate_artwork_receipt}
use hardig.Format.{metadata_uri, permission_attributes}
use hardig.Keys.{
  KeyAccounts, collection_constraints, init_constraint, config_seeds, create_key, nft_name,
  market_of,
}
use hardig.Keys.Minting.{Mints}
use hardig.Keys.Authorize.{
  Grant, authorize_key, authorize_handler, key_state_seeds, new_key_state, mint, full_bucket,
  limit_text, granted_attributes,
}

-- A key was delegated: a key with the right to manage keys was shown, the account of the limits
-- was not in use, the grant is one that an admin may make, the position has only its activity
-- changed, the key is minted for the target wallet, and its limits are those of the grant, on full
-- buckets, with nothing spent.
pub record Authorized (rt : Runtime) (clock : Clock) (a : KeyAccounts)
    (new_key_asset target_wallet key_state : Pubkey) (g : Grant) (s : Store) (p' : PositionState)
    (k : KeyState) (s' : Store) : Type 0 where
  pub permissions : ℕ
  pub validated :
      validate_key rt s a.payer a.key_asset a.position.authority_seed perm_manage_keys
        a.config.collection
      ≡ ok permissions
  pub fresh : (s key_state).owner ≡ rt.system_id
  pub delegable :
      validate_delegated_permissions KeyCreatorOrigin.admin g.permissions g.sell_bucket_capacity
        g.sell_refill_period_slots g.borrow_bucket_capacity g.borrow_refill_period_slots
        g.total_sell_limit g.total_borrow_limit
      ≡ ok tt
  pub position : p' ≡ record (a.position) { last_admin_activity = clock.unix_timestamp }
  pub minted :
      Mints rt a.collection a.config_key a.payer
        (config_seeds a.config)
        new_key_asset
        target_wallet
        g.permissions
        a.position.authority_seed
        s
        s'
  pub limits : k ≡ record {
    authority_seed = a.position.authority_seed;
    asset = new_key_asset;
    bump = (rt.find_program_address (key_state_seeds new_key_asset) rt.program_id).1;
    sell_bucket = record {
      capacity = g.sell_bucket_capacity;
      refill_period = g.sell_refill_period_slots;
      level = g.sell_bucket_capacity;
      last_update = if has_any g.permissions perm_limited_sell then clock.slot else 0;
    };
    borrow_bucket = record {
      capacity = g.borrow_bucket_capacity;
      refill_period = g.borrow_refill_period_slots;
      level = g.borrow_bucket_capacity;
      last_update = if has_any g.permissions perm_limited_borrow then clock.slot else 0;
    };
    total_sell_limit = g.total_sell_limit;
    total_sold = 0;
    total_borrow_limit = g.total_borrow_limit;
    total_borrowed = 0;
  }

-- A bucket that fits its permission is full, and where the permission is missing it is empty.
full_bucket-fits :
    (limited : Bool) (capacity refill_period total slot : ℕ)
    → validate_limits limited capacity refill_period total ≡ ok tt
    → full_bucket limited capacity refill_period slot ≡ record {
      capacity = capacity;
      refill_period = refill_period;
      level = capacity;
      last_update = if limited then slot else 0;
    }
unfolding full_bucket validate_limits
full_bucket-fits true capacity refill_period total slot h = refl
full_bucket-fits false capacity refill_period total slot h = ground (arith, h)

-- The two limits that an accepted request has.
limits_fit :
    (p sc sr bc br ts tb : ℕ)
    → validate_delegated_permissions KeyCreatorOrigin.admin p sc sr bc br ts tb ≡ ok tt
    → (validate_limits (has_any p perm_limited_sell) sc sr ts ≡ ok tt)
      × (validate_limits (has_any p perm_limited_borrow) bc br tb ≡ ok tt)
unfolding validate_delegated_permissions
limits_fit p sc sr bc br ts tb h =
    let (_, t₁) = >>-eq-ok (require (p /= 0) invalid_key_role) _ h in
    let (_, t₂) =
      >>-eq-ok
        (require (bit_and p (complement_u8 (allowed_permissions KeyCreatorOrigin.admin)) == 0)
          invalid_key_role)
        _ t₁ in
    >>-eq-ok (validate_limits (has_any p perm_limited_sell) sc sr ts) _ t₂

granted_attributes-permissions :
    (g : Grant) (seed admin market : Text) (sell borrow : Option Text)
    → find_attribute (codes "permissions") (granted_attributes g seed admin market sell borrow)
      ≡ some (record { key = codes "permissions"; value = u8_text g.permissions })
unfolding granted_attributes permission_attributes find_attribute text_eq
granted_attributes-permissions g seed admin market sell borrow = refl

granted_attributes-position :
    (g : Grant) (seed admin market : Text) (sell borrow : Option Text)
    → find_attribute (codes "position") (granted_attributes g seed admin market sell borrow)
      ≡ some (record { key = codes "position"; value = seed })
unfolding granted_attributes permission_attributes find_attribute text_eq
granted_attributes-position g seed admin market sell borrow = refl

mint-Mints :
    (rt : Runtime) (clock : Clock) (a : KeyAccounts) (new_key_asset target_wallet : Pubkey)
    (g : Grant) (s s' : Store)
    → mint rt clock a new_key_asset target_wallet g s ≡ ok s'
    → Mints rt a.collection a.config_key a.payer
        (config_seeds a.config)
        new_key_asset
        target_wallet
        g.permissions
        a.position.authority_seed
        s
        s'
unfolding mint create_key
mint-Mints rt clock a new_key_asset target_wallet g s s' h =
    let (admin_name, _, t₁) = ok_or-eq-ok (rt.asset_name (s a.key_asset).bytes) invalid_key _ h in
    let (admin_attributes, _, t₂) =
      ok_or-eq-ok (rt.fetch_attributes (s a.key_asset)) invalid_key _ t₁ in
    let (image, _, t₃) =
      >>=-eq-ok
        (validate_artwork_receipt rt s a.position.artwork_id a.remaining_accounts
          a.position.authority_seed rt.program_id (some (1, g.permissions)) true)
        _ t₂ in
    let (sell_limit, _, t₄) =
      >>=-eq-ok
        (limit_text (has_any g.permissions perm_limited_sell) g.sell_bucket_capacity
          g.sell_refill_period_slots (codes "navSOL"))
        _ t₃ in
    let (borrow_limit, _, t₅) =
      >>=-eq-ok
        (limit_text (has_any g.permissions perm_limited_borrow) g.borrow_bucket_capacity
          g.borrow_refill_period_slots (codes "SOL"))
        _ t₄ in
    let (name, _, t₆) = >>=-eq-ok (nft_name (codes "Härdig Key") g.name) _ t₅ in
    record {
      name = name;
      uri =
          metadata_uri name g.permissions sell_limit borrow_limit
            (some (market_of admin_attributes)) (some admin_name) image;
      attributes =
          granted_attributes g (rt.key_text a.position.authority_seed) admin_name
            (market_of admin_attributes) sell_limit borrow_limit;
      called = t₆;
      may = granted_attributes-permissions g _ _ _ _ _;
      bound = granted_attributes-position g _ _ _ _ _;
    }

module _ (rt : Runtime) (clock : Clock) (a : KeyAccounts)
    (new_key_asset target_wallet key_state : Pubkey) (g : Grant) (s : Store) (p' : PositionState)
    (k : KeyState) (s' : Store) where
  -- A delegation that succeeds was shown a key of the position that may manage keys, found the
  -- account for the limits unused, and was asked for permissions and limits that an admin may
  -- grant. The position has only its time of activity changed, and the limits are those asked
  -- for, on full buckets, with nothing spent; a key that carries the permissions asked for and the
  -- position's address is minted for the target wallet by the last call.
  pub authorize_effect :
      authorize_key rt clock a new_key_asset target_wallet key_state g s ≡ ok (p', k, s')
      → Authorized rt clock a new_key_asset target_wallet key_state g s p' k s'
  unfolding authorize_key authorize_handler init_constraint new_key_state
  authorize_effect h =
      let (init, t₁) =
        >>-eq-ok (init_constraint rt s (key_state_seeds new_key_asset) key_state) _ h in
      let (_, free) =
        >>-eq-ok
          (constrain (
            key_state == (rt.find_program_address (key_state_seeds new_key_asset) rt.program_id).0))
          _ init in
      let (_, t₂) = >>-eq-ok (collection_constraints rt a) _ t₁ in
      let (perm, valid, t₃) =
        >>=-eq-ok
          (validate_key rt s a.payer a.key_asset a.position.authority_seed perm_manage_keys
            a.config.collection)
          _ t₂ in
      let (delegable, t₄) =
        >>-eq-ok
          (validate_delegated_permissions KeyCreatorOrigin.admin g.permissions
            g.sell_bucket_capacity g.sell_refill_period_slots g.borrow_bucket_capacity
            g.borrow_refill_period_slots g.total_sell_limit g.total_borrow_limit)
          _ t₃ in
      let (s₁, call, t₅) = >>=-eq-ok (mint rt clock a new_key_asset target_wallet g s) _ t₄ in
      let fit = limits_fit _ _ _ _ _ _ _ delegable in
      record {
        permissions = perm;
        validated = valid;
        fresh = ==→eq (s key_state).owner rt.system_id (constrain-true _ free);
        delegable = delegable;
        position = sym (ap (λ r. r.0) (ok_injective t₅));
        minted =
            subst
              (Mints rt a.collection a.config_key a.payer (config_seeds a.config) new_key_asset
                target_wallet g.permissions a.position.authority_seed s)
              (ap (λ r. r.2) (ok_injective t₅))
              (mint-Mints rt clock a new_key_asset target_wallet g s s₁ call);
        limits =
            sym (ap (λ r. r.1) (ok_injective t₅))
            ∙ ap
                (λ b. record (new_key_state rt clock new_key_asset a.position.authority_seed g) {
                  sell_bucket = b;
                })
                (full_bucket-fits _ _ _ _ _ fit.0)
            ∙ ap
                (λ b. record (new_key_state rt clock new_key_asset a.position.authority_seed g) {
                  sell_bucket = record {
                    capacity = g.sell_bucket_capacity;
                    refill_period = g.sell_refill_period_slots;
                    level = g.sell_bucket_capacity;
                    last_update = if has_any g.permissions perm_limited_sell then clock.slot else 0;
                  };
                  borrow_bucket = b;
                })
                (full_bucket-fits _ _ _ _ _ fit.1);
      }
