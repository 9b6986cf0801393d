-- ===== src/Promo/Minted.antt =====
-- The key that programs/hardig/src/instructions/promo/claim_promo_key.rs mints.
use hardig.Base.{refl, none, some, ◌++◌, ◌≡◌, Option}
use hardig.Error.{ok, >>=-eq-ok}
use hardig.Runtime.{Runtime, Store, Text, codes, text_eq}
use hardig.State.{PromoConfig, perm_limited_sell, perm_limited_borrow}
use hardig.KeyCheck.{find_attribute}
use hardig.Decimal.{u8_text}
use hardig.Format.{metadata_uri, permission_attributes}
use hardig.Permissions.{has_any}
use hardig.Keys.{config_seeds}
use hardig.Keys.Minting.{Mints}
use hardig.Keys.Authorize.{limit_text}
use hardig.Promo.Claim.{claimed_attributes, non_empty, ClaimAccounts, claim_mint}

claimed_attributes-permissions :
    (promo : PromoConfig) (seed key : Text) (sell borrow : Option Text)
    → find_attribute (codes "permissions") (claimed_attributes promo seed key sell borrow)
      ≡ some (record { key = codes "permissions"; value = u8_text promo.permissions })
unfolding claimed_attributes permission_attributes find_attribute text_eq
claimed_attributes-permissions promo seed key sell borrow = refl

claimed_attributes-position :
    (promo : PromoConfig) (seed key : Text) (sell borrow : Option Text)
    → find_attribute (codes "position") (claimed_attributes promo seed key sell borrow)
      ≡ some (record { key = codes "position"; value = seed })
unfolding claimed_attributes permission_attributes find_attribute text_eq
claimed_attributes-position promo seed key sell borrow = refl

pub claim_mint-Mints :
    (rt : Runtime) (c : ClaimAccounts) (s s' : Store)
    → claim_mint rt c s ≡ ok s'
    → Mints rt c.collection c.trade.config_key c.trade.signer
        (config_seeds c.trade.config)
        c.trade.key_asset
        c.trade.signer
        c.promo.permissions
        c.trade.position.authority_seed
        s
        s'
unfolding claim_mint
claim_mint-Mints rt c s s' h =
    let name = codes "Härdig Key - " ++ c.promo.name_suffix in
    let (sell_limit, _, t₁) =
      >>=-eq-ok
        (limit_text (has_any c.promo.permissions perm_limited_sell) c.promo.sell_capacity
          c.promo.sell_refill_period (codes "navSOL"))
        _ h in
    let (borrow_limit, _, t₂) =
      >>=-eq-ok
        (limit_text (has_any c.promo.permissions perm_limited_borrow) c.promo.borrow_capacity
          c.promo.borrow_refill_period (codes "SOL"))
        _ t₁ in
    record {
      name = name;
      uri =
          metadata_uri name c.promo.permissions sell_limit borrow_limit
            (non_empty c.promo.market_name) none (non_empty c.promo.image_uri);
      attributes =
          claimed_attributes c.promo (rt.key_text c.trade.position.authority_seed)
            (rt.key_text c.promo_key) sell_limit borrow_limit;
      called = t₂;
      may = claimed_attributes-permissions c.promo _ _ _ _;
      bound = claimed_attributes-position c.promo _ _ _ _;
    }
