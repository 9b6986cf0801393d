-- ===== src/Recovery/Replaced.antt =====
-- The holder of a recovery key, and the calls that replace the keys of a position, in
-- programs/hardig/src/instructions/execute_recovery.rs.
use hardig.Base.{
  ◌≡◌, ◌≤◌, refl, ap, ◌∙◌, none, some, List, ◌∷◌, ◌++◌, length, get_or, slice, from_le_bytes, ltb,
  leb, leb→le, ◌==◌, ==→eq,
}
use hardig.Error.{ok, >>=-eq-ok, >>-eq-ok, ok_or-eq-ok, require, require-true, invalid_key}
use hardig.Runtime.{Runtime, Store, Pubkey, Bytes, Text, Clock, Attribute, codes, text_eq}
use hardig.State.{preset_admin}
use hardig.Decimal.{u8_text}
use hardig.KeyCheck.{find_attribute}
use hardig.Format.{metadata_uri, attribute, permission_attributes}
use hardig.Keys.{KeyAccounts, config_seeds, create_key, burn_key, market_of}
use hardig.Keys.Minting.{Mints, Burns}
use hardig.Recovery.Execute.{check_holder, replace_keys, market_attribute, market_option}

-- The bytes of a key that its holder shows.
pub check_holder-bytes :
    (rt : Runtime) (holder : Pubkey) (bytes : Bytes)
    → check_holder rt holder bytes ≡ ok tt
    → (rt.asset_kind (get_or bytes 0 0) ≡ some rt.asset_v1)
      × (33 ≤ length bytes)
      × (from_le_bytes (slice bytes 1 33) ≡ holder)
unfolding check_holder
check_holder-bytes rt holder bytes h =
    let (_, t₁) = >>-eq-ok (require (ltb 0 (length bytes)) invalid_key) _ h in
    let (k, kind, t₂) = ok_or-eq-ok (rt.asset_kind (get_or bytes 0 0)) invalid_key _ t₁ in
    let (v1, t₃) = >>-eq-ok (require (k == rt.asset_v1) invalid_key) _ t₂ in
    let (long, t₄) = >>-eq-ok (require (leb 33 (length bytes)) invalid_key) _ t₃ in
    (
      kind ∙ ap some (==→eq k rt.asset_v1 (require-true _ _ v1)),
      leb→le 33 (length bytes) (require-true _ _ long),
      ==→eq (from_le_bytes (slice bytes 1 33)) holder (require-true _ _ t₄),
    )

admin_attributes : Text → Text → List Attribute
admin_attributes seed market =
    permission_attributes preset_admin
    ++ attribute (codes "position") seed ∷ market_attribute market

admin_attributes-permissions :
    (seed market : Text)
    → find_attribute (codes "permissions") (admin_attributes seed market)
      ≡ some (record { key = codes "permissions"; value = u8_text preset_admin })
unfolding admin_attributes permission_attributes find_attribute text_eq
admin_attributes-permissions seed market = refl

admin_attributes-position :
    (seed market : Text)
    → find_attribute (codes "position") (admin_attributes seed market)
      ≡ some (record { key = codes "position"; value = seed })
unfolding admin_attributes permission_attributes find_attribute text_eq
admin_attributes-position seed market = refl

module _ (rt : Runtime) (clock : Clock) (a : KeyAccounts) (old new : Pubkey) (s s' : Store) where
  -- The three calls of a replacement, in their order.
  pub replace_keys-calls :
      replace_keys rt clock a old new s ≡ ok s'
      → (s₁ : Store) × (s₂ : Store) × Mints rt a.collection a.config_key a.payer
          (config_seeds a.config)
          new
          a.payer
          preset_admin
          a.position.authority_seed
          s
          s₁
        × Burns rt a.collection a.config_key a.payer (config_seeds a.config) old s₁ s₂
        × Burns rt a.collection a.config_key a.payer (config_seeds a.config) a.key_asset s₂ s'
  unfolding replace_keys create_key burn_key admin_attributes
  replace_keys-calls h =
      let (old_name, _, t₁) = ok_or-eq-ok (rt.asset_name (s old).bytes) invalid_key _ h in
      let (attributes, _, t₂) = ok_or-eq-ok (rt.fetch_attributes (s old)) invalid_key _ t₁ in
      let market = market_of attributes in
      let seed = rt.key_text a.position.authority_seed in
      let (s₁, created, t₃) =
        >>=-eq-ok
          (rt.invoke
            (create_key a new a.payer old_name
              (metadata_uri old_name preset_admin none none (market_option market) none none)
              (admin_attributes seed market))
            s)
          _ t₂ in
      let (s₂, burned, t₄) = >>=-eq-ok (rt.invoke (burn_key a old) s₁) _ t₃ in
      (
        s₁,
        s₂,
        record {
          name = old_name;
          uri = metadata_uri old_name preset_admin none none (market_option market) none none;
          attributes = admin_attributes seed market;
          called = created;
          may = admin_attributes-permissions seed market;
          bound = admin_attributes-position seed market;
        },
        burned,
        t₄,
      )
