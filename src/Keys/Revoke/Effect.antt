-- ===== src/Keys/Revoke/Effect.antt =====
-- What a successful run of programs/hardig/src/instructions/revoke_key.rs has done.
use hardig.Base.{
  ℕ, ◌≡◌, ◌≢◌, Option, none, some, ◌==◌, ◌/=◌, /=→ne, ap, sym, ◌∙◌, refl, subst, List,
}
use hardig.Error.{
  ok, >>=-eq-ok, >>-eq-ok, ok_or-eq-ok, require, require-true, ok_injective, invalid_key,
  cannot_revoke_admin_key, wrong_position,
}
use hardig.Runtime.{Runtime, Store, Pubkey, Clock, Attribute, codes, text_eq}
use hardig.State.{PositionState, KeyState, perm_manage_keys}
use hardig.KeyCheck.{find_attribute, validate_key}
use hardig.KeyCheck.Sound.{text_eq→eq}
use hardig.Keys.{KeyAccounts, collection_constraints, config_seeds, burn_key}
use hardig.Keys.Minting.{Burns}
use hardig.Keys.Revoke.{revoke_key, revoke_handler}

-- A key was revoked: it is a key of the position, not the admin key, a key with the right to
-- manage keys was shown, the key is burned and its limits are gone, and the position has only its
-- activity changed.
pub record Revoked (rt : Runtime) (clock : Clock) (a : KeyAccounts) (target_asset : Pubkey)
    (s : Store) (p' : PositionState) (k' : Option KeyState) (s' : Store) : Type 0 where
  pub permissions : ℕ
  pub validated :
      validate_key rt s a.payer a.key_asset a.position.authority_seed perm_manage_keys
        a.config.collection
      ≡ ok permissions
  pub delegated : target_asset ≢ a.position.current_admin_asset
  pub attributes : List Attribute
  pub fetched : rt.fetch_attributes (s target_asset) ≡ some attributes
  pub bound : Attribute
  pub found : find_attribute (codes "position") attributes ≡ some bound
  pub own : bound.value ≡ rt.key_text a.position.authority_seed
  pub burned : Burns rt a.collection a.config_key a.payer (config_seeds a.config) target_asset s s'
  pub closed : k' ≡ none
  pub position : p' ≡ record (a.position) { last_admin_activity = clock.unix_timestamp }

module _ (rt : Runtime) (clock : Clock) (a : KeyAccounts) (target_asset : Pubkey) (s : Store) where
  module _ (p' : PositionState) (s' : Store) where
    handler_effect :
        revoke_handler rt clock a target_asset s ≡ ok (p', s')
        → Revoked rt clock a target_asset s p' none s'
    unfolding revoke_handler burn_key
    handler_effect h =
        let (perm, valid, t₁) =
          >>=-eq-ok
            (validate_key rt s a.payer a.key_asset a.position.authority_seed perm_manage_keys
              a.config.collection)
            _ h in
        let (other, t₂) =
          >>-eq-ok
            (require (target_asset /= a.position.current_admin_asset) cannot_revoke_admin_key) _
            t₁ in
        let (_, t₃) =
          >>-eq-ok (require ((s target_asset).owner == rt.mpl_core_id) invalid_key) _ t₂ in
        let (attributes, fetched, t₄) =
          ok_or-eq-ok (rt.fetch_attributes (s target_asset)) invalid_key _ t₃ in
        let (bound, found, t₅) =
          ok_or-eq-ok (find_attribute (codes "position") attributes) wrong_position _ t₄ in
        let (own, t₆) =
          >>-eq-ok
            (require (text_eq bound.value (rt.key_text a.position.authority_seed)) wrong_position) _
            t₅ in
        let (s₁, burned, t₇) = >>=-eq-ok (rt.invoke (burn_key a target_asset) s) _ t₆ in
        record {
          permissions = perm;
          validated = valid;
          delegated = /=→ne target_asset a.position.current_admin_asset (require-true _ _ other);
          attributes = attributes;
          fetched = fetched;
          bound = bound;
          found = found;
          own =
              text_eq→eq bound.value (rt.key_text a.position.authority_seed) (require-true _ _ own);
          burned = burned ∙ ap ok (ap (λ r. r.1) (ok_injective t₇));
          closed = refl;
          position = sym (ap (λ r. r.0) (ok_injective t₇));
        }

  -- A revocation that succeeds was shown a key of the position that may manage keys; the key
  -- revoked is bound to the position and is not the admin key; it is burned, whoever holds it, its
  -- limits are gone, and the position has only its time of activity changed.
  pub revoke_effect :
      (k : KeyState) (p' : PositionState) (k' : Option KeyState) (s' : Store)
      → revoke_key rt clock a target_asset k s ≡ ok (p', k', s')
      → Revoked rt clock a target_asset s p' k' s'
  unfolding revoke_key
  revoke_effect k p' k' s' h =
      let (_, t₁) = >>-eq-ok (require (k.asset == target_asset) invalid_key) _ h in
      let (_, t₂) = >>-eq-ok (collection_constraints rt a) _ t₁ in
      let ((p₁, s₁), ran, t₃) = >>=-eq-ok (revoke_handler rt clock a target_asset s) _ t₂ in
      subst (λ r. Revoked rt clock a target_asset s r.0 r.1 r.2) (ok_injective t₃)
        (handler_effect p₁ s₁ ran)
