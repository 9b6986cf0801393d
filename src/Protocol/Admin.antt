-- ===== src/Protocol/Admin.antt =====
-- The configuration of the protocol under programs/hardig/src/instructions/transfer_admin.rs,
-- accept_admin.rs and create_collection.rs, as a step relation.
use hardig.Base.{
  ◌≡◌, ◌≢◌, ◌⊎◌, inl, inr, refl, sym, ap, subst, ◌∙◌, List, [], ◌∷◌, ◌==◌, ◌/=◌, ==→eq, /=→ne,
}
use hardig.Error.{
  ok, >>=-eq-ok, >>-eq-ok, require, require-true, constrain, constrain-true, ok_injective,
  unauthorized, collection_already_created,
}
use hardig.Runtime.{Runtime, Store, Pubkey, Text, default_key, codes, create_collection_v2}
use hardig.State.{ProtocolConfig}
use hardig.Keys.{config_seeds}
use hardig.Trade.Accounts.{config_constraint}
use hardig.Protocol.{transfer_admin, accept_admin, create_collection}

module _ (rt : Runtime) where
  -- One instruction that writes the configuration, and its signer.
  pub data ConfigStep : Pubkey → ProtocolConfig → ProtocolConfig → Type 0 where
    nominate :
        (admin key new_admin : Pubkey) (c c' : ProtocolConfig)
        → transfer_admin rt admin key c new_admin ≡ ok c'
        → ConfigStep admin c c'
    accept :
        (new_admin key : Pubkey) (c c' : ProtocolConfig)
        → accept_admin rt new_admin key c ≡ ok c'
        → ConfigStep new_admin c c'
    collect :
        (admin key asset program : Pubkey) (uri : Text) (s s' : Store) (c c' : ProtocolConfig)
        → create_collection rt admin key c asset program uri s ≡ ok (c', s')
        → ConfigStep admin c c'

  -- Any number of such instructions, with the signer of each.
  pub data ConfigSteps : List Pubkey → ProtocolConfig → ProtocolConfig → Type 0 where
    stay : (c : ProtocolConfig) → ConfigSteps [] c c
    step :
        (signer : Pubkey) (signers : List Pubkey) (c d e : ProtocolConfig)
        → ConfigStep signer c d
        → ConfigSteps signers d e
        → ConfigSteps (signer ∷ signers) c e

-- What an instruction of a signer may do: the admin nominates a successor; the nominee takes over
-- and the nomination is used up; the admin sets the collection where there is none.
abbrev pub Permitted : Pubkey → ProtocolConfig → ProtocolConfig → Type 0
Permitted signer c c' =
    ((signer ≡ c.admin) × (c' ≡ record c { pending_admin = c'.pending_admin }))
    ⊎ ((signer ≡ c.pending_admin)
        × (signer ≢ default_key)
        × (c' ≡ record c { admin = signer; pending_admin = default_key }))
    ⊎ ((signer ≡ c.admin)
        × (c.collection ≡ default_key)
        × (c' ≡ record c { collection = c'.collection }))

module _ (rt : Runtime) where
  nominate_effect :
      (admin key new_admin : Pubkey) (c c' : ProtocolConfig)
      → transfer_admin rt admin key c new_admin ≡ ok c'
      → (admin ≡ c.admin) × (record c { pending_admin = new_admin } ≡ c')
  unfolding transfer_admin
  nominate_effect admin key new_admin c c' h =
      let (signed, t₁) = >>-eq-ok (constrain (admin == c.admin)) _ h in
      let (_, t₂) = >>-eq-ok (config_constraint rt key c) _ t₁ in
      (==→eq admin c.admin (constrain-true _ signed), ok_injective t₂)

  accept_effect :
      (new_admin key : Pubkey) (c c' : ProtocolConfig)
      → accept_admin rt new_admin key c ≡ ok c'
      → (c.pending_admin ≡ new_admin)
        × (c.pending_admin ≢ default_key)
        × (record c { admin = c.pending_admin; pending_admin = default_key } ≡ c')
  unfolding accept_admin
  accept_effect new_admin key c c' h =
      let (_, t₁) = >>-eq-ok (config_constraint rt key c) _ h in
      let (nominated, t₂) = >>-eq-ok (require (c.pending_admin == new_admin) unauthorized) _ t₁ in
      let (proper, t₃) = >>-eq-ok (require (c.pending_admin /= default_key) unauthorized) _ t₂ in
      (
        ==→eq c.pending_admin new_admin (require-true _ _ nominated),
        /=→ne c.pending_admin default_key (require-true _ _ proper),
        ok_injective t₃,
      )

  collect_effect :
      (admin key asset program : Pubkey) (uri : Text) (s s' : Store) (c c' : ProtocolConfig)
      → create_collection rt admin key c asset program uri s ≡ ok (c', s')
      → (c.admin ≡ admin) × (c.collection ≡ default_key) × (record c { collection = asset } ≡ c')
  unfolding create_collection
  collect_effect admin key asset program uri s s' c c' h =
      let (_, t₁) = >>-eq-ok (config_constraint rt key c) _ h in
      let (signed, t₂) = >>-eq-ok (require (c.admin == admin) unauthorized) _ t₁ in
      let (unset, t₃) =
        >>-eq-ok (require (c.collection == default_key) collection_already_created) _ t₂ in
      let (_, t₄) = >>-eq-ok (constrain (program == rt.mpl_core_id)) _ t₃ in
      let (s₁, _, t₅) =
        >>=-eq-ok
          (rt.invoke
            (create_collection_v2 asset admin key (codes "Härdig Keys") uri (config_seeds c)) s)
          _ t₄ in
      (
        ==→eq c.admin admin (require-true _ _ signed),
        ==→eq c.collection default_key (require-true _ _ unset),
        ap (λ r. r.0) (ok_injective t₅),
      )

  -- Each instruction on an existing configuration changes it in one of three ways only: its
  -- admin nominates a successor; the nominee, who is not the default key, becomes admin and the
  -- nomination is cleared; its admin sets the collection, where there was none.
  pub ConfigStep-Permitted :
      (signer : Pubkey) (c c' : ProtocolConfig) → ConfigStep rt signer c c' → Permitted signer c c'
  ConfigStep-Permitted signer c c' (nominate _ key new_admin _ _ h) =
      let (signed, e) = nominate_effect signer key new_admin c c' h in
      inl (
        signed,
        sym e
            ∙ ap (λ p. record c { pending_admin = p })
                (ap (λ (d : ProtocolConfig). d.pending_admin) e),
      )
  ConfigStep-Permitted signer c c' (accept _ key _ _ h) =
      let (named, proper, e) = accept_effect signer key c c' h in
      inr (
        inl (
          sym named,
          subst (λ k. k ≢ default_key) named proper,
          sym e ∙ ap (λ p. record c { admin = p; pending_admin = default_key }) named,
        ))
  ConfigStep-Permitted signer c c' (collect _ key asset program uri s s' _ _ h) =
      let (signed, unset, e) = collect_effect signer key asset program uri s s' c c' h in
      inr (
        inr (
          sym signed,
          unset,
          sym e
              ∙ ap (λ p. record c { collection = p }) (ap (λ (d : ProtocolConfig). d.collection) e),
        ))

-- Once there is a collection, no sequence of instructions replaces it.
keeps_collection :
    (signer : Pubkey) (c c' : ProtocolConfig)
    → c.collection ≢ default_key
    → Permitted signer c c'
    → c'.collection ≡ c.collection
keeps_collection signer c c' set (inl (_, e)) = ap (λ (d : ProtocolConfig). d.collection) e
keeps_collection signer c c' set (inr (inl (_, _, e))) = ap (λ (d : ProtocolConfig). d.collection) e
keeps_collection signer c c' set (inr (inr (_, unset, _))) = absurd (set unset)

module _ (rt : Runtime) where
  -- Once the collection is created, no sequence of instructions of any signers replaces it.
  pub collection_final :
      (signers : List Pubkey) (c c' : ProtocolConfig)
      → c.collection ≢ default_key
      → ConfigSteps rt signers c c'
      → c'.collection ≡ c.collection
  collection_final _ c _ set (stay _) = refl
  collection_final _ c c' set (step signer signers _ d _ one rest) =
      let here = keeps_collection signer c d set (ConfigStep-Permitted rt signer c d one) in
      collection_final signers d c' (subst (λ k. k ≢ default_key) (sym here) set) rest ∙ here
