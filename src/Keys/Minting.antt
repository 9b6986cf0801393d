-- ===== src/Keys/Minting.antt =====
-- The calls of MPL-Core that the instructions make, spelled out: CreateV2 and BurnV1 of
-- programs/hardig/src/instructions/authorize_key.rs, execute_recovery.rs and
-- promo/claim_promo_key.rs.
use hardig.Base.{ℕ, ◌≡◌, some, List, [], ◌∷◌}
use hardig.Error.{ok}
use hardig.Runtime.{
  Runtime, Store, Pubkey, Bytes, Text, Attribute, Plugin, PluginAuthority, create_v2, burn_v1,
  codes,
}
use hardig.Decimal.{u8_text}
use hardig.KeyCheck.{find_attribute}

-- A key was minted for its owner, and its attributes say what it may do and of which position. The
-- collection's authority can burn it and move it.
pub record Mints (rt : Runtime) (collection authority payer : Pubkey) (seeds : List Bytes)
    (asset owner : Pubkey) (permissions : ℕ) (authority_seed : Pubkey) (s s' : Store) : Type 0 where
  pub name : Text
  pub uri : Text
  pub attributes : List Attribute
  pub called :
      rt.invoke
        (create_v2
          (record {
            asset = asset;
            collection = collection;
            authority = authority;
            payer = payer;
            owner = owner;
            name = name;
            uri = uri;
            plugins =
                record {
                  plugin = Plugin.attributes attributes;
                  authority = some PluginAuthority.update_authority;
                }
                ∷ record {
                  plugin = Plugin.permanent_burn_delegate;
                  authority = some PluginAuthority.update_authority;
                }
                ∷ record {
                  plugin = Plugin.permanent_transfer_delegate;
                  authority = some PluginAuthority.update_authority;
                }
                ∷ [];
          })
          seeds)
        s
      ≡ ok s'
  pub may :
      find_attribute (codes "permissions") attributes
      ≡ some (record { key = codes "permissions"; value = u8_text permissions })
  pub bound :
      find_attribute (codes "position") attributes
      ≡ some (record { key = codes "position"; value = rt.key_text authority_seed })

-- A key was burned.
abbrev pub Burns : Runtime → Pubkey → Pubkey → Pubkey → List Bytes → Pubkey → Store → Store → Type 0
Burns rt collection authority payer seeds asset s s' =
    rt.invoke
      (burn_v1
        (record { asset = asset; collection = collection; authority = authority; payer = payer })
        seeds)
      s
    ≡ ok s'
