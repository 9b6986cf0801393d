-- ===== src/Keys.antt =====
-- The instructions that mint and burn key NFTs. This file has what they share: the accounts of
-- the admin, the constraints on the collection, and the calls of MPL-Core.
pub mod Authorize
pub mod Minting
pub mod Revoke
use hardig.Base.{
  ℕ, Bool, true, false, Option, none, some, List, [], ◌∷◌, ◌++◌, leb, ◌==◌, ◌/=◌, if◌then◌else◌,
}
use hardig.Error.{
  Result, ok, ◌>>=◌, ◌>>◌, require, constrain, ok_or, collection_not_created, name_too_long,
}
use hardig.Runtime.{
  Runtime, Store, Pubkey, Bytes, Text, Attribute, Plugin, PluginAuthority, PluginAuthorityPair, Cpi,
  create_v2, burn_v1, default_key, codes, byte_len,
}
use hardig.State.{ProtocolConfig, PositionState, config_seed}
use hardig.Trade.Accounts.{config_constraint}
use hardig.KeyCheck.{find_attribute}

-- The accounts that `AuthorizeKey`, `RevokeKey`, `ConfigureRecovery` and `ExecuteRecovery` have in
-- common: the signer that pays, the key that is shown, the position, and the collection.
pub record KeyAccounts : Type 0 where
  pub payer : Pubkey
  pub key_asset : Pubkey
  pub position : PositionState
  pub config_key : Pubkey
  pub config : ProtocolConfig
  pub collection : Pubkey
  pub mpl_core_program : Pubkey
  pub remaining_accounts : List Pubkey

-- From `config` to `mpl_core_program`.
unfoldable pub collection_constraints : Runtime → KeyAccounts → Result (Unit {0})
collection_constraints rt a = do
  config_constraint rt a.config_key a.config
  require (a.config.collection /= default_key) collection_not_created
  require (a.collection == a.config.collection) collection_not_created
  constrain (a.mpl_core_program == rt.mpl_core_id)

-- `init` of a program account at the address of the seeds: the address fits, and the account is
-- not in use yet.
unfoldable pub init_constraint : Runtime → Store → List Bytes → Pubkey → Result (Unit {0})
init_constraint rt s seeds key = do
  constrain (key == (rt.find_program_address seeds rt.program_id).0)
  constrain ((s key).owner == rt.system_id)

-- `config_seeds`, which sign for the authority of the collection.
abbrev pub config_seeds : ProtocolConfig → List Bytes
config_seeds config = config_seed ∷ (config.bump ∷ []) ∷ []

-- `.plugins(vec![…])`: the attributes of a key, and the delegates by which the collection's
-- authority may burn and move it.
abbrev pub key_plugins : List Attribute → List PluginAuthorityPair
key_plugins attributes =
    record {
      plugin = Plugin.attributes attributes;
      authority = some PluginAuthority.update_authority;
    }
    ∷ record {
      plugin = Plugin.permanent_burn_delegate;
      authority = some PluginAuthority.update_authority;
    }
    ∷ record {
      plugin = Plugin.permanent_transfer_delegate;
      authority = some PluginAuthority.update_authority;
    }
    ∷ []

-- `CreateV2CpiBuilder` as every handler fills it.
unfoldable pub create_key : KeyAccounts → Pubkey → Pubkey → Text → Text → List Attribute → Cpi
create_key a asset owner name uri attributes =
    create_v2
      (record {
        asset = asset;
        collection = a.collection;
        authority = a.config_key;
        payer = a.payer;
        owner = owner;
        name = name;
        uri = uri;
        plugins = key_plugins attributes;
      })
      (config_seeds a.config)

-- `BurnV1CpiBuilder` as every handler fills it.
unfoldable pub burn_key : KeyAccounts → Pubkey → Cpi
burn_key a asset =
    burn_v1
      (record {
        asset = asset;
        collection = a.collection;
        authority = a.config_key;
        payer = a.payer;
      })
      (config_seeds a.config)

-- A name of at most 32 bytes behind the base name.
unfoldable pub nft_name : Text → Option Text → Result Text
nft_name base none = ok base
nft_name base (some suffix) = do
  require (leb (byte_len suffix) 32) name_too_long
  ok (base ++ codes " - " ++ suffix)

-- `.find(|a| a.key == "market").map(|a| a.value.clone()).unwrap_or_default()`
value_or_empty : Option Attribute → Text
value_or_empty none = []
value_or_empty (some a) = a.value

unfoldable pub market_of : List Attribute → Text
unfolding value_or_empty
market_of attributes = value_or_empty (find_attribute (codes "market") attributes)
