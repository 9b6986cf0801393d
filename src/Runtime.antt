-- ===== src/Runtime.antt =====
-- What the program runs on and does not implement: the Solana runtime, the account framework,
-- MPL-Core, the SPL token program and Mayflower. All of it is the argument `Runtime`.
--
-- A public key is the number that its 32 bytes spell in little-endian order, so
-- `Pubkey::default()` is 0. A text is the list of its code points. Accounts that the source
-- takes as `UncheckedAccount` or `Signer` are their keys; what they hold is read from the store
-- of accounts, which only calls of other programs (`invoke`) change. Accounts of the program's
-- own types (`Account<T>`) are passed as records.
use Prim.Native.Char.{code}
use Prim.Native.String.{String}
use hardig.Base.{
  ℕ, ◌+◌, Bool, true, false, ◌&&◌, Option, List, [], ◌∷◌, ◌==◌, ltb, if◌then◌else◌, ℤ,
}
use hardig.Error.{Result}

abbrev pub Pubkey : Type 0
Pubkey = ℕ

-- `Pubkey::default()`
abbrev pub default_key : Pubkey
default_key = 0

abbrev pub Bytes : Type 0
Bytes = List ℕ

abbrev pub Text : Type 0
Text = List ℕ

-- The code points of a literal.
abbrev pub codes : String → Text
codes String.[] = []
codes (String.◌∷◌ c s) = code c ∷ codes s

-- `==` on texts
unfoldable pub text_eq : Text → Text → Bool
text_eq [] [] = true
text_eq [] (_ ∷ _) = false
text_eq (_ ∷ _) [] = false
text_eq (c ∷ s) (d ∷ t) = c == d && text_eq s t

-- `str::len`, which counts the bytes of UTF-8.
unfoldable pub byte_len : Text → ℕ
byte_len [] = 0
byte_len (c ∷ s) =
    (if ltb c 0x80 then 1 else if ltb c 0x800 then 2 else if ltb c 0x10000 then 3 else 4)
    + byte_len s

-- `mpl_core::types::Attribute`
pub record Attribute : Type 0 where
  pub key : Text
  pub value : Text

pub record AccountInfo : Type 0 where
  pub owner : Pubkey
  pub lamports : ℕ
  pub bytes : Bytes

abbrev pub Store : Type 0
Store = Pubkey → AccountInfo

pub record Clock : Type 0 where
  pub slot : ℕ
  pub unix_timestamp : ℤ

pub record AccountMeta : Type 0 where
  pub pubkey : Pubkey
  pub is_signer : Bool
  pub is_writable : Bool

pub record Instruction : Type 0 where
  pub program : Pubkey
  pub metas : List AccountMeta
  pub payload : Bytes

-- `mpl_core::types::Plugin` and `PluginAuthority`, as far as the program names their values
pub data Plugin : Type 0 where
  attributes : List Attribute → Plugin
  permanent_burn_delegate permanent_transfer_delegate : Plugin

pub data PluginAuthority : Type 0 where
  update_authority : PluginAuthority

pub record PluginAuthorityPair : Type 0 where
  pub plugin : Plugin
  pub authority : Option PluginAuthority

-- `CreateV2CpiBuilder`: the asset, who pays and who owns it, its name, metadata address and
-- plugins. The collection and its authority are the ones that the accounts name.
pub record CreateV2 : Type 0 where
  pub asset : Pubkey
  pub collection : Pubkey
  pub authority : Pubkey
  pub payer : Pubkey
  pub owner : Pubkey
  pub name : Text
  pub uri : Text
  pub plugins : List PluginAuthorityPair

-- `BurnV1CpiBuilder`
pub record BurnV1 : Type 0 where
  pub asset : Pubkey
  pub collection : Pubkey
  pub authority : Pubkey
  pub payer : Pubkey

-- A call of another program, with the seeds that sign it.
pub data Cpi : Type 0 where
  -- `invoke_signed(&instruction, &account_infos, seeds)`
  invoke_signed : Instruction → List Pubkey → List Bytes → Cpi
  create_v2 : CreateV2 → List Bytes → Cpi
  burn_v1 : BurnV1 → List Bytes → Cpi
  -- `CreateCollectionV2CpiBuilder`: collection, payer, update authority, name, uri
  create_collection_v2 : Pubkey → Pubkey → Pubkey → Text → Text → List Bytes → Cpi
  -- `system_program::transfer`: from, to, lamports
  transfer : Pubkey → Pubkey → ℕ → Cpi

pub record Runtime : Type 0 where
  -- the address of the program itself, of MPL-Core, the token program and the system program
  pub program_id : Pubkey
  pub mpl_core_id : Pubkey
  pub token_id : Pubkey
  pub system_id : Pubkey
  -- `Pubkey::find_program_address` and `Pubkey::create_program_address`
  pub find_program_address : List Bytes → Pubkey → Pubkey × ℕ
  pub create_program_address : List Bytes → Pubkey → Option Pubkey
  -- `get_associated_token_address(wallet, mint)`
  pub associated_token_address : Pubkey → Pubkey → Pubkey
  -- `Pubkey::to_string`
  pub key_text : Pubkey → Text
  -- `AssetKey::try_from_slice` of one byte, and the kind `AssetKey::AssetV1`
  pub asset_kind : ℕ → Option ℕ
  pub asset_v1 : ℕ
  -- `fetch_plugin::<BaseAssetV1, Attributes>`: the attribute list, if it can be read
  pub fetch_attributes : AccountInfo → Option (List Attribute)
  -- the `name` of `BaseAssetV1::from_bytes`
  pub asset_name : Bytes → Option Text
  -- `Rent::get()?.minimum_balance`
  pub minimum_balance : ℕ → ℕ
  -- the effect of a call of another program on the accounts
  pub invoke : Cpi → Store → Result Store
