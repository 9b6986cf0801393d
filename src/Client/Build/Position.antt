-- ===== src/Client/Build/Position.antt =====
-- build_create_position of crates/tui/src/app.rs.
use hardig.Base.{true, false, Option, none, some, List, [], ◌∷◌, ◌++◌}
use hardig.Runtime.{Runtime, Pubkey, Bytes, Text, Instruction, codes}
use hardig.State.{MarketConfig}
use hardig.Anchor.{Anchor}
use hardig.Format.{unwrap_or}
use hardig.Mayflower.{mayflower_program_id}
use hardig.Mayflower.Cpi.{
  MarketAddresses, key_bytes, writable, readonly, derive_personal_position,
  derive_personal_position_escrow, derive_log_account,
}
use hardig.Protocol.{market_seeds}
use hardig.Client.{Host, App, PendingAction, find_field, goto_confirm, push_log}
use hardig.Client.Texts.{short_pubkey}
use hardig.Client.Attempt.{Attempt, built, refused, panicked, ◌>>=◌, or_refuse}
use hardig.Client.Build.{
  sighash, config_pda, hardig_ix, string_bytes, serialize_optional_name, name_line, text_or_empty,
  nav_token_name, default_nav_sol_mint,
}
use hardig.Client.Build.Admin.{market_bytes}
use hardig.Client.Build.Keys.{no_collection}
use hardig.Client.Chain.{Rpc}

-- The addresses of the navSOL market
abbrev pub default_market : MarketAddresses
default_market = record {
  nav_mint = default_nav_sol_mint;
  base_mint = 452312848682254728109074716018410578554233241794521621781515434726607330054;
  market_group = 21304477783509660030375874282567120197508500064561153128853889336512717262853;
  market_meta = 3140744838483651882022712137049841275851521916751959804105855228701159739070;
  mayflower_market = 4489578534413050467102746889385218304389824146016932038566858897824308975238;
  market_base_vault = 27869536992658866615087948048134214950615331982580339525375966624113541730861;
  market_nav_vault = 17952922327441082888990233825028763912678427810755926971681435467286624307863;
  fee_vault = 109802344884325914786515231792279759255418245629992342267304894717009109880982;
}

-- The configuration that is on the chain, or the addresses of one that is still to be created.
pub data Market : Type 0 where
  existing : MarketConfig → Market
  created : MarketAddresses → Market

abbrev pub nav_mint_of : Market → Pubkey
nav_mint_of (existing mc) = mc.nav_mint
nav_mint_of (created m) = m.nav_mint

abbrev pub market_meta_of : Market → Pubkey
market_meta_of (existing mc) = mc.market_meta
market_meta_of (created m) = m.market_meta

module _ (rt : Runtime) (host : Host) (anchor : Anchor) (rpc : Rpc) where
  -- The mint that was asked for, or the mint of navSOL.
  abbrev pub mint_or_default : Option Pubkey → Pubkey
  mint_or_default none = default_nav_sol_mint
  mint_or_default (some k) = k

  abbrev pub mc_address : Option Pubkey → Pubkey
  mc_address nav_mint =
      (rt.find_program_address (market_seeds (mint_or_default nav_mint)) rt.program_id).0

  -- What to create where the node has no configuration: the picked market, or navSOL if no mint
  -- was asked for.
  unfoldable pub market_to_create : App → Option Pubkey → Attempt Market
  market_to_create app nav_mint = elim app.pending_market_addresses [
    | some addrs ↦ built (created addrs)
    | none ↦ elim nav_mint [
      | none ↦ built (created default_market)
      | some mint ↦ refused (
          codes "No MarketConfig found for nav-mint "
          ++ rt.key_text mint
          ++ codes ". Create it first with create-market-config.")
    ]
  ]

  unfoldable pub find_market : App → Option Pubkey → Attempt Market
  unfolding market_to_create
  find_market app nav_mint = elim (rpc.get_account (mc_address nav_mint)) [
    | none ↦ market_to_create app nav_mint
    | some acc ↦ elim (anchor.market_config acc.bytes) [
      | none ↦ refused (codes "MarketConfig exists but failed to deserialize")
      | some mc ↦ built (existing mc)
    ]
  ]

  unfoldable pub create_market_ix : App → Option Pubkey → MarketAddresses → Instruction
  unfolding sighash market_bytes
  create_market_ix app nav_mint m =
      hardig_ix rt (sighash host (codes "create_market_config") ++ market_bytes m) (
        writable app.keypair true
        ∷ readonly (config_pda rt) false
        ∷ writable (mc_address nav_mint) false
        ∷ readonly rt.system_id false
        ∷ [])

  unfoldable pub create_position_ix :
      App → Pubkey → Pubkey → Pubkey → Market → Bytes → Text → Instruction
  unfolding sighash string_bytes
  create_position_ix app asset collection mc_pda m name_bytes market_name =
      let position_pda =
        (rt.find_program_address (codes "position" ∷ key_bytes asset ∷ []) rt.program_id).0 in
      let prog_pda =
        (rt.find_program_address (codes "authority" ∷ key_bytes asset ∷ []) rt.program_id).0 in
      let pp_pda = derive_personal_position rt prog_pda (market_meta_of m) in
      hardig_ix rt
        (sighash host (codes "create_position")
          ++ (name_bytes ++ (string_bytes market_name ++ 0 ∷ [])))
        (writable app.keypair true
          ∷ writable asset true
          ∷ writable position_pda false
          ∷ readonly prog_pda false
          ∷ readonly (config_pda rt) false
          ∷ writable collection false
          ∷ readonly mc_pda false
          ∷ readonly rt.mpl_core_id false
          ∷ readonly rt.system_id false
          ∷ readonly rt.token_id false
          ∷ writable pp_pda false
          ∷ writable (derive_personal_position_escrow rt pp_pda) false
          ∷ readonly (market_meta_of m) false
          ∷ readonly (nav_mint_of m) false
          ∷ writable (derive_log_account rt) false
          ∷ readonly mayflower_program_id false
          ∷ [])

  -- The instruction that creates the market, where it is to be created, and its line.
  abbrev pub market_instructions : App → Option Pubkey → Market → List Instruction
  market_instructions app nav_mint (existing mc) = []
  market_instructions app nav_mint (created m) = create_market_ix app nav_mint m ∷ []

  abbrev pub market_lines : Option Pubkey → Market → List Text
  market_lines nav_mint (existing mc) = []
  market_lines nav_mint (created m) =
      (codes "Create MarketConfig: " ++ short_pubkey rt (mc_address nav_mint)) ∷ []

  -- The name that was picked with the market, or the name of its token.
  abbrev pub market_name_of : App → Market → Text
  market_name_of app m = unwrap_or app.market_name_override (nav_token_name (nav_mint_of m))

  unfoldable pub create_position_action : Pubkey → App → Option Pubkey → Attempt PendingAction
  unfolding find_market create_market_ix create_position_ix find_field serialize_optional_name
      name_line
  create_position_action asset app nav_mint = do
    collection ← or_refuse app.collection no_collection
    m ← find_market app nav_mint
    let name = text_or_empty (find_field app.form_fields (codes "Label (optional)"))
    name_bytes ← serialize_optional_name name
    let market_name = market_name_of app m
    let position_pda =
        (rt.find_program_address (codes "position" ∷ key_bytes asset ∷ []) rt.program_id).0
    built (record {
      description =
          codes "Create Position" ∷ market_lines nav_mint m
          ++ (name_line (codes "Härdig Admin Key") name
              ∷ (codes "Market: " ++ market_name)
              ∷ (codes "Admin Asset: " ++ rt.key_text asset)
              ∷ (codes "Position PDA: " ++ rt.key_text position_pda)
              ∷ []);
      instructions =
          host.set_compute_unit_limit 400_000 ∷ market_instructions app nav_mint m
          ++ (create_position_ix app asset collection (mc_address nav_mint) m name_bytes market_name
              ∷ []);
      extra_signers = asset ∷ [];
    })

  -- A built action takes the picked name, and marks the asset for the next refresh.
  unfoldable pub build_create_position : Pubkey → Option Pubkey → App → Option App
  unfolding create_position_action goto_confirm push_log
  build_create_position asset nav_mint app = elim (create_position_action asset app nav_mint) [
    | built action ↦ some (
        goto_confirm action
          (record app { market_name_override = none; pending_select_asset = some asset }))
    | refused msg ↦ some (push_log msg app)
    | panicked ↦ none
  ]
