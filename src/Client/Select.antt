-- ===== src/Client/Select.antt =====
-- `select_active_position` of crates/tui/src/app.rs, which loads one of the discovered positions.
use hardig.Base.{
  ℕ, zero, suc, Bool, true, false, Option, none, some, List, [], ◌∷◌, ◌++◌, ◌==◌, ◌/=◌,
  if◌then◌else◌,
}
use hardig.Runtime.{Runtime, Pubkey, Text, AccountInfo, codes, default_key}
use hardig.State.{
  PositionState, MarketConfig, RateBucket, preset_admin, perm_limited_sell, perm_limited_borrow,
}
use hardig.Anchor.{Anchor}
use hardig.Permissions.{has_any}
use hardig.Format.{unwrap_or}
use hardig.Mayflower.Cpi.{key_bytes, derive_personal_position, derive_personal_position_escrow}
use hardig.Client.{Host, App, KeyEntry, DiscoveredPosition, Screen, push_log}
use hardig.Client.Texts.{short_pubkey, permissions_name}
use hardig.Client.Build.{get_ata, default_nav_sol_mint}
use hardig.Client.Chain.{
  Rpc, check_asset_owner, read_asset_name, read_asset_permissions, read_asset_position_binding,
}

abbrev pub Accounts : Type 0
Accounts = List (Pubkey × AccountInfo)

abbrev pub default_market_meta : Pubkey
default_market_meta = 3140744838483651882022712137049841275851521916751959804105855228701159739070

abbrev pub default_wsol_mint : Pubkey
default_wsol_mint = 452312848682254728109074716018410578554233241794521621781515434726607330054

-- `positions.iter().find(|(pda, _)| *pda == pos_pda)`
unfoldable pub find_account : Pubkey → Accounts → Option AccountInfo
find_account key [] = none
find_account key ((pda, acc) ∷ accounts) =
    let rest = find_account key accounts in if pda == key then some acc else rest

-- `discovered_positions.get(index)`
unfoldable pub position_at : List DiscoveredPosition → ℕ → Option DiscoveredPosition
position_at [] i = none
position_at (d ∷ ds) zero = some d
position_at (d ∷ ds) (suc i) = position_at ds i

-- The position of the discovered entry, if it can be found and read.
unfoldable pub read_position : Anchor → Pubkey → Accounts → Option PositionState
unfolding find_account
read_position anchor pda positions = elim (find_account pda positions) [
  | none ↦ none
  | some acc ↦ anchor.position_state acc.bytes
]

-- A key of the ring without limits: the admin key, and the recovery key.
unfoldable pub plain_entry : Pubkey → Pubkey → ℕ → Bool → Text → KeyEntry
plain_entry pda asset permissions held name = record {
  pda = pda;
  asset = asset;
  permissions = permissions;
  held_by_signer = held;
  name = name;
  sell_bucket = none;
  borrow_bucket = none;
  total_sell_limit = 0;
  total_sold = 0;
  total_borrow_limit = 0;
  total_borrowed = 0;
}

-- `.map(f).unwrap_or(d)`
abbrev pub map_or {ℓ κ} : {A : Type ℓ} {B : Type κ} → Option A → (A → B) → B → B
map_or none f d = d
map_or (some a) f d = f a

abbrev pub bucket_if : Bool → RateBucket → Option RateBucket
bucket_if true b = some b
bucket_if false b = none

module _ (rt : Runtime) (host : Host) (anchor : Anchor) (rpc : Rpc) where
  -- The entry of a delegated key that is bound to the position, or none.
  unfoldable pub delegated_entry : Pubkey → Pubkey → Pubkey × AccountInfo → List KeyEntry
  delegated_entry signer admin_asset (ks_pda, ks_acc) = elim (anchor.key_state ks_acc.bytes) [
    | none ↦ []
    | some ks ↦ elim (read_asset_position_binding rt host rpc ks.asset) [
      | none ↦ []
      | some bound_to ↦
          (let perms = unwrap_or (read_asset_permissions rt rpc ks.asset) 0 in
            if bound_to /= admin_asset
            then []
            else record {
              pda = ks_pda;
              asset = ks.asset;
              permissions = perms;
              held_by_signer = check_asset_owner rpc ks.asset signer;
              name = unwrap_or (read_asset_name rt rpc ks.asset) [];
              sell_bucket = bucket_if (has_any perms perm_limited_sell) ks.sell_bucket;
              borrow_bucket = bucket_if (has_any perms perm_limited_borrow) ks.borrow_bucket;
              total_sell_limit = ks.total_sell_limit;
              total_sold = ks.total_sold;
              total_borrow_limit = ks.total_borrow_limit;
              total_borrowed = ks.total_borrowed;
            }
              ∷ [])
    ]
  ]

  unfoldable pub delegated_entries : Pubkey → Pubkey → Accounts → List KeyEntry
  unfolding delegated_entry
  delegated_entries signer admin_asset [] = []
  delegated_entries signer admin_asset (account ∷ accounts) =
      delegated_entry signer admin_asset account ++ delegated_entries signer admin_asset accounts

  -- The admin key, the delegated keys, and the recovery key where there is one.
  unfoldable pub key_ring : Pubkey → Pubkey → Pubkey → PositionState → Accounts → List KeyEntry
  unfolding delegated_entries plain_entry
  key_ring signer pos_pda admin_asset pos key_states =
      let admin = pos.current_admin_asset in
      let recovery = pos.recovery_asset in
      plain_entry pos_pda admin preset_admin (check_asset_owner rpc admin signer)
          (unwrap_or (read_asset_name rt rpc admin) [])
        ∷ delegated_entries signer admin_asset key_states
      ++ (if recovery /= default_key
          then plain_entry pos_pda recovery 0 (check_asset_owner rpc recovery signer)
              (unwrap_or (read_asset_name rt rpc recovery) [])
            ∷ []
          else [])

  -- `pos.market_config`, or the address of the configuration of navSOL for a position without one.
  unfoldable pub market_config_key : PositionState → Pubkey
  market_config_key pos =
      if pos.market_config /= default_key
      then pos.market_config
      else (rt.find_program_address (codes "market_config" ∷ key_bytes default_nav_sol_mint ∷ [])
          rt.program_id).0

  unfoldable pub read_market_config : Pubkey → Option MarketConfig
  read_market_config key = elim (rpc.get_account key) [
    | none ↦ none
    | some acc ↦ anchor.market_config acc.bytes
  ]

  -- The state with the position, its market configuration and the addresses that belong to them.
  unfoldable pub load_position :
      DiscoveredPosition → PositionState → Option MarketConfig → Accounts → App → App
  unfolding key_ring market_config_key get_ata
  load_position dp pos mc key_states app =
      let program_pda =
        (rt.find_program_address (codes "authority" ∷ key_bytes dp.admin_asset ∷ [])
          rt.program_id).0 in
      let market_meta = map_or mc (λ c. c.market_meta) default_market_meta in
      let base_mint = map_or mc (λ c. c.base_mint) default_wsol_mint in
      let nav_mint = map_or mc (λ c. c.nav_mint) default_nav_sol_mint in
      let pp_pda = derive_personal_position rt program_pda market_meta in
      record app {
        position_pda = some dp.position_pda;
        my_permissions = some dp.permissions;
        my_key_state_pda = dp.key_state_pda;
        my_asset = some dp.key_asset;
        mayflower_initialized = pos.position_pda /= default_key;
        market_config_pda = map_or mc (λ _. some (market_config_key pos)) none;
        market_config = mc;
        program_pda = program_pda;
        pp_pda = pp_pda;
        escrow_pda = derive_personal_position_escrow rt pp_pda;
        wsol_ata = get_ata rt program_pda base_mint;
        nav_sol_ata = get_ata rt program_pda nav_mint;
        position = some pos;
        keyring = key_ring app.keypair dp.position_pda dp.admin_asset pos key_states;
        key_cursor = 0;
        screen = Screen.dashboard;
      }

  -- The line of the log for a selection.
  unfoldable pub selected_line : DiscoveredPosition → PositionState → Text
  selected_line dp pos =
      codes "Selected position "
      ++ short_pubkey rt dp.position_pda
      ++ codes " (permissions: "
      ++ permissions_name dp.permissions
      ++ (if pos.position_pda /= default_key then codes ", Nirvana OK" else [])
      ++ codes ")"

  unfoldable pub select_active_position : ℕ → Accounts → Accounts → App → App
  unfolding load_position read_position position_at read_market_config market_config_key push_log
      selected_line
  select_active_position index positions key_states app =
      elim (position_at app.discovered_positions index) [
        | none ↦ app
        | some dp ↦ elim (read_position anchor dp.position_pda positions) [
          | none ↦ app
          | some pos ↦
              push_log (selected_line dp pos)
                (load_position dp pos (read_market_config (market_config_key pos)) key_states app)
        ]
      ]
