-- ===== src/Client.antt =====
-- The terminal client, crates/tui/src/app.rs: its state `App`, and what its handlers share. A
-- method that changes the state is a function from `App` to `App`; one that may index out of range
-- or overflow returns an `Option`, in which `none` is the panic. The children are named for the
-- parts of the file: the texts, the instructions that it builds, the form.
pub mod Texts
pub mod Amounts
pub mod Attempt
pub mod Build
pub mod Chain
pub mod Select
pub mod Form
pub mod Enter
use hardig.Base.{
  ℕ, ◌+◌, ◌*◌, Bool, true, false, ◌&&◌, ◌||◌, Option, none, some, List, [], ◌∷◌, ◌++◌, length, drop,
  ltb, if◌then◌else◌,
}
use hardig.Runtime.{Runtime, Pubkey, Bytes, Text, Instruction}
use hardig.State.{
  PositionState, MarketConfig, KeyState, PromoConfig, RateBucket, perm_buy, perm_sell, perm_borrow,
  perm_repay, perm_reinvest, perm_limited_sell, perm_limited_borrow,
}
use hardig.Permissions.{has_any}
use hardig.Mayflower.Cpi.{MarketAddresses}
use hardig.Client.Texts.{starts_with}

-- What the client calls and does not implement: SHA-256, base 58, floating point, and the
-- instructions of the system, token and compute-budget programs.
pub record Host : Type 1 where
  pub sha256 : Bytes → Bytes
  -- `str::parse::<Pubkey>`
  pub parse_key : Text → Option Pubkey
  -- `f64`, its parser, `<`, `<=`, `*`, `/`, and its conversions
  pub f64 : Type 0
  pub parse_f64 : Text → Option f64
  pub f64_lt : f64 → f64 → Bool
  pub f64_le : f64 → f64 → Bool
  pub f64_mul : f64 → f64 → f64
  pub f64_div : f64 → f64 → f64
  pub f64_round : f64 → f64
  pub to_f64 : ℕ → f64
  pub f64_as_u64 : f64 → ℕ
  pub f64_as_u16 : f64 → ℕ
  pub f64_text : f64 → Text
  -- `ComputeBudgetInstruction::set_compute_unit_limit`
  pub set_compute_unit_limit : ℕ → Instruction
  -- `system_instruction::transfer(from, to, lamports)`
  pub system_transfer : Pubkey → Pubkey → ℕ → Instruction
  -- `spl_token::instruction::sync_native(account)`
  pub sync_native : Pubkey → Instruction

pub data Screen : Type 0 where
  position_list dashboard market_picker promo_list form confirm result : Screen

pub data FormKind : Type 0 where
  create_position authorize_key revoke_key buy sell borrow repay : FormKind
  configure_recovery create_promo update_promo : FormKind

pub record DiscoveredPosition : Type 0 where
  pub position_pda : Pubkey
  pub admin_asset : Pubkey
  pub permissions : ℕ  -- u8
  pub key_asset : Pubkey
  pub key_state_pda : Option Pubkey
  pub deposited_nav : ℕ  -- u64
  pub user_debt : ℕ  -- u64
  pub is_admin : Bool
  pub is_recovery : Bool
  pub name : Text

pub record KeyEntry : Type 0 where
  pub pda : Pubkey
  pub asset : Pubkey
  pub permissions : ℕ  -- u8
  pub held_by_signer : Bool
  pub name : Text
  pub sell_bucket : Option RateBucket
  pub borrow_bucket : Option RateBucket
  pub total_sell_limit : ℕ  -- u64
  pub total_sold : ℕ  -- u64
  pub total_borrow_limit : ℕ  -- u64
  pub total_borrowed : ℕ  -- u64

pub record PromoEntry : Type 0 where
  pub pda : Pubkey
  pub config : PromoConfig

-- A market of the markets file, without its price, which is only drawn.
pub record MarketEntry : Type 0 where
  pub nav_symbol : Text
  pub nav_mint : Text
  pub base_mint : Text
  pub market_group : Text
  pub market_metadata : Text
  pub mayflower_market : Text
  pub base_vault : Text
  pub nav_vault : Text
  pub fee_vault : Text
  pub supported : Bool

-- A keypair among the signers is its public key.
pub record PendingAction : Type 0 where
  pub description : List Text
  pub instructions : List Instruction
  pub extra_signers : List Pubkey

pub record PositionSnapshot : Type 0 where
  pub deposited_nav : ℕ
  pub user_debt : ℕ
  pub borrow_capacity : ℕ

-- A field of the form: its label and its value.
abbrev pub Field : Type 0
Field = Text × Text

-- The connection and the verbosity are left out, and the clock of the last refresh; the keypair
-- is its public key.
pub record App : Type 0 where
  pub keypair : Pubkey
  pub should_quit : Bool
  pub screen : Screen
  pub message_log : List Text
  pub protocol_exists : Bool
  pub collection : Option Pubkey
  pub position_pda : Option Pubkey
  pub position : Option PositionState
  pub my_permissions : Option ℕ
  pub my_key_state_pda : Option Pubkey
  pub my_asset : Option Pubkey
  pub keyring : List KeyEntry
  pub market_config_pda : Option Pubkey
  pub market_config : Option MarketConfig
  pub program_pda : Pubkey
  pub pp_pda : Pubkey
  pub escrow_pda : Pubkey
  pub log_pda : Pubkey
  pub wsol_ata : Pubkey
  pub nav_sol_ata : Pubkey
  pub mayflower_initialized : Bool
  pub wsol_balance : ℕ
  pub nav_sol_balance : ℕ
  pub atas_exist : Bool
  pub mf_deposited_shares : ℕ
  pub mf_debt : ℕ
  pub mf_floor_price : ℕ
  pub mf_borrow_capacity : ℕ
  pub current_slot : ℕ
  pub form_kind : Option FormKind
  pub form_fields : List Field
  pub form_info : Option Text
  pub form_readonly : Bool
  pub form_locked : Bool
  pub input_field : ℕ
  pub input_buf : Text
  pub perm_bits : ℕ  -- u8
  pub perm_cursor : ℕ
  pub discovered_positions : List DiscoveredPosition
  pub position_list_cursor : ℕ
  pub key_cursor : ℕ
  pub promos : List PromoEntry
  pub promo_cursor : ℕ
  pub pending_action : Option PendingAction
  pub pre_tx_snapshot : Option PositionSnapshot
  pub last_tx_signature : Option Text
  pub pending_select_asset : Option Pubkey
  pub loaded_markets : List MarketEntry
  pub market_picker_cursor : ℕ
  pub market_name_override : Option Text
  pub pending_market_addresses : Option MarketAddresses

-- The log keeps its last 100 lines.
unfoldable pub push_log : Text → App → App
push_log msg app =
    let grown = app.message_log ++ msg ∷ [] in
    record app { message_log = if ltb 100 (length grown) then drop 1 grown else grown }

unfoldable pub has_perm : App → ℕ → Bool
has_perm app perm = elim app.my_permissions [ none ↦ false | some p ↦ has_any p perm ]

unfoldable pub cpi_ready : App → Bool
cpi_ready app = app.mayflower_initialized

unfoldable pub can_buy : App → Bool
unfolding has_perm cpi_ready
can_buy app = cpi_ready app && has_perm app perm_buy

unfoldable pub can_sell : App → Bool
unfolding has_perm cpi_ready
can_sell app = cpi_ready app && (has_perm app perm_sell || has_perm app perm_limited_sell)

unfoldable pub can_borrow : App → Bool
unfolding has_perm cpi_ready
can_borrow app = cpi_ready app && (has_perm app perm_borrow || has_perm app perm_limited_borrow)

unfoldable pub can_repay : App → Bool
unfolding has_perm cpi_ready
can_repay app =
    cpi_ready app
    && elim app.position [ none ↦ false | some p ↦ ltb 0 p.user_debt ]
    && has_perm app perm_repay

unfoldable pub can_reinvest : App → Bool
unfolding has_perm cpi_ready
can_reinvest app = cpi_ready app && has_perm app perm_reinvest

unfoldable pub find_field : List Field → Text → Option Text
unfolding starts_with
find_field [] prefix = none
find_field ((label, value) ∷ fields) prefix =
    let rest = find_field fields prefix in if starts_with prefix label then some value else rest

unfoldable pub find_field_value : App → Text → Option Text
unfolding find_field
find_field_value app prefix = find_field app.form_fields prefix

unfoldable pub goto_confirm : PendingAction → App → App
goto_confirm action app = record app { pending_action = some action; screen = Screen.confirm }

unfoldable pub take_snapshot : App → Option PositionSnapshot
take_snapshot app = elim app.position [
  | none ↦ none
  | some p ↦ some (record {
    deposited_nav = p.deposited_nav;
    user_debt = p.user_debt;
    borrow_capacity = app.mf_borrow_capacity;
  })
]
