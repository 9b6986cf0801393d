-- ===== src/Tests/Desk.antt =====
-- The client in the small world: its state after the selection of the position, what it calls, and
-- the runs and examples of its theorems.
use hardig.Base.{
  ℕ, ◌*◌, ◌/◌, ◌<◌, ◌^◌, ◌≡◌, refl, arith, true, false, Option, none, some, [], ◌∷◌, ◌++◌, length,
  take, drop, take-append, drop-append, replicate, leb, ltb, if◌then◌else◌, from_le_bytes,
  to_le_bytes, from_le_bytes-to_le_bytes, length-to_le_bytes, length-append,
}
use hardig.Runtime.{Runtime, Store, Bytes, AccountInfo, codes}
use hardig.Anchor.{Anchor}
use hardig.Entry.{Borsh}
use hardig.Client.{Host, App, Screen, FormKind, DiscoveredPosition}
use hardig.Client.Texts.{parse_unsigned}
use hardig.Client.Chain.{Rpc}
use hardig.Tests.World.{
  world, store, set, config, position, market, key_state, holder, admin_key, key_collection,
}

-- Numbers of SOL are whole here.
abbrev pub desk : Host
desk = record {
  sha256 = λ bytes. replicate 32 7;
  parse_key = λ text. parse_unsigned (2 ^ 64) text;
  f64 = ℕ;
  parse_f64 = λ text. parse_unsigned (2 ^ 32) text;
  f64_lt = ltb;
  f64_le = leb;
  f64_mul = λ a b. a * b;
  f64_div = λ a b. a / b;
  f64_round = λ a. a;
  to_f64 = λ a. a;
  f64_as_u64 = λ a. a;
  f64_as_u16 = λ a. a;
  f64_text = λ a. a ∷ [];
  set_compute_unit_limit = λ n. record { program = 1; metas = []; payload = n ∷ [] };
  system_transfer = λ from to n. record { program = 0; metas = []; payload = n ∷ [] };
  sync_native = λ k. record { program = 13; metas = []; payload = k ∷ [] };
}

-- An account of the program holds the record that its first byte names.
abbrev pub reader : Anchor
reader = record {
  position_state = λ bytes. some position;
  protocol_config = λ bytes. some config;
  market_config = λ bytes. some market;
  key_state = λ bytes. some key_state;
  promo_config = λ bytes. none;
}

abbrev pub read_le : ℕ → Bytes → Option (ℕ × Bytes)
read_le n bytes =
    if leb n (length bytes) then some (from_le_bytes (take n bytes), drop n bytes) else none

pub read_le_lem :
    (n x : ℕ) (rest : Bytes) → x < 256 ^ n → read_le n (to_le_bytes n x ++ rest) ≡ some (x, rest)
read_le_lem n x rest h =
    let long : leb n (length (to_le_bytes n x ++ rest)) ≡ true =
      ground (arith, length-append (to_le_bytes n x) rest, length-to_le_bytes n x) in
    rw
      (
        long,
        take-append (to_le_bytes n x) rest n (length-to_le_bytes n x),
        drop-append (to_le_bytes n x) rest n (length-to_le_bytes n x),
        from_le_bytes-to_le_bytes n x h,
      )
      refl

abbrev pub borsh : Borsh
borsh = record { read_uint = read_le; read_uint_le = read_le_lem }

-- The accounts of the program: the position, the configuration, the market and the key's state.
abbrev pub owned : AccountInfo
owned = record { owner = 11; lamports = 1; bytes = 1 ∷ [] }

abbrev pub chain : Store
chain = set 108 owned (set 106 owned (set 41 owned (set 110 owned store)))

abbrev pub discovered : DiscoveredPosition
discovered = record {
  position_pda = 108;
  admin_asset = admin_key;
  permissions = 0x3f;
  key_asset = admin_key;
  key_state_pda = none;
  deposited_nav = 500;
  user_debt = 100;
  is_admin = true;
  is_recovery = false;
  name = [];
}

abbrev pub start : App
start = record {
  keypair = holder;
  should_quit = false;
  screen = Screen.dashboard;
  message_log = [];
  protocol_exists = true;
  collection = some key_collection;
  position_pda = some 108;
  position = some position;
  my_permissions = some 0x3f;
  my_key_state_pda = none;
  my_asset = some admin_key;
  keyring = [];
  market_config_pda = some 41;
  market_config = some market;
  program_pda = 109;
  pp_pda = 117;
  escrow_pda = 124;
  log_pda = 103;
  wsol_ata = 161;
  nav_sol_ata = 160;
  mayflower_initialized = true;
  wsol_balance = 0;
  nav_sol_balance = 0;
  atas_exist = false;
  mf_deposited_shares = 500;
  mf_debt = 100;
  mf_floor_price = 0;
  mf_borrow_capacity = 0;
  current_slot = 1000;
  form_kind = some FormKind.buy;
  form_fields = (codes "Amount (SOL)", codes "3") ∷ [];
  form_info = none;
  form_readonly = false;
  form_locked = false;
  input_field = 0;
  input_buf = codes "3";
  perm_bits = 0x19;
  perm_cursor = 0;
  discovered_positions = discovered ∷ [];
  position_list_cursor = 0;
  key_cursor = 0;
  promos = [];
  promo_cursor = 0;
  pending_action = none;
  pre_tx_snapshot = none;
  last_tx_signature = none;
  pending_select_asset = none;
  loaded_markets = [];
  market_picker_cursor = 0;
  market_name_override = none;
  pending_market_addresses = none;
}

abbrev pub node : Rpc
node = record {
  get_slot = some 1000;
  get_account = λ k. some (chain k);
  accounts_of_size = λ n. none;
  accounts_with = λ filters. none;
  scan_error = [];
}

-- A world in which the token accounts are at the addresses that the client derives.
abbrev pub derived_world : Runtime
derived_world = record world { associated_token_address = λ wallet mint. 132 }
