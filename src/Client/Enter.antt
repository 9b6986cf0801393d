-- ===== src/Client/Enter.antt =====
-- The screens of crates/tui/src/app.rs that open a form: the functions `enter_…`, the list of
-- promotions and the picker of a market. This file has the forms that show nothing of the chain;
-- `Lists` has the rest.
pub mod Lists
pub mod Ready
pub mod Rereads
use hardig.Base.{
  ℕ, zero, suc, ◌+◌, ◌/◌, ◌%◌, Bool, true, false, ◌&&◌, Option, none, some, List, [], ◌∷◌, ◌++◌,
  ltb, ◌==◌, if◌then◌else◌, not, ℤ, pos, negsuc,
}
use hardig.Runtime.{Runtime, Pubkey, Text, codes, default_key}
use hardig.State.{preset_operator, perm_buy, perm_limited_borrow}
use hardig.Decimal.{u8_text, u64_text}
use hardig.Format.{unwrap_or}
use hardig.Client.{Host, App, Field, Screen, FormKind, KeyEntry, push_log}
use hardig.Client.Texts.{lamports_to_sol, permissions_name, short_pubkey}
use hardig.Client.Build.{nav_token_name}
use hardig.Client.Build.Recovery.{bool_text}
use hardig.Client.Chain.{Rpc, read_asset_name, read_asset_owner_pubkey}

-- The assignments that every form starts with
abbrev pub open_form : FormKind → Option Text → List Field → ℕ → Text → App → App
open_form kind info fields i buf app = record app {
  screen = Screen.form;
  form_info = info;
  form_readonly = false;
  form_locked = false;
  form_kind = some kind;
  form_fields = fields;
  input_field = i;
  input_buf = buf;
}

unfoldable pub open_create_position : App → App
open_create_position =
    open_form FormKind.create_position none ((codes "Label (optional)", []) ∷ []) 0 []

unfoldable pub enter_authorize_key : Runtime → App → App
enter_authorize_key rt app =
    let my_wallet = rt.key_text app.keypair in
    open_form FormKind.authorize_key none
      ((codes "Target Wallet (pubkey)", my_wallet)
        ∷ (codes "Permissions", u8_text preset_operator)
        ∷ (codes "Label (optional)", [])
        ∷ [])
      0 my_wallet (record app { perm_bits = preset_operator; perm_cursor = 0 })

unfoldable pub enter_buy : App → App
enter_buy = open_form FormKind.buy none ((codes "Amount (SOL)", codes "1") ∷ []) 0 (codes "1")

unfoldable pub enter_sell : App → App
unfolding lamports_to_sol nav_token_name
enter_sell app =
    let max : ℕ = elim app.position [ none ↦ 0 | some p ↦ p.deposited_nav ] in
    let nav : Text = elim app.market_config [
      | none ↦ codes "shares"
      | some mc ↦ nav_token_name mc.nav_mint
    ] in
    open_form FormKind.sell (some (codes "Available: " ++ lamports_to_sol max ++ codes " " ++ nav))
      ((codes "Amount (" ++ nav ++ codes ")", lamports_to_sol max) ∷ []) 0 (lamports_to_sol max) app

unfoldable pub enter_borrow : App → App
enter_borrow = open_form FormKind.borrow none ((codes "Amount (SOL)", []) ∷ []) 0 []

unfoldable pub enter_repay : App → App
unfolding lamports_to_sol
enter_repay app =
    let max : ℕ = elim app.position [ none ↦ 0 | some p ↦ p.user_debt ] in
    open_form FormKind.repay none ((codes "Amount (SOL)", lamports_to_sol max) ∷ []) 0
      (lamports_to_sol max) app

abbrev pub is_admin_key : Option Pubkey → KeyEntry → Bool
is_admin_key none k = false
is_admin_key (some admin) k = k.asset == admin

-- `.filter(|(_, k)| Some(k.asset) != admin_asset_key)`
unfoldable pub revocable : Option Pubkey → List KeyEntry → List KeyEntry
revocable admin [] = []
revocable admin (k ∷ ks) =
    let rest = revocable admin ks in if is_admin_key admin k then rest else k ∷ rest

-- One line per key, numbered from `idx`
unfoldable pub describe_keys : Runtime → ℕ → List KeyEntry → Text
unfolding short_pubkey permissions_name u64_text
describe_keys rt idx [] = []
describe_keys rt idx (k ∷ ks) =
    u64_text idx
    ++ codes ": "
    ++ short_pubkey rt k.asset
    ++ codes " ("
    ++ permissions_name k.permissions
    ++ codes ")\n"
    ++ describe_keys rt (suc idx) ks

unfoldable pub enter_revoke_key : Runtime → App → App
unfolding revocable describe_keys push_log
enter_revoke_key rt app =
    let reset = record app { form_info = none; form_readonly = false; form_locked = false } in
    elim (revocable (elim app.position [ none ↦ none | some p ↦ some p.current_admin_asset ])
      app.keyring) [
        | [] ↦ push_log (codes "No non-admin keys to revoke.") reset
        | k ∷ ks ↦
            open_form FormKind.revoke_key none
              ((codes "Available keys", describe_keys rt 0 (k ∷ ks))
                ∷ (codes "Key index to revoke", codes "0")
                ∷ [])
              1 (codes "0") reset
      ]

unfoldable pub enter_create_promo : App → App
enter_create_promo app =
    let default_perms = perm_buy + perm_limited_borrow in
    open_form FormKind.create_promo none
      ((codes "Name Suffix", [])
        ∷ (codes "Permissions", u8_text default_perms)
        ∷ (codes "Borrow Capacity (SOL)", codes "0.05")
        ∷ (codes "Borrow Refill Days", codes "90")
        ∷ (codes "Borrow Refill Hours", codes "0")
        ∷ (codes "Borrow Refill Minutes", codes "0")
        ∷ (codes "Sell Capacity (SOL)", codes "0")
        ∷ (codes "Sell Refill Days", codes "0")
        ∷ (codes "Sell Refill Hours", codes "0")
        ∷ (codes "Sell Refill Minutes", codes "0")
        ∷ (codes "Min Deposit (SOL)", codes "0.02")
        ∷ (codes "Max Claims (0=unlimited)", codes "0")
        ∷ (codes "Initial Fill %", codes "100")
        ∷ (codes "Image URI (optional)", [])
        ∷ [])
      0 [] (record app { perm_bits = default_perms; perm_cursor = 0 })

-- A part of a time in seconds, as `/` and `%` on `i64` give it: towards 0, with its sign.
unfoldable pub signed_part : (ℕ → ℕ) → ℤ → Text
unfolding u64_text
signed_part part (pos n) = u64_text (part n)
signed_part part (negsuc n) =
    if part (suc n) == 0 then codes "0" else codes "-" ++ u64_text (part (suc n))

abbrev pub recovery_fields : Text → Text → Text → Text → Text → Text → List Field
recovery_fields wallet days hours minutes lock label =
    (codes "Target Wallet (pubkey)", wallet)
    ∷ (codes "Grace Period Days", days)
    ∷ (codes "Grace Period Hours", hours)
    ∷ (codes "Grace Period Minutes", minutes)
    ∷ (codes "Lock config? (true/false)", lock)
    ∷ (codes "Label (optional)", label)
    ∷ []

-- Where no recovery is configured, the lock of the form before stays.
unfoldable pub enter_configure_recovery : Runtime → Rpc → App → App
unfolding push_log signed_part read_asset_name read_asset_owner_pubkey
enter_configure_recovery rt rpc app = elim app.position [
  | none ↦ push_log (codes "No position loaded") app
  | some p ↦
      (let secs = p.recovery_lockout_secs in
        if p.recovery_asset == default_key
        then record app {
          screen = Screen.form;
          form_kind = some FormKind.configure_recovery;
          form_fields = recovery_fields [] (codes "7") (codes "0") (codes "0") (codes "false") [];
          form_readonly = false;
          form_info = none;
          input_field = 0;
          input_buf = [];
        }
        else record app {
          screen = Screen.form;
          form_kind = some FormKind.configure_recovery;
          form_fields =
              recovery_fields
                (elim (read_asset_owner_pubkey rpc p.recovery_asset) [
                  | none ↦ []
                  | some owner ↦ rt.key_text owner
                ])
                (signed_part (λ n. n / 86400) secs) (signed_part (λ n. n % 86400 / 3600) secs)
                (signed_part (λ n. n % 3600 / 60) secs) (bool_text p.recovery_config_locked)
                (unwrap_or (read_asset_name rt rpc p.recovery_asset) []);
          form_readonly = true;
          form_locked = p.recovery_config_locked;
          form_info = some (
              if p.recovery_config_locked
              then codes "Recovery settings are permanently locked."
              else codes
                  "Recovery is configured. Press Enter to edit.\nWarning: editing will burn the current recovery key\nand mint a new one to the target wallet.");
          input_field = 0;
          input_buf = [];
        })
]
