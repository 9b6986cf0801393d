-- ===== src/Tests/Forms.antt =====
-- Runs and examples of the form of the client, crates/tui/src/app.rs.
use hardig.Base.{◌≡◌, refl, arith, some, List, [], ◌∷◌}
use hardig.Error.{ok}
use hardig.Runtime.{codes}
use hardig.State.{KeyCreatorOrigin}
use hardig.Decimal.{u8_text}
use hardig.Permissions.{validate_delegated_permissions}
use hardig.Keys.Authorize.{Grant}
use hardig.Client.{App, Field, FormKind, Screen}
use hardig.Format.{format_sol_amount}
use hardig.Client.Attempt.{built}
use hardig.Client.Texts.{lamports_to_sol}
use hardig.Client.Amounts.{lamports_to_sol_agrees}
use hardig.Client.Build.Keys.{form_grant, form_permissions}
use hardig.Client.Form.{KeyCode, value_of}
use hardig.Client.Form.Keys.{handle_form}
use hardig.Client.Form.Perms.{rebuilt_fields}
use hardig.Client.Form.Kept.{FormOk}
use hardig.Client.Form.Kept.Typing.{handle_form-FormOk}
use hardig.Client.Form.Grants.{form_grant-validates}
use hardig.Tests.World.{world}
use hardig.Tests.Desk.{desk, reader, node, start}

-- The form of a new key, with the focus on the permissions and the cursor on the limited sale.
abbrev granting : App
granting = record start {
  screen = Screen.form;
  form_kind = some FormKind.authorize_key;
  form_fields =
      (codes "Target Wallet (pubkey)", codes "5")
      ∷ (codes "Permissions", codes "25")
      ∷ (codes "Label (optional)", [])
      ∷ [];
  input_field = 1;
  input_buf = codes "25";
  perm_bits = 25;
  perm_cursor = 5;
}

granting-FormOk : FormOk granting
unfolding value_of u8_text
granting-FormOk = record {
  focused = omega arith;
  cursor = omega arith;
  byte = omega arith;
  delegable = refl;
  ticked = λ _. record { long = omega arith; spelled = refl; typed = λ _. refl };
}

handle_form-FormOk_example :
    (after : App) × (handle_form world desk reader node 90 (KeyCode.char b' ') granting
      ≡ some after)
    × FormOk after
handle_form-FormOk_example =
    handle_form-FormOk world desk reader node 90 (KeyCode.char b' ') granting tt granting-FormOk

-- A key that may buy, and sell 2 SOL a day.
abbrev sale_fields : List Field
sale_fields =
    (codes "Sell Capacity (SOL)", codes "2")
    ∷ (codes "Sell Refill Days", codes "1")
    ∷ (codes "Label (optional)", codes "shop")
    ∷ []

abbrev sale : Grant
sale = record {
  permissions = 65;
  sell_bucket_capacity = 2_000_000_000;
  sell_refill_period_slots = 216_000;
  borrow_bucket_capacity = 0;
  borrow_refill_period_slots = 0;
  total_sell_limit = 0;
  total_borrow_limit = 0;
  name = some (codes "shop");
}

abbrev sale_form : List Field
sale_form =
    (codes "Target Wallet (pubkey)", codes "5") ∷ (codes "Permissions", u8_text 65) ∷ sale_fields

sale_permissions : form_permissions (rebuilt_fields 65 sale_form) ≡ built 65
unfolding form_permissions rebuilt_fields u8_text
sale_permissions = refl

sale_granted : form_grant desk (rebuilt_fields 65 sale_form) 65 ≡ built sale
unfolding form_grant rebuilt_fields
sale_granted = refl

form_grant-validates_example :
    (sale.permissions ≡ 65)
    × (validate_delegated_permissions KeyCreatorOrigin.admin 65 2_000_000_000 216_000 0 0 0 0
        ≡ ok tt)
form_grant-validates_example =
    form_grant-validates desk (codes "5") sale_fields 65 sale 65 (omega arith) sale_permissions
      sale_granted

-- One and a half.
lamports_to_sol_agrees_example : lamports_to_sol 1_500_000_000 ≡ format_sol_amount 1_500_000_000
lamports_to_sol_agrees_example = lamports_to_sol_agrees 1_500_000_000

fraction_text : lamports_to_sol 1_500_000_000 ≡ codes "1.5"
unfolding lamports_to_sol hardig.Decimal.u64_text
fraction_text = refl
