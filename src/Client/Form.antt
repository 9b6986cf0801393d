-- ===== src/Client/Form.antt =====
-- The form of crates/tui/src/app.rs. This file has the keys and what the handlers do with the
-- fields; `Perms` has the field of the permissions, `Keys` the handler. A result of `none` is a
-- panic: an index out of range, or an overflow in a builder.
pub mod Perms
pub mod Keys
pub mod Kept
pub mod Grants
use hardig.Base.{
  ℕ, zero, suc, ◌+◌, ◌-◌, ◌%◌, Bool, true, false, ◌&&◌, ◌||◌, Option, none, some, List, [], ◌∷◌,
  ◌++◌, length, take, ltb, leb, ◌==◌, if◌then◌else◌, bit_xor,
}
use hardig.Runtime.{Runtime, Pubkey, Text, codes}
use hardig.State.{
  perm_buy, perm_sell, perm_borrow, perm_repay, perm_reinvest, perm_limited_sell,
  perm_limited_borrow,
}
use hardig.Decimal.{u8_text}
use hardig.Format.{unwrap_or}
use hardig.Permissions.{has_any}
use hardig.Anchor.{Anchor}
use hardig.Client.{Host, App, Field, Screen, FormKind, find_field}
use hardig.Client.Texts.{starts_with, is_empty}
use hardig.Client.Attempt.{settle}
use hardig.Client.Chain.{Rpc}
use hardig.Client.Build.Trade.{buy_action, sell_action, borrow_action, repay_action}
use hardig.Client.Build.Keys.{authorize_action, revoke_action}
use hardig.Client.Build.Recovery.{configure_recovery_action}
use hardig.Client.Build.Promo.{create_promo_action, max_claims_action, toggle_active_action}
use hardig.Client.Build.Position.{build_create_position}

-- `crossterm::event::KeyCode`, as far as the handlers tell keys apart.
pub data KeyCode : Type 0 where
  char : ℕ → KeyCode
  enter esc tab back_tab backspace up down left right other : KeyCode

-- `.and_then` on the state, where a panic ends the handler.
abbrev pub then_do : Option App → (App → Option App) → Option App
then_do none next = none
then_do (some app) next = next app

-- `fields[i].1`
unfoldable pub value_of : List Field → ℕ → Option Text
value_of [] i = none
value_of ((label, value) ∷ fields) zero = some value
value_of (_ ∷ fields) (suc i) = value_of fields i

-- `fields[i].1 = value`, for an index in range
unfoldable pub set_value : List Field → ℕ → Text → List Field
set_value [] i value = []
set_value ((label, _) ∷ fields) zero value = (label, value) ∷ fields
set_value (field ∷ fields) (suc i) value = field ∷ set_value fields i value

-- `self.form_fields[self.input_field].1 = self.input_buf.clone()`
unfoldable pub store_input : App → Option App
unfolding set_value
store_input app =
    if ltb app.input_field (length app.form_fields)
    then some (record app { form_fields = set_value app.form_fields app.input_field app.input_buf })
    else none

-- `self.input_field = i; self.input_buf = self.form_fields[i].1.clone()`
unfoldable pub focus : ℕ → App → Option App
unfolding value_of
focus i app = elim (value_of app.form_fields i) [
  | none ↦ none
  | some value ↦ some (record app { input_field = i; input_buf = value })
]

-- `String::pop`
unfoldable pub pop : Text → Text
pop [] = []
pop (c ∷ []) = []
pop (c ∷ d ∷ s) = c ∷ pop (d ∷ s)

abbrev pub is_kind : FormKind → Option FormKind → Bool
is_kind FormKind.authorize_key (some FormKind.authorize_key) = true
is_kind FormKind.create_promo (some FormKind.create_promo) = true
is_kind FormKind.update_promo (some FormKind.update_promo) = true
is_kind _ _ = false
