-- ===== src/Client/Enter/Ready.antt =====
-- The screens around the form of crates/tui/src/app.rs as a step relation, and what the steps keep.
-- This file has the forms as they open; `Steps` the relation.
pub mod Stays
pub mod Cases
pub mod Picker
pub mod Promos
pub mod Steps
use hardig.Base.{
  ℕ, zero, suc, ◌+◌, ◌-◌, ◌<◌, ◌≤◌, ◌≡◌, refl, sym, ◌∙◌, arith, Bool, true, false, Option, none,
  some, List, [], ◌∷◌, length, ltb, ◌==◌, if◌then◌else◌, Bool-cases, Option-cases, inl, inr, ◌&&◌,
}
use hardig.Runtime.{Runtime, Pubkey, Text, default_key}
use hardig.State.{PositionState, perm_manage_keys}
use hardig.Permissions.{has_any}
use hardig.Client.{Host, App, Screen, FormKind, KeyEntry, MarketEntry, push_log}
use hardig.Client.Chain.{Rpc}
use hardig.Client.Form.{value_of}
use hardig.Client.Form.Kept.{FormOk, Ticked, has_perms}
use hardig.Client.Enter.{
  open_create_position, enter_authorize_key, enter_buy, enter_sell, enter_borrow, enter_repay,
  enter_revoke_key, enter_create_promo, enter_configure_recovery, revocable,
}

-- The ticked permissions and their cursor are in range.
abbrev pub PermsOk : App → Type 0
PermsOk app =
    (app.perm_cursor ≤ 6) × (app.perm_bits < 256) × (has_any app.perm_bits perm_manage_keys ≡ false)

-- An open form is in order, and the picker of a market points at one.
abbrev pub Ready : App → Type 0
Ready app =
    PermsOk app
    × (app.screen ≡ Screen.form → FormOk app)
    × (app.screen ≡ Screen.market_picker → app.market_picker_cursor < length app.loaded_markets)

form_not_picker : (s : Screen) → s ≡ Screen.form → ¬ (s ≡ Screen.market_picker)
form_not_picker s h k = cc

-- A form without a field for the permissions.
pub plain-Ready :
    (app : App)
    → PermsOk app
    → app.input_field < length app.form_fields
    → has_perms app ≡ false
    → app.screen ≡ Screen.form
    → Ready app
plain-Ready app perms inside plain open_now = (
  perms,
  λ _. record {
    focused = inside;
    cursor = perms.0;
    byte = perms.1;
    delegable = perms.2;
    ticked = λ h. absurd (true_false (sym h ∙ plain));
  },
  λ picking. absurd (form_not_picker app.screen open_now picking),
)
  where
    true_false : ¬ (true ≡ false)
    true_false h = cc

pub create_position-Ready : (app : App) → PermsOk app → Ready (open_create_position app)
unfolding open_create_position
create_position-Ready app perms =
    plain-Ready (open_create_position app) perms (omega arith) refl refl

pub buy-Ready : (app : App) → PermsOk app → Ready (enter_buy app)
unfolding enter_buy
buy-Ready app perms = plain-Ready (enter_buy app) perms (omega arith) refl refl

pub sell-Ready : (app : App) → PermsOk app → Ready (enter_sell app)
unfolding enter_sell
sell-Ready app perms = plain-Ready (enter_sell app) perms (omega arith) refl refl

pub borrow-Ready : (app : App) → PermsOk app → Ready (enter_borrow app)
unfolding enter_borrow
borrow-Ready app perms = plain-Ready (enter_borrow app) perms (omega arith) refl refl

pub repay-Ready : (app : App) → PermsOk app → Ready (enter_repay app)
unfolding enter_repay
repay-Ready app perms = plain-Ready (enter_repay app) perms (omega arith) refl refl

-- The forms with a field for the permissions set them first.
pub authorize-Ready : (rt : Runtime) (app : App) → Ready (enter_authorize_key rt app)
unfolding enter_authorize_key value_of
authorize-Ready rt app = (
  (omega arith, omega arith, refl),
  λ _. record {
    focused = omega arith;
    cursor = omega arith;
    byte = omega arith;
    delegable = refl;
    ticked =
        λ _. record { long = omega arith; spelled = refl; typed = λ e. absurd (omega (arith, e)) };
  },
  λ picking. absurd (form_not_picker Screen.form refl picking),
)

pub create_promo-Ready : (app : App) → Ready (enter_create_promo app)
unfolding enter_create_promo value_of
create_promo-Ready app = (
  (omega arith, omega arith, refl),
  λ _. record {
    focused = omega arith;
    cursor = omega arith;
    byte = omega arith;
    delegable = refl;
    ticked =
        λ _. record { long = omega arith; spelled = refl; typed = λ e. absurd (omega (arith, e)) };
  },
  λ picking. absurd (form_not_picker Screen.form refl picking),
)

-- Away from the form and the picker.
pub elsewhere-Ready :
    (app : App)
    → PermsOk app
    → ¬ (app.screen ≡ Screen.form)
    → ¬ (app.screen ≡ Screen.market_picker)
    → Ready app
elsewhere-Ready app perms no_form no_picker =
    (perms, λ e. absurd (no_form e), λ e. absurd (no_picker e))

dashboard_not_form : (s : Screen) → s ≡ Screen.dashboard → ¬ (s ≡ Screen.form)
dashboard_not_form s h k = cc

dashboard_not_picker : (s : Screen) → s ≡ Screen.dashboard → ¬ (s ≡ Screen.market_picker)
dashboard_not_picker s h k = cc

pub revoke-Ready :
    (rt : Runtime) (app : App)
    → app.screen ≡ Screen.dashboard
    → PermsOk app
    → Ready (enter_revoke_key rt app)
unfolding enter_revoke_key push_log
revoke-Ready rt app here perms =
    shown
      (revocable
        (elim app.position as (λ _. Option Pubkey) [
          | none ↦ none
          | some p ↦ some p.current_admin_asset
        ])
        app.keyring)
      refl
  where
    shown :
        (ks : List KeyEntry)
        → revocable
            (elim app.position as (λ _. Option Pubkey) [
              | none ↦ none
              | some p ↦ some p.current_admin_asset
            ])
            app.keyring
          ≡ ks
        → Ready (enter_revoke_key rt app)
    shown [] e =
        rw (enter_revoke_key, e)
          (elsewhere-Ready _ perms (dashboard_not_form app.screen here)
            (dashboard_not_picker app.screen here))
    shown (k ∷ ks) e = rw (enter_revoke_key, e) (plain-Ready _ perms (omega arith) refl refl)

pub configure-Ready :
    (rt : Runtime) (rpc : Rpc) (app : App)
    → app.screen ≡ Screen.dashboard
    → PermsOk app
    → Ready (enter_configure_recovery rt rpc app)
unfolding enter_configure_recovery push_log
configure-Ready rt rpc app here perms = elim (Option-cases app.position) [
  | inl missing ↦
      (rw (enter_configure_recovery, missing)
        (elsewhere-Ready _ perms (dashboard_not_form app.screen here)
          (dashboard_not_picker app.screen here)))
  | inr (p, loaded) ↦ elim (Bool-cases (p.recovery_asset == default_key)) [
    | inl unset ↦
        rw (enter_configure_recovery, loaded, unset) (plain-Ready _ perms (omega arith) refl refl)
    | inr set_up ↦
        rw (enter_configure_recovery, loaded, set_up) (plain-Ready _ perms (omega arith) refl refl)
  ]
]
