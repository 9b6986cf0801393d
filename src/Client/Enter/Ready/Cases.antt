-- ===== src/Client/Enter/Ready/Cases.antt =====
-- The screens and the results of the handlers of crates/tui/src/app.rs, case by case.
use hardig.Base.{◌<◌, ◌≡◌, subst, Bool, true, false, Option, none, some, length, if◌then◌else◌}
use hardig.Client.{App, Screen}
use hardig.Client.Form.Kept.{FormOk}
use hardig.Client.Enter.Ready.{
  PermsOk, Ready, elsewhere-Ready, dashboard_not_form, dashboard_not_picker,
}

abbrev pub AtMarket : App → Type 0
AtMarket app = app.market_picker_cursor < length app.loaded_markets

pub FormOk-perms : (a : App) → FormOk a → PermsOk a
FormOk-perms a fine = (fine.cursor, fine.byte, fine.delegable)

pub some_app : {a b : App} → some a ≡ some b → a ≡ b
some_app h = cc

pub promo_not_form : (s : Screen) → s ≡ Screen.promo_list → ¬ (s ≡ Screen.form)
promo_not_form s h k = cc

pub promo_not_picker : (s : Screen) → s ≡ Screen.promo_list → ¬ (s ≡ Screen.market_picker)
promo_not_picker s h k = cc

pub picker_not_form : (s : Screen) → s ≡ Screen.market_picker → ¬ (s ≡ Screen.form)
picker_not_form s h k = cc

-- What holds of every result that is not a panic.
abbrev pub Each : Option App → Type 0
Each none = Unit
Each (some a) = Ready a

pub Each-if : (test : Bool) (x y : Option App) → Each x → Each y → Each (if test then x else y)
Each-if true x y h k = h
Each-if false x y h k = k

pub Each-some : (r : Option App) (b : App) → Each r → r ≡ some b → Ready b
Each-some none b h e = cc
Each-some (some a) b h e = subst Ready (some_app e) h

pub dashboard-Ready : (app : App) → PermsOk app → app.screen ≡ Screen.dashboard → Ready app
dashboard-Ready app perms here =
    elsewhere-Ready app perms (dashboard_not_form app.screen here)
      (dashboard_not_picker app.screen here)

pub promo_list-Ready : (app : App) → PermsOk app → app.screen ≡ Screen.promo_list → Ready app
promo_list-Ready app perms here =
    elsewhere-Ready app perms (promo_not_form app.screen here) (promo_not_picker app.screen here)

pub picker-Ready :
    (app : App) → PermsOk app → app.screen ≡ Screen.market_picker → AtMarket app → Ready app
picker-Ready app perms here market =
    (perms, λ s. absurd (picker_not_form app.screen here s), λ _. market)
