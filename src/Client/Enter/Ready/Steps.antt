-- ===== src/Client/Enter/Ready/Steps.antt =====
-- The keys that open, fill and leave the screens of crates/tui/src/app.rs, as steps: the dispatch of
-- `run`, and the keys of `handle_dashboard` that open a form or a list, under their guards.
use hardig.Base.{◌≡◌, refl, sym, ◌∙◌, subst, true, some}
use hardig.Runtime.{Runtime, Pubkey}
use hardig.State.{perm_manage_keys}
use hardig.Anchor.{Anchor}
use hardig.Client.{Host, App, Screen, has_perm, can_buy, can_sell, can_borrow, can_repay}
use hardig.Client.Chain.{Rpc}
use hardig.Client.Form.{KeyCode}
use hardig.Client.Form.Keys.{handle_form}
use hardig.Client.Form.Kept.{FormOk}
use hardig.Client.Form.Kept.Typing.{IsTyping, handle_form-FormOk}
use hardig.Client.Enter.{
  enter_authorize_key, enter_buy, enter_sell, enter_borrow, enter_repay, enter_revoke_key,
  enter_configure_recovery,
}
use hardig.Client.Enter.Lists.{
  enter_create_position, handle_market_picker, enter_promo_list, handle_promo_list, handle_result,
}
use hardig.Client.Enter.Ready.Stays.{Shows, handle_form-Shows}
use hardig.Client.Enter.Ready.{
  PermsOk, Ready, buy-Ready, sell-Ready, borrow-Ready, repay-Ready, authorize-Ready, revoke-Ready,
  configure-Ready,
}
use hardig.Client.Enter.Ready.Cases.{
  FormOk-perms, some_app, picker_not_form, Each-some, dashboard-Ready,
}
use hardig.Client.Enter.Ready.Picker.{create-Ready, picker_key-Ready}
use hardig.Client.Enter.Ready.Promos.{enter_promo_list-Ready, promo_key-Each}

typed-Ready : (app : App) → FormOk app → app.screen ≡ Screen.form → Ready app
typed-Ready app fine here =
    (FormOk-perms app fine, λ _. fine, λ s. absurd (picker_not_form app.screen s here))

closed-Ready : (key : KeyCode) (app : App) → PermsOk app → Ready (handle_result key app)
unfolding handle_result
closed-Ready key app perms = dashboard-Ready _ perms refl

module _ (rt : Runtime) (host : Host) (anchor : Anchor) (rpc : Rpc) (fresh : Pubkey) where
  pub data ScreenStep : App → App → Type 0 where
    types :
        (key : KeyCode) (a b : App)
        → a.screen ≡ Screen.form
        → IsTyping key
        → handle_form rt host anchor rpc fresh key a ≡ some b
        → ScreenStep a b
    lists :
        (key : KeyCode) (a b : App)
        → a.screen ≡ Screen.promo_list
        → handle_promo_list rt host anchor rpc key a ≡ some b
        → ScreenStep a b
    picks :
        (key : KeyCode) (a b : App)
        → a.screen ≡ Screen.market_picker
        → handle_market_picker host key a ≡ some b
        → ScreenStep a b
    closes :
        (key : KeyCode) (a b : App)
        → a.screen ≡ Screen.result
        → handle_result key a ≡ b
        → ScreenStep a b
    creates :
        (a b : App)
        → a.screen ≡ Screen.dashboard
        → a.protocol_exists ≡ true
        → enter_create_position host a ≡ b
        → ScreenStep a b
    authorizes :
        (a b : App)
        → a.screen ≡ Screen.dashboard
        → has_perm a perm_manage_keys ≡ true
        → enter_authorize_key rt a ≡ b
        → ScreenStep a b
    revokes :
        (a b : App)
        → a.screen ≡ Screen.dashboard
        → has_perm a perm_manage_keys ≡ true
        → enter_revoke_key rt a ≡ b
        → ScreenStep a b
    configures :
        (a b : App)
        → a.screen ≡ Screen.dashboard
        → has_perm a perm_manage_keys ≡ true
        → enter_configure_recovery rt rpc a ≡ b
        → ScreenStep a b
    promotes :
        (a b : App)
        → a.screen ≡ Screen.dashboard
        → has_perm a perm_manage_keys ≡ true
        → enter_promo_list rt host anchor rpc a ≡ b
        → ScreenStep a b
    sells :
        (a b : App)
        → a.screen ≡ Screen.dashboard
        → can_sell a ≡ true
        → enter_sell a ≡ b
        → ScreenStep a b
    borrows :
        (a b : App)
        → a.screen ≡ Screen.dashboard
        → can_borrow a ≡ true
        → enter_borrow a ≡ b
        → ScreenStep a b
    buys :
        (a b : App)
        → a.screen ≡ Screen.dashboard
        → can_buy a ≡ true
        → enter_buy a ≡ b
        → ScreenStep a b
    repays :
        (a b : App)
        → a.screen ≡ Screen.dashboard
        → can_repay a ≡ true
        → enter_repay a ≡ b
        → ScreenStep a b

  pub data ScreenSteps : App → App → Type 0 where
    stay : (a : App) → ScreenSteps a a
    step : (a b c : App) → ScreenStep a b → ScreenSteps b c → ScreenSteps a c

  step-Ready : (a b : App) → ScreenStep a b → Ready a → Ready b
  step-Ready _ _ (types key a b here typing e) ready =
      let (c, done, fine) =
        handle_form-FormOk rt host anchor rpc fresh key a typing (ready.1 here) in
      typed-Ready b (subst FormOk (some_app (sym done ∙ e)) fine)
        (subst (Shows a.screen) e (handle_form-Shows rt host anchor rpc fresh key a typing) ∙ here)
  step-Ready _ _ (lists key a b here e) ready =
      Each-some _ b (promo_key-Each rt host anchor rpc key a ready.0 here) e
  step-Ready _ _ (picks key a b here e) ready =
      Each-some _ b (picker_key-Ready host key a ready.0 here (ready.2 here)) e
  step-Ready _ _ (closes key a b here e) ready = subst Ready e (closed-Ready key a ready.0)
  step-Ready _ _ (creates a b here exists e) ready =
      subst Ready e (create-Ready host a ready.0 here)
  step-Ready _ _ (authorizes a b here may e) ready = subst Ready e (authorize-Ready rt a)
  step-Ready _ _ (revokes a b here may e) ready = subst Ready e (revoke-Ready rt a here ready.0)
  step-Ready _ _ (configures a b here may e) ready =
      subst Ready e (configure-Ready rt rpc a here ready.0)
  step-Ready _ _ (promotes a b here may e) ready =
      subst Ready e (enter_promo_list-Ready rt host anchor rpc a ready.0)
  step-Ready _ _ (sells a b here may e) ready = subst Ready e (sell-Ready a ready.0)
  step-Ready _ _ (borrows a b here may e) ready = subst Ready e (borrow-Ready a ready.0)
  step-Ready _ _ (buys a b here may e) ready = subst Ready e (buy-Ready a ready.0)
  step-Ready _ _ (repays a b here may e) ready = subst Ready e (repay-Ready a ready.0)

  -- Call the client ready when its permissions are a byte that cannot manage keys and its cursor is
  -- on one of the seven, when a form that is open has the focus on a field and spells the permissions
  -- in theirs, and when an open picker points at a market. A client that is ready stays ready after
  -- any number of key presses that do not panic: those that open a form, a list or the picker from
  -- the dashboard, all those of the list of promotions, of the picker and of the result, and those
  -- that type into a form (all but Enter and Esc).
  pub screens_stay-Ready : (a b : App) → ScreenSteps a b → Ready a → Ready b
  screens_stay-Ready _ _ (stay a) ready = ready
  screens_stay-Ready _ _ (step a c b first rest) ready =
      screens_stay-Ready c b rest (step-Ready a c first ready)
