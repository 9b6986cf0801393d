-- ===== src/Client/Enter/Ready/Picker.antt =====
-- The picker of a market of crates/tui/src/app.rs, and the form that it opens.
use hardig.Base.{◌⊎◌, ℕ, ◌<◌, ◌≡◌, refl, arith, Option, none, some, List, [], ◌∷◌, ◌==◌, inl, inr}
use hardig.Runtime.{Text}
use hardig.Mayflower.Cpi.{MarketAddresses}
use hardig.Client.{Host, App, Screen, MarketEntry, push_log}
use hardig.Client.Texts.{is_empty}
use hardig.Client.Form.{KeyCode}
use hardig.Client.Enter.Lists.{
  get, pick, to_pubkeys, cursor_down, enter_create_position, handle_market_picker,
}
use hardig.Client.Enter.Ready.{
  PermsOk, Ready, create_position-Ready, dashboard_not_form, dashboard_not_picker,
}
use hardig.Client.Enter.Ready.Cases.{
  picker_not_form, Each, Each-if, AtMarket, dashboard-Ready, picker-Ready,
}

-- A market is picked, or the log says why not.
pub pick-Ready :
    (host : Host) (entry : MarketEntry) (app : App)
    → PermsOk app
    → ¬ (app.screen ≡ Screen.form)
    → (app.screen ≡ Screen.market_picker → AtMarket app)
    → Ready (pick host entry app)
unfolding pick push_log
pick-Ready host entry app perms away market = outcome (to_pubkeys host entry) refl
  where
    outcome : (r : Text ⊎ MarketAddresses) → to_pubkeys host entry ≡ r → Ready (pick host entry app)
    outcome (inl e) h = rw (pick, h) (perms, λ s. absurd (away s), market)
    outcome (inr pks) h =
        rw (pick, h)
          (create_position-Ready
            (record app {
              market_name_override = some entry.nav_symbol;
              pending_market_addresses = some pks;
            })
            perms)

pub cursor_down-lt : (c n : ℕ) → c < n → cursor_down c n < n
cursor_down-lt c n h = ground arith

pub create-Ready :
    (host : Host) (app : App)
    → PermsOk app
    → app.screen ≡ Screen.dashboard
    → Ready (enter_create_position host app)
unfolding enter_create_position
create-Ready host app perms here = opened app.loaded_markets refl
  where
    opened :
        (ms : List MarketEntry) → app.loaded_markets ≡ ms → Ready (enter_create_position host app)
    opened [] e =
        rw (enter_create_position, e)
          (create_position-Ready
            (record app { pending_market_addresses = none; market_name_override = none }) perms)
    opened (m ∷ []) e =
        rw (enter_create_position, e)
          (pick-Ready host m
            (record app { pending_market_addresses = none; market_name_override = none }) perms
            (dashboard_not_form app.screen here)
            (λ s. absurd (dashboard_not_picker app.screen here s)))
    opened (m ∷ n ∷ ms) e =
        rw (enter_create_position, e)
          (picker-Ready
            (record app {
              pending_market_addresses = none;
              market_name_override = none;
              market_picker_cursor = 0;
              screen = Screen.market_picker;
            })
            perms refl (rw e (omega arith)))

pub picker_key-Ready :
    (host : Host) (key : KeyCode) (app : App)
    → PermsOk app
    → app.screen ≡ Screen.market_picker
    → AtMarket app
    → Each (handle_market_picker host key app)
unfolding handle_market_picker
picker_key-Ready host KeyCode.esc app perms here market = dashboard-Ready _ perms refl
picker_key-Ready host KeyCode.up app perms here market =
    picker-Ready _ perms here (omega (arith, market))
picker_key-Ready host KeyCode.down app perms here market =
    picker-Ready _ perms here (cursor_down-lt _ _ market)
picker_key-Ready host KeyCode.enter app perms here market =
    Each-if (is_empty app.loaded_markets) _ _ (picker-Ready app perms here market)
      (chosen (get app.loaded_markets app.market_picker_cursor))
  where
    chosen :
        (r : Option MarketEntry)
        → Each
            (elim r as (λ _. Option App) [ none ↦ none | some entry ↦ some (pick host entry app) ])
    chosen none = tt
    chosen (some entry) =
        pick-Ready host entry app perms (picker_not_form app.screen here) (λ _. market)
picker_key-Ready host (KeyCode.char c) app perms here market =
    Each-if (c == b'q') _ _ (picker-Ready _ perms here market) (
      Each-if (c == b'k') _ _ (picker-Ready _ perms here (omega (arith, market))) (
        Each-if (c == b'j') _ _ (picker-Ready _ perms here (cursor_down-lt _ _ market))
          (picker-Ready app perms here market)))
picker_key-Ready host KeyCode.tab app perms here market = picker-Ready app perms here market
picker_key-Ready host KeyCode.back_tab app perms here market = picker-Ready app perms here market
picker_key-Ready host KeyCode.backspace app perms here market = picker-Ready app perms here market
picker_key-Ready host KeyCode.left app perms here market = picker-Ready app perms here market
picker_key-Ready host KeyCode.right app perms here market = picker-Ready app perms here market
picker_key-Ready host KeyCode.other app perms here market = picker-Ready app perms here market
