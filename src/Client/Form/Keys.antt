-- ===== src/Client/Form/Keys.antt =====
-- `submit_form` and `handle_form` of crates/tui/src/app.rs.
use hardig.Base.{
  ℕ, suc, ◌+◌, ◌-◌, ◌%◌, Bool, false, ◌&&◌, ◌||◌, Option, none, some, List, [], ◌∷◌, ◌++◌, length,
  ltb, ◌==◌, if◌then◌else◌,
}
use hardig.Runtime.{Runtime, Pubkey, Text, codes}
use hardig.Anchor.{Anchor}
use hardig.Client.{Host, App, Field, Screen, FormKind}
use hardig.Client.Texts.{starts_with, is_empty}
use hardig.Client.Attempt.{settle}
use hardig.Client.Chain.{Rpc}
use hardig.Client.Build.Trade.{buy_action, sell_action, borrow_action, repay_action}
use hardig.Client.Build.Keys.{authorize_action, revoke_action}
use hardig.Client.Build.Recovery.{configure_recovery_action}
use hardig.Client.Build.Promo.{create_promo_action, max_claims_action, toggle_active_action}
use hardig.Client.Build.Position.{build_create_position}
use hardig.Client.Form.{KeyCode, then_do, store_input, focus, pop, is_kind}
use hardig.Client.Form.Perms.{perm_char}

-- The index of the first field whose label starts with the text.
unfoldable pub field_index : List Field → Text → Option ℕ
unfolding starts_with
field_index [] prefix = none
field_index ((label, _) ∷ fields) prefix =
    let rest = field_index fields prefix in
    if starts_with prefix label then some 0 else elim rest [ none ↦ none | some i ↦ some (suc i) ]

abbrev pub back_screen : Option FormKind → Screen
back_screen (some FormKind.create_promo) = Screen.promo_list
back_screen (some FormKind.update_promo) = Screen.promo_list
back_screen _ = Screen.dashboard

unfoldable pub is_perm_field : App → Bool
is_perm_field app =
    (is_kind FormKind.authorize_key app.form_kind || is_kind FormKind.create_promo app.form_kind)
    && app.input_field == 1

module _ (rt : Runtime) (host : Host) (anchor : Anchor) (rpc : Rpc) (fresh : Pubkey) where
  unfoldable pub submit_form : App → Option App
  unfolding settle buy_action sell_action borrow_action repay_action authorize_action revoke_action
      configure_recovery_action create_promo_action max_claims_action build_create_position
  submit_form app = elim app.form_kind [
    | none ↦ some app
    | some FormKind.create_position ↦
        build_create_position rt host anchor rpc fresh
          (elim app.pending_market_addresses [ none ↦ none | some m ↦ some m.nav_mint ]) app
    | some FormKind.authorize_key ↦ settle (authorize_action rt host fresh app) app
    | some FormKind.revoke_key ↦ settle (revoke_action rt host app) app
    | some FormKind.buy ↦ settle (buy_action rt host app) app
    | some FormKind.sell ↦ settle (sell_action rt host app) app
    | some FormKind.borrow ↦ settle (borrow_action rt host app) app
    | some FormKind.repay ↦ settle (repay_action rt host app) app
    | some FormKind.configure_recovery ↦ settle (configure_recovery_action rt host fresh app) app
    | some FormKind.create_promo ↦ settle (create_promo_action rt host app) app
    | some FormKind.update_promo ↦ settle (max_claims_action rt host app) app
  ]

  -- A form that shows a promotion: back, pause or resume it, or edit the maximum of claims.
  unfoldable pub promo_view_key : KeyCode → App → Option App
  unfolding settle toggle_active_action field_index focus
  promo_view_key KeyCode.esc app = some (record app {
    screen = Screen.promo_list;
    form_fields = [];
    form_readonly = false;
    form_locked = false;
  })
  promo_view_key KeyCode.enter app = settle (toggle_active_action rt host app) app
  promo_view_key (KeyCode.char c) app =
      let editing = record app {
        form_readonly = false;
        form_info = some (codes "Enter new max claims value (0 = unlimited)");
      } in
      if c == b'm'
      then elim (field_index app.form_fields (codes "Max Claims")) [
        | none ↦ some editing
        | some i ↦ focus i editing
      ]
      else some app
  promo_view_key _ app = some app

  -- A form that shows the recovery settings: back, or edit them where they are not locked.
  unfoldable pub settings_view_key : KeyCode → App → Option App
  unfolding focus
  settings_view_key KeyCode.esc app = some (record app {
    screen = Screen.dashboard;
    form_fields = [];
    form_readonly = false;
    form_locked = false;
  })
  settings_view_key KeyCode.enter app =
      let editing = focus app.input_field (record app {
        form_readonly = false;
        form_info = some (codes "Editing recovery settings (will replace current)");
      }) in
      if app.form_locked then some app else editing
  settings_view_key _ app = some app

  -- A form that is edited.
  unfoldable pub edit_key : KeyCode → App → Option App
  unfolding store_input focus submit_form is_perm_field perm_char pop
  edit_key KeyCode.esc app =
      some (record app { screen = back_screen app.form_kind; form_fields = [] })
  edit_key KeyCode.tab app =
      if is_empty app.form_fields
      then some app
      else then_do (store_input app) (focus ((app.input_field + 1) % length app.form_fields))
  edit_key KeyCode.back_tab app =
      if is_empty app.form_fields
      then some app
      else then_do (store_input app)
          (focus (if app.input_field == 0 then length app.form_fields - 1 else app.input_field - 1))
  edit_key KeyCode.enter app =
      if is_empty app.form_fields then submit_form app else then_do (store_input app) submit_form
  edit_key KeyCode.left app =
      if is_perm_field app
      then some (record app { perm_cursor = app.perm_cursor - 1 })
      else some app
  edit_key KeyCode.up app =
      if is_perm_field app
      then some (record app { perm_cursor = app.perm_cursor - 1 })
      else some app
  edit_key KeyCode.right app =
      if is_perm_field app && ltb app.perm_cursor 6
      then some (record app { perm_cursor = app.perm_cursor + 1 })
      else some app
  edit_key KeyCode.down app =
      if is_perm_field app && ltb app.perm_cursor 6
      then some (record app { perm_cursor = app.perm_cursor + 1 })
      else some app
  edit_key KeyCode.backspace app =
      if is_perm_field app then some app else some (record app { input_buf = pop app.input_buf })
  edit_key (KeyCode.char c) app =
      if is_perm_field app
      then perm_char c app
      else some (record app { input_buf = app.input_buf ++ c ∷ [] })
  edit_key KeyCode.other app = some app

  unfoldable pub handle_form : KeyCode → App → Option App
  unfolding promo_view_key settings_view_key edit_key
  handle_form key app =
      if app.form_readonly
      then (if is_kind FormKind.update_promo app.form_kind
          then promo_view_key key app
          else settings_view_key key app)
      else edit_key key app
