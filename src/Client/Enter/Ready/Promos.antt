-- ===== src/Client/Enter/Ready/Promos.antt =====
-- The list of promotions of crates/tui/src/app.rs.
use hardig.Base.{
  ℕ, ◌≡◌, refl, sym, subst, arith, Option, none, some, List, [], ◌∷◌, ◌++◌, take, length, ◌==◌,
}
use hardig.Runtime.{Runtime, Pubkey, Bytes, Text, AccountInfo, codes}
use hardig.Mayflower.Cpi.{key_bytes}
use hardig.Promo.{utf8}
use hardig.Decimal.{u64_text}
use hardig.State.{PositionState}
use hardig.Anchor.{Anchor}
use hardig.Client.{Host, App, Screen, PromoEntry, push_log}
use hardig.Client.Texts.{is_empty, slots_to_human}
use hardig.Client.Chain.{Rpc}
use hardig.Client.Form.{KeyCode}
use hardig.Client.Enter.Lists.{
  get, discover_promos, read_promos, enter_promo_list, enter_view_promo, viewed, handle_promo_list,
}
use hardig.Client.Enter.Ready.{PermsOk, Ready, plain-Ready, create_promo-Ready}
use hardig.Client.Enter.Ready.Cases.{Each, Each-if, dashboard-Ready, promo_list-Ready}

module _ (rt : Runtime) (host : Host) (anchor : Anchor) (rpc : Rpc) where
  -- A scan changes the promotions and the log.
  pub discover_promos-log :
      (app : App)
      → (msg : Text) × (ps : List PromoEntry) × (discover_promos rt host anchor rpc app
          ≡ push_log msg (record app { promos = ps }))
  unfolding discover_promos
  discover_promos-log app = at_position app.position
    where
      scanned :
          (r : Option (List (Pubkey × AccountInfo)))
          → (msg : Text) × (ps : List PromoEntry) × ((elim r as (λ _. App) [
            | none ↦
                push_log
                  (codes "Promo scan failed: " ++ rpc.scan_error)
                  (record app { promos = [] })
            | some accounts ↦
                push_log
                  (codes "Found "
                    ++ u64_text (length (read_promos anchor accounts))
                    ++ codes " promo(s)")
                  (record app { promos = read_promos anchor accounts })
          ])
              ≡ push_log msg (record app { promos = ps }))
      scanned none = (codes "Promo scan failed: " ++ rpc.scan_error, [], refl)
      scanned (some accounts) = (
        codes "Found " ++ u64_text (length (read_promos anchor accounts)) ++ codes " promo(s)",
        read_promos anchor accounts,
        refl,
      )

      query : PositionState → List (ℕ × Bytes)
      query p =
          (0, take 8 (host.sha256 (utf8 (codes "account:PromoConfig"))))
          ∷ (8, key_bytes p.authority_seed)
          ∷ []

      at_position :
          (pos : Option PositionState)
          → (msg : Text) × (ps : List PromoEntry) × ((elim pos as (λ _. App) [
            | none ↦ push_log (codes "No position loaded") (record app { promos = [] })
            | some p ↦ elim (rpc.accounts_with (query p)) as (λ _. App) [
              | none ↦
                  push_log
                    (codes "Promo scan failed: " ++ rpc.scan_error)
                    (record app { promos = [] })
              | some accounts ↦
                  push_log
                    (codes "Found "
                      ++ u64_text (length (read_promos anchor accounts))
                      ++ codes " promo(s)")
                    (record app { promos = read_promos anchor accounts })
            ]
          ])
              ≡ push_log msg (record app { promos = ps }))
      at_position none = (codes "No position loaded", [], refl)
      at_position (some p) = scanned (rpc.accounts_with (query p))

  pub logged-promo_list :
      (msg : Text) (app : App)
      → PermsOk app
      → app.screen ≡ Screen.promo_list
      → Ready (push_log msg app)
  unfolding push_log
  logged-promo_list msg app perms here = promo_list-Ready _ perms here

  pub discover-Ready :
      (app : App)
      → PermsOk app
      → app.screen ≡ Screen.promo_list
      → Ready (discover_promos rt host anchor rpc app)
  discover-Ready app perms here =
      let (msg, ps, e) = discover_promos-log app in
      subst Ready (sym e) (logged-promo_list msg (record app { promos = ps }) perms here)

  pub promo_list_opened :
      (msg : Text) (app : App)
      → PermsOk app
      → Ready (record (push_log msg app) { promo_cursor = 0; screen = Screen.promo_list })
  unfolding push_log
  promo_list_opened msg app perms = promo_list-Ready _ perms refl

  pub enter_promo_list-Ready :
      (app : App) → PermsOk app → Ready (enter_promo_list rt host anchor rpc app)
  unfolding enter_promo_list
  enter_promo_list-Ready app perms =
      let (msg, ps, e) = discover_promos-log app in
      subst (λ a. Ready (record a { promo_cursor = 0; screen = Screen.promo_list })) (sym e)
        (promo_list_opened msg (record app { promos = ps }) perms)

  pub view-Each :
      (app : App)
      → PermsOk app
      → app.screen ≡ Screen.promo_list
      → Each (enter_view_promo rt host anchor rpc app)
  unfolding enter_view_promo
  view-Each app perms here = chosen (get app.promos app.promo_cursor)
    where
      sold :
          (entry : PromoEntry) (w : Text) (r : Option Text)
          → Each (elim r as (λ _. Option App) [
            | none ↦ none
            | some sell_period ↦ some (viewed rt host anchor rpc entry w sell_period app)
          ])
      sold entry w none = tt
      sold entry w (some v) =
          plain-Ready (viewed rt host anchor rpc entry w v app) perms (omega arith) refl refl

      lent :
          (entry : PromoEntry) (r : Option Text)
          → Each (elim r as (λ _. Option App) [
            | none ↦ none
            | some borrow_period ↦ elim (slots_to_human entry.config.sell_refill_period) [
              | none ↦ none
              | some sell_period ↦
                  some (viewed rt host anchor rpc entry borrow_period sell_period app)
            ]
          ])
      lent entry none = tt
      lent entry (some w) = sold entry w (slots_to_human entry.config.sell_refill_period)

      chosen :
          (r : Option PromoEntry)
          → Each (elim r as (λ _. Option App) [
            | none ↦ some app
            | some entry ↦ elim (slots_to_human entry.config.borrow_refill_period) [
              | none ↦ none
              | some borrow_period ↦ elim (slots_to_human entry.config.sell_refill_period) [
                | none ↦ none
                | some sell_period ↦
                    some (viewed rt host anchor rpc entry borrow_period sell_period app)
              ]
            ]
          ])
      chosen none = promo_list-Ready app perms here
      chosen (some entry) = lent entry (slots_to_human entry.config.borrow_refill_period)

  pub promo_key-Each :
      (key : KeyCode) (app : App)
      → PermsOk app
      → app.screen ≡ Screen.promo_list
      → Each (handle_promo_list rt host anchor rpc key app)
  unfolding handle_promo_list
  promo_key-Each KeyCode.esc app perms here = dashboard-Ready _ perms refl
  promo_key-Each KeyCode.up app perms here = promo_list-Ready _ perms here
  promo_key-Each KeyCode.down app perms here = promo_list-Ready _ perms here
  promo_key-Each KeyCode.enter app perms here =
      Each-if (is_empty app.promos) _ _ (promo_list-Ready app perms here) (view-Each app perms here)
  promo_key-Each (KeyCode.char c) app perms here =
      Each-if (c == b'q') _ _ (promo_list-Ready _ perms here) (
        Each-if (c == b'n') _ _ (create_promo-Ready app) (
          Each-if (c == b'r') _ _ (discover-Ready app perms here) (
            Each-if (c == b'k') _ _ (promo_list-Ready _ perms here) (
              Each-if (c == b'j') _ _ (promo_list-Ready _ perms here)
                (promo_list-Ready app perms here)))))
  promo_key-Each KeyCode.tab app perms here = promo_list-Ready app perms here
  promo_key-Each KeyCode.back_tab app perms here = promo_list-Ready app perms here
  promo_key-Each KeyCode.backspace app perms here = promo_list-Ready app perms here
  promo_key-Each KeyCode.left app perms here = promo_list-Ready app perms here
  promo_key-Each KeyCode.right app perms here = promo_list-Ready app perms here
  promo_key-Each KeyCode.other app perms here = promo_list-Ready app perms here
