-- ===== src/Client/Enter/Lists.antt =====
-- The list of promotions and the picker of a market, and the forms that they open, of
-- crates/tui/src/app.rs. A result of `none` is a panic.
use hardig.Base.{
  ℕ, zero, suc, ◌+◌, ◌-◌, true, false, ◌&&◌, Option, none, some, List, [], ◌∷◌, ◌++◌, length, take,
  ltb, ◌==◌, if◌then◌else◌, ◌⊎◌, inl, inr,
}
use hardig.Runtime.{Runtime, Pubkey, Text, AccountInfo, codes}
use hardig.Promo.{utf8}
use hardig.Decimal.{u64_text}
use hardig.Anchor.{Anchor}
use hardig.Mayflower.Cpi.{MarketAddresses, key_bytes}
use hardig.Client.{Host, App, Field, Screen, FormKind, MarketEntry, PromoEntry, push_log}
use hardig.Client.Texts.{lamports_to_sol, permissions_name, slots_to_human, hex_byte, is_empty}
use hardig.Client.Chain.{Rpc}
use hardig.Client.Form.{KeyCode}
use hardig.Client.Enter.{open_create_position, enter_create_promo}

-- `xs[i]`, `xs.get(i)`
unfoldable pub get {ℓ} : {A : Type ℓ} → List A → ℕ → Option A
get [] i = none
get (x ∷ xs) zero = some x
get (x ∷ xs) (suc i) = get xs i

-- The movements of a cursor over a list
abbrev pub cursor_down : ℕ → ℕ → ℕ
cursor_down cursor n = if ltb 0 n && ltb cursor (n - 1) then cursor + 1 else cursor

abbrev pub cursor_up : ℕ → ℕ
cursor_up cursor = cursor - 1

abbrev pub pk {ℓ} : {A : Type ℓ} → Host → Text → Text → (Pubkey → Text ⊎ A) → Text ⊎ A
pk host val field next = elim (host.parse_key val) [
  | none ↦ inl (codes "Invalid pubkey for '" ++ field ++ codes "': " ++ val)
  | some k ↦ next k
]

unfoldable pub to_pubkeys : Host → MarketEntry → Text ⊎ MarketAddresses
to_pubkeys host entry = pk host entry.nav_mint (codes "navMint") (λ nav_mint.
    pk host entry.base_mint (codes "baseMint") (λ base_mint.
      pk host entry.market_group (codes "marketGroup") (λ market_group.
        pk host entry.market_metadata (codes "marketMetadata") (λ market_meta.
          pk host entry.mayflower_market (codes "mayflowerMarket") (λ mayflower_market.
            pk host entry.base_vault (codes "baseVault") (λ base_vault.
              pk host entry.nav_vault (codes "navVault") (λ nav_vault.
                pk host entry.fee_vault (codes "feeVault") (λ fee_vault. inr (record {
                  nav_mint = nav_mint;
                  base_mint = base_mint;
                  market_group = market_group;
                  market_meta = market_meta;
                  mayflower_market = mayflower_market;
                  market_base_vault = base_vault;
                  market_nav_vault = nav_vault;
                  fee_vault = fee_vault;
                })))))))))

abbrev pub picked : MarketEntry → MarketAddresses → App → App
picked entry pks app = open_create_position (record app {
  market_name_override = some entry.nav_symbol;
  pending_market_addresses = some pks;
})

-- A market is taken, or the log says which of its keys is none.
unfoldable pub pick : Host → MarketEntry → App → App
unfolding to_pubkeys open_create_position push_log
pick host entry app = elim (to_pubkeys host entry) [
  | inl e ↦ push_log (codes "Invalid market data: " ++ e) app
  | inr pks ↦ picked entry pks app
]

unfoldable pub enter_create_position : Host → App → App
unfolding pick open_create_position
enter_create_position host app =
    let clear = record app { pending_market_addresses = none; market_name_override = none } in
    elim app.loaded_markets [
      | [] ↦ open_create_position clear
      | entry ∷ entries ↦ elim entries [
        | [] ↦ pick host entry clear
        | _ ∷ _ ↦ record clear { market_picker_cursor = 0; screen = Screen.market_picker }
      ]
    ]

unfoldable pub handle_market_picker : Host → KeyCode → App → Option App
unfolding pick get
handle_market_picker host KeyCode.esc app = some (record app { screen = Screen.dashboard })
handle_market_picker host KeyCode.up app =
    some (record app { market_picker_cursor = cursor_up app.market_picker_cursor })
handle_market_picker host KeyCode.down app = some (record app {
  market_picker_cursor = cursor_down app.market_picker_cursor (length app.loaded_markets);
})
handle_market_picker host KeyCode.enter app =
    if is_empty app.loaded_markets
    then some app
    else elim (get app.loaded_markets app.market_picker_cursor) [
      | none ↦ none
      | some entry ↦ some (pick host entry app)
    ]
handle_market_picker host (KeyCode.char c) app =
    if c == b'q'
    then some (record app { should_quit = true })
    else if c == b'k'
    then some (record app { market_picker_cursor = cursor_up app.market_picker_cursor })
    else if c == b'j'
    then some (record app {
      market_picker_cursor = cursor_down app.market_picker_cursor (length app.loaded_markets);
    })
    else some app
handle_market_picker host _ app = some app

-- The accounts that the reader takes for promotions
unfoldable pub read_promos : Anchor → List (Pubkey × AccountInfo) → List PromoEntry
read_promos anchor [] = []
read_promos anchor ((pda, acc) ∷ accounts) =
    let rest = read_promos anchor accounts in
    elim (anchor.promo_config acc.bytes) [
      | none ↦ rest
      | some promo ↦ record { pda = pda; config = promo } ∷ rest
    ]

module _ (rt : Runtime) (host : Host) (anchor : Anchor) (rpc : Rpc) where
  unfoldable pub discover_promos : App → App
  unfolding read_promos push_log
  discover_promos app =
      let clear = record app { promos = [] } in
      elim app.position [
        | none ↦ push_log (codes "No position loaded") clear
        | some p ↦
            (let disc_bytes = take 8 (host.sha256 (utf8 (codes "account:PromoConfig"))) in
              elim (rpc.accounts_with ((0, disc_bytes) ∷ (8, key_bytes p.authority_seed) ∷ [])) [
                | none ↦ push_log (codes "Promo scan failed: " ++ rpc.scan_error) clear
                | some accounts ↦
                    (let promos = read_promos anchor accounts in
                      push_log (codes "Found " ++ u64_text (length promos) ++ codes " promo(s)")
                        (record app { promos = promos }))
              ])
      ]

  unfoldable pub enter_promo_list : App → App
  unfolding discover_promos
  enter_promo_list app = record (discover_promos app) {
    promo_cursor = 0;
    screen = Screen.promo_list;
  }

  abbrev pub view_fields : PromoEntry → Text → Text → List Field
  view_fields entry borrow_period sell_period =
      let promo = entry.config in
      (codes "Name Suffix", promo.name_suffix)
      ∷ (codes "Permissions", permissions_name promo.permissions ++ hex_byte promo.permissions)
      ∷ (codes "Borrow Capacity", lamports_to_sol promo.borrow_capacity ++ codes " SOL")
      ∷ (
        codes "Borrow Refill Period",
        u64_text promo.borrow_refill_period ++ codes " slots (" ++ borrow_period ++ codes ")",
      )
      ∷ (codes "Sell Capacity", lamports_to_sol promo.sell_capacity ++ codes " SOL")
      ∷ (
        codes "Sell Refill Period",
        u64_text promo.sell_refill_period ++ codes " slots (" ++ sell_period ++ codes ")",
      )
      ∷ (codes "Min Deposit", lamports_to_sol promo.min_deposit_lamports ++ codes " SOL")
      ∷ (
        codes "Max Claims",
        (if promo.max_claims == 0 then codes "unlimited" else u64_text promo.max_claims),
      )
      ∷ (codes "Claims Count", u64_text promo.claims_count)
      ∷ (codes "Image URI", promo.image_uri)
      ∷ (codes "PDA", rt.key_text entry.pda)
      ∷ []

  abbrev pub viewed : PromoEntry → Text → Text → App → App
  viewed entry borrow_period sell_period app = record app {
    screen = Screen.form;
    form_kind = some FormKind.update_promo;
    form_readonly = true;
    form_locked = false;
    form_info = some (
        codes "Promo: "
        ++ entry.config.name_suffix
        ++ codes "  |  Status: "
        ++ (if entry.config.active then codes "Active" else codes "Paused")
        ++ codes "\n[Enter] Toggle active/paused  [m] Change max claims  [Esc] Back");
    form_fields = view_fields entry borrow_period sell_period;
    input_field = 0;
    input_buf = [];
  }

  unfoldable pub enter_view_promo : App → Option App
  unfolding get slots_to_human lamports_to_sol permissions_name u64_text
  enter_view_promo app = elim (get app.promos app.promo_cursor) [
    | none ↦ some app
    | some entry ↦ elim (slots_to_human entry.config.borrow_refill_period) [
      | none ↦ none
      | some borrow_period ↦ elim (slots_to_human entry.config.sell_refill_period) [
        | none ↦ none
        | some sell_period ↦ some (viewed entry borrow_period sell_period app)
      ]
    ]
  ]

  unfoldable pub handle_promo_list : KeyCode → App → Option App
  unfolding discover_promos enter_view_promo enter_create_promo
  handle_promo_list KeyCode.esc app = some (record app { screen = Screen.dashboard })
  handle_promo_list KeyCode.up app = some (record app { promo_cursor = cursor_up app.promo_cursor })
  handle_promo_list KeyCode.down app =
      some (record app { promo_cursor = cursor_down app.promo_cursor (length app.promos) })
  handle_promo_list KeyCode.enter app =
      if is_empty app.promos then some app else enter_view_promo app
  handle_promo_list (KeyCode.char c) app =
      if c == b'q'
      then some (record app { should_quit = true })
      else if c == b'n'
      then some (enter_create_promo app)
      else if c == b'r'
      then some (discover_promos app)
      else if c == b'k'
      then some (record app { promo_cursor = cursor_up app.promo_cursor })
      else if c == b'j'
      then some (record app { promo_cursor = cursor_down app.promo_cursor (length app.promos) })
      else some app
  handle_promo_list _ app = some app

unfoldable pub handle_result : KeyCode → App → App
handle_result key app = record app {
  pre_tx_snapshot = none;
  last_tx_signature = none;
  screen = Screen.dashboard;
}
