-- ===== src/Client/Build/Trade.antt =====
-- The trading instructions of the client: build_buy, build_sell, build_borrow, build_repay and
-- build_reinvest of crates/tui/src/app.rs.
use hardig.Base.{
  ℕ, ◌-◌, ◌*◌, ◌/◌, ◌%◌, true, false, Option, none, some, List, [], ◌∷◌, ◌++◌, ltb, if◌then◌else◌,
  to_le_bytes, u64_mod, u128_mod, min,
}
use hardig.Runtime.{Runtime, Pubkey, Text, AccountMeta, codes}
use hardig.State.{MarketConfig}
use hardig.Mayflower.{mayflower_tenant, mayflower_program_id}
use hardig.Mayflower.Cpi.{writable, readonly}
use hardig.Client.{Host, App, PendingAction}
use hardig.Client.Texts.{lamports_to_sol, short_pubkey, permissions_name}
use hardig.Client.Attempt.{Attempt, built, ◌>>=◌, or_refuse, field_value}
use hardig.Client.Build.{
  sighash, create_ata_idempotent_ix, config_pda, hardig_ix, nav_token_name, parse_sol_to_lamports,
}

-- What every trading instruction needs of the loaded position, in the order of the checks.
pub record Loaded : Type 0 where
  pub position_pda : Pubkey
  pub key_asset : Pubkey
  pub mc_pda : Pubkey
  pub mc : MarketConfig

unfoldable pub loaded : App → Attempt Loaded
loaded app = do
  position_pda ← or_refuse app.position_pda (codes "No position loaded")
  key_asset ← or_refuse app.my_asset (codes "No key asset loaded")
  mc_pda ← or_refuse app.market_config_pda (codes "No market config loaded")
  mc ← or_refuse app.market_config (codes "No market config loaded")
  built (record { position_pda = position_pda; key_asset = key_asset; mc_pda = mc_pda; mc = mc })

-- The amount in the first field of the form.
unfoldable pub form_amount : Host → App → Attempt ℕ
unfolding field_value parse_sol_to_lamports
form_amount host app = do
  text ← field_value app.form_fields 0
  or_refuse (parse_sol_to_lamports host text) (codes "Invalid SOL amount")

-- `my_permissions.unwrap_or(0)`
abbrev pub permissions_or_zero : Option ℕ → ℕ
permissions_or_zero none = 0
permissions_or_zero (some p) = p

-- The optional `key_state` account, for which the program itself stands where there is none.
abbrev pub key_state_meta : Runtime → Option Pubkey → AccountMeta
key_state_meta rt none = readonly rt.program_id false
key_state_meta rt (some pda) = writable pda false

module _ (rt : Runtime) where
  -- The accounts from `program_pda` to `log_account`, as buy and sell list them.
  abbrev pub market_metas : App → Loaded → List AccountMeta
  market_metas app l =
      writable app.program_pda false
      ∷ writable app.pp_pda false
      ∷ writable app.escrow_pda false
      ∷ writable app.nav_sol_ata false
      ∷ writable app.wsol_ata false
      ∷ readonly mayflower_tenant false
      ∷ readonly l.mc.market_group false
      ∷ readonly l.mc.market_meta false
      ∷ writable l.mc.mayflower_market false
      ∷ writable l.mc.nav_mint false
      ∷ writable l.mc.market_base_vault false
      ∷ writable l.mc.market_nav_vault false
      ∷ writable l.mc.fee_vault false
      ∷ readonly l.mc.base_mint false
      ∷ readonly mayflower_program_id false
      ∷ readonly rt.token_id false
      ∷ writable app.log_pda false
      ∷ []

  unfoldable pub buy_metas : App → Loaded → List AccountMeta
  buy_metas app l =
      writable app.keypair true
      ∷ readonly l.key_asset false
      ∷ writable l.position_pda false
      ∷ readonly (config_pda rt) false
      ∷ readonly l.mc_pda false
      ∷ readonly rt.system_id false
      ∷ market_metas app l

  unfoldable pub sell_metas : App → Loaded → List AccountMeta
  sell_metas app l =
      writable app.keypair true
      ∷ readonly l.key_asset false
      ∷ key_state_meta rt app.my_key_state_pda
      ∷ writable l.position_pda false
      ∷ readonly (config_pda rt) false
      ∷ readonly l.mc_pda false
      ∷ readonly rt.system_id false
      ∷ market_metas app l

  unfoldable pub borrow_metas : App → Loaded → List AccountMeta
  borrow_metas app l =
      writable app.keypair true
      ∷ readonly l.key_asset false
      ∷ key_state_meta rt app.my_key_state_pda
      ∷ writable l.position_pda false
      ∷ readonly (config_pda rt) false
      ∷ readonly l.mc_pda false
      ∷ readonly rt.system_id false
      ∷ writable app.program_pda false
      ∷ writable app.pp_pda false
      ∷ writable app.wsol_ata false
      ∷ readonly mayflower_tenant false
      ∷ readonly l.mc.market_group false
      ∷ readonly l.mc.market_meta false
      ∷ writable l.mc.market_base_vault false
      ∷ writable l.mc.market_nav_vault false
      ∷ writable l.mc.fee_vault false
      ∷ readonly l.mc.base_mint false
      ∷ writable l.mc.mayflower_market false
      ∷ readonly mayflower_program_id false
      ∷ readonly rt.token_id false
      ∷ writable app.log_pda false
      ∷ []

  unfoldable pub repay_metas : App → Loaded → List AccountMeta
  repay_metas app l =
      writable app.keypair true
      ∷ readonly l.key_asset false
      ∷ writable l.position_pda false
      ∷ readonly (config_pda rt) false
      ∷ readonly l.mc_pda false
      ∷ readonly rt.system_id false
      ∷ writable app.program_pda false
      ∷ writable app.pp_pda false
      ∷ writable app.wsol_ata false
      ∷ readonly l.mc.market_meta false
      ∷ writable l.mc.market_base_vault false
      ∷ readonly l.mc.base_mint false
      ∷ writable l.mc.mayflower_market false
      ∷ readonly mayflower_program_id false
      ∷ readonly rt.token_id false
      ∷ writable app.log_pda false
      ∷ []

  unfoldable pub reinvest_metas : App → Loaded → List AccountMeta
  reinvest_metas app l =
      writable app.keypair true
      ∷ readonly l.key_asset false
      ∷ writable l.position_pda false
      ∷ readonly l.mc_pda false
      ∷ readonly (config_pda rt) false
      ∷ readonly rt.system_id false
      ∷ writable app.program_pda false
      ∷ writable app.pp_pda false
      ∷ writable app.escrow_pda false
      ∷ writable app.nav_sol_ata false
      ∷ writable app.wsol_ata false
      ∷ writable app.wsol_ata false
      ∷ readonly mayflower_tenant false
      ∷ readonly l.mc.market_group false
      ∷ readonly l.mc.market_meta false
      ∷ writable l.mc.mayflower_market false
      ∷ writable l.mc.nav_mint false
      ∷ writable l.mc.market_base_vault false
      ∷ writable l.mc.market_nav_vault false
      ∷ writable l.mc.fee_vault false
      ∷ readonly l.mc.base_mint false
      ∷ readonly mayflower_program_id false
      ∷ readonly rt.token_id false
      ∷ writable app.log_pda false
      ∷ []

-- 99% of the amount at the floor price, or 0 where no floor price is known.
unfoldable pub sell_min_out : ℕ → ℕ → ℕ
sell_min_out floor_price amount =
    let expected = min (amount * floor_price) (u128_mod - 1) / 1_000_000_000 in
    if ltb 0 floor_price then (expected * 99 / 100) % u64_mod else 0

abbrev pub amount_line : Text → ℕ → Text → Text
amount_line label amount unit = label ++ lamports_to_sol amount ++ codes " " ++ unit

module _ (rt : Runtime) (host : Host) where
  abbrev position_line : Pubkey → Text
  position_line pda = codes "Position: " ++ short_pubkey rt pda

  unfoldable pub buy_pending : App → Loaded → ℕ → PendingAction
  unfolding buy_metas nav_token_name permissions_name sighash
  buy_pending app l amount =
      let payload = sighash host (codes "buy") ++ (to_le_bytes 8 amount ++ to_le_bytes 8 0) in
      record {
        description =
            (codes "Buy " ++ nav_token_name l.mc.nav_mint)
            ∷ amount_line (codes "Amount: ") amount (codes "SOL")
            ∷ position_line l.position_pda
            ∷ (codes "Permissions: " ++ permissions_name (permissions_or_zero app.my_permissions))
            ∷ [];
        instructions =
            create_ata_idempotent_ix rt app.keypair app.program_pda l.mc.base_mint
            ∷ create_ata_idempotent_ix rt app.keypair app.program_pda l.mc.nav_mint
            ∷ host.system_transfer app.keypair app.wsol_ata amount
            ∷ host.sync_native app.wsol_ata
            ∷ hardig_ix rt payload (buy_metas rt app l)
            ∷ [];
        extra_signers = [];
      }

  unfoldable pub buy_action : App → Attempt PendingAction
  unfolding form_amount loaded buy_pending
  buy_action app = do
    amount ← form_amount host app
    l ← loaded app
    built (buy_pending app l amount)

  unfoldable pub sell_pending : App → Loaded → ℕ → PendingAction
  unfolding sell_metas nav_token_name sell_min_out sighash
  sell_pending app l amount =
      let payload =
        sighash host (codes "withdraw")
        ++ (to_le_bytes 8 amount ++ to_le_bytes 8 (sell_min_out app.mf_floor_price amount)) in
      record {
        description =
            (codes "Sell " ++ nav_token_name l.mc.nav_mint)
            ∷ amount_line (codes "Amount: ") amount (nav_token_name l.mc.nav_mint)
            ∷ position_line l.position_pda
            ∷ [];
        instructions =
            host.set_compute_unit_limit 400_000
            ∷ create_ata_idempotent_ix rt app.keypair app.program_pda l.mc.base_mint
            ∷ hardig_ix rt payload (sell_metas rt app l)
            ∷ [];
        extra_signers = [];
      }

  unfoldable pub sell_action : App → Attempt PendingAction
  unfolding form_amount loaded sell_pending
  sell_action app = do
    amount ← form_amount host app
    l ← loaded app
    built (sell_pending app l amount)

  unfoldable pub borrow_pending : App → Loaded → ℕ → PendingAction
  unfolding borrow_metas sighash
  borrow_pending app l amount =
      let payload = sighash host (codes "borrow") ++ to_le_bytes 8 amount in
      record {
        description =
            codes "Borrow"
            ∷ amount_line (codes "Amount: ") amount (codes "SOL")
            ∷ position_line l.position_pda
            ∷ [];
        instructions =
            create_ata_idempotent_ix rt app.keypair app.program_pda l.mc.base_mint
            ∷ hardig_ix rt payload (borrow_metas rt app l)
            ∷ [];
        extra_signers = [];
      }

  unfoldable pub borrow_action : App → Attempt PendingAction
  unfolding form_amount loaded borrow_pending
  borrow_action app = do
    amount ← form_amount host app
    l ← loaded app
    built (borrow_pending app l amount)

  unfoldable pub repay_pending : App → Loaded → ℕ → PendingAction
  unfolding repay_metas sighash
  repay_pending app l amount =
      let payload = sighash host (codes "repay") ++ to_le_bytes 8 amount in
      record {
        description =
            codes "Repay"
            ∷ amount_line (codes "Amount: ") amount (codes "SOL")
            ∷ position_line l.position_pda
            ∷ [];
        instructions =
            create_ata_idempotent_ix rt app.keypair app.program_pda l.mc.base_mint
            ∷ host.system_transfer app.keypair app.wsol_ata amount
            ∷ host.sync_native app.wsol_ata
            ∷ hardig_ix rt payload (repay_metas rt app l)
            ∷ [];
        extra_signers = [];
      }

  unfoldable pub repay_action : App → Attempt PendingAction
  unfolding form_amount loaded repay_pending
  repay_action app = do
    amount ← form_amount host app
    l ← loaded app
    built (repay_pending app l amount)

  unfoldable pub reinvest_pending : App → Loaded → ℕ → PendingAction
  unfolding reinvest_metas nav_token_name permissions_name sighash
  reinvest_pending app l max_spread_bps =
      let payload =
        sighash host (codes "reinvest") ++ (to_le_bytes 8 0 ++ to_le_bytes 2 max_spread_bps) in
      record {
        description =
            codes "Reinvest (CPI)"
            ∷ position_line l.position_pda
            ∷ (codes "Permissions: " ++ permissions_name (permissions_or_zero app.my_permissions))
            ∷ (codes "Borrows available capacity and buys more " ++ nav_token_name l.mc.nav_mint)
            ∷ [];
        instructions =
            host.set_compute_unit_limit 600_000
            ∷ create_ata_idempotent_ix rt app.keypair app.program_pda l.mc.base_mint
            ∷ hardig_ix rt payload (reinvest_metas rt app l)
            ∷ [];
        extra_signers = [];
      }

  unfoldable pub reinvest_action : App → ℕ → Attempt PendingAction
  unfolding loaded reinvest_pending
  reinvest_action app max_spread_bps = do
    l ← loaded app
    built (reinvest_pending app l max_spread_bps)
