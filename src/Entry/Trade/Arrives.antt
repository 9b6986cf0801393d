-- ===== src/Entry/Trade/Arrives.antt =====
-- The trading instructions of crates/tui/src/app.rs at the entry points of
-- programs/hardig/src/lib.rs: the accounts and the arguments that the program takes from them.
use hardig.Base.{ℕ, ◌≡◌, arith, true, Option, none, some, ==_refl}
use hardig.Error.{ok}
use hardig.Runtime.{Runtime, Store}
use hardig.State.{PositionState, KeyState, ProtocolConfig}
use hardig.Trade.Accounts.{
  market_config_constraint, program_pda_constraint, nav_sol_ata_constraint, wsol_ata_constraint,
  base_token_ata_constraint, market_constraints, tenant_constraint, market_group_constraint,
  market_meta_constraint, mayflower_market_constraint, nav_sol_mint_constraint,
  base_vault_constraint, nav_vault_constraint, fee_vault_constraint, wsol_mint_constraint,
  mayflower_program_constraint, buy_constraints, withdraw_constraints, borrow_constraints,
  repay_constraints, reinvest_constraints,
}
use hardig.Client.{App}
use hardig.Client.Build.Trade.{
  Loaded, key_state_meta, buy_metas, sell_metas, borrow_metas, repay_metas, reinvest_metas,
}
use hardig.Anchor.{Anchor}
use hardig.Entry.{meets, optional_slot}
use hardig.Entry.Trade.{
  buy_accounts, withdraw_accounts, borrow_accounts, repay_accounts, reinvest_accounts,
}
use hardig.Entry.Trade.InSync.{
  InSync, client_accounts, withdraw_client_accounts, borrow_client_accounts, repay_client_accounts,
  reinvest_client_accounts,
}

meets-key_state_meta :
    (rt : Runtime) (o : Option ℕ) → meets rt.program_id optional_slot (key_state_meta rt o) ≡ true
meets-key_state_meta rt none = simp ==_refl
meets-key_state_meta rt (some pda) = ground arith

module _ (rt : Runtime) (anchor : Anchor) (s : Store) (app : App) (l : Loaded) (p : PositionState)
    (c : ProtocolConfig) (k : Option KeyState) (sync : InSync rt anchor s app l p c k) where
  pub buy_accounts-buy_metas :
      buy_accounts rt anchor (buy_metas rt app l) s ≡ ok (client_accounts rt app l p c)
  unfolding buy_accounts buy_metas
  buy_accounts-buy_metas = simp (
    sync.position_owned, sync.position_read, sync.config_owned, sync.config_read, sync.market_owned,
    sync.market_read, ==_refl,
  )

  pub buy_constraints-ok : buy_constraints rt (client_accounts rt app l p c) ≡ ok tt
  unfolding buy_constraints market_config_constraint program_pda_constraint nav_sol_ata_constraint
      wsol_ata_constraint market_constraints tenant_constraint market_group_constraint
      market_meta_constraint mayflower_market_constraint nav_sol_mint_constraint
      base_vault_constraint nav_vault_constraint fee_vault_constraint wsol_mint_constraint
      mayflower_program_constraint
  buy_constraints-ok = simp (
    sync.config_bump,
    ← sync.market_of_position,
    ← sync.program_pda_derived,
    sync.nav_derived,
    sync.wsol_derived,
    ==_refl,
  )

  pub withdraw_accounts-sell_metas :
      withdraw_accounts rt anchor (sell_metas rt app l) s
      ≡ ok (withdraw_client_accounts rt app l p c k)
  unfolding withdraw_accounts sell_metas
  withdraw_accounts-sell_metas = simp (
    sync.position_owned, sync.position_read, sync.config_owned, sync.config_read, sync.market_owned,
    sync.market_read, sync.key_state_read, ==_refl, meets-key_state_meta,
  )

  pub withdraw_constraints-ok :
      withdraw_constraints rt (withdraw_client_accounts rt app l p c k) ≡ ok tt
  unfolding withdraw_constraints buy_constraints market_config_constraint program_pda_constraint
      nav_sol_ata_constraint wsol_ata_constraint market_constraints tenant_constraint
      market_group_constraint market_meta_constraint mayflower_market_constraint
      nav_sol_mint_constraint base_vault_constraint nav_vault_constraint fee_vault_constraint
      wsol_mint_constraint mayflower_program_constraint
  withdraw_constraints-ok = simp (
    sync.config_bump,
    ← sync.market_of_position,
    ← sync.program_pda_derived,
    sync.nav_derived,
    sync.wsol_derived,
    ==_refl,
  )

  pub borrow_accounts-borrow_metas :
      borrow_accounts rt anchor (borrow_metas rt app l) s
      ≡ ok (borrow_client_accounts rt app l p c k)
  unfolding borrow_accounts borrow_metas
  borrow_accounts-borrow_metas = simp (
    sync.position_owned, sync.position_read, sync.config_owned, sync.config_read, sync.market_owned,
    sync.market_read, sync.key_state_read, ==_refl, meets-key_state_meta,
  )

  pub borrow_constraints-ok : borrow_constraints rt (borrow_client_accounts rt app l p c k) ≡ ok tt
  unfolding borrow_constraints market_config_constraint program_pda_constraint
      base_token_ata_constraint tenant_constraint market_group_constraint market_meta_constraint
      mayflower_market_constraint base_vault_constraint nav_vault_constraint fee_vault_constraint
      wsol_mint_constraint mayflower_program_constraint
  borrow_constraints-ok = simp (
    sync.config_bump,
    ← sync.market_of_position,
    ← sync.program_pda_derived,
    sync.wsol_derived,
    ==_refl,
  )

  pub repay_accounts-repay_metas :
      repay_accounts rt anchor (repay_metas rt app l) s ≡ ok (repay_client_accounts rt app l p c)
  unfolding repay_accounts repay_metas
  repay_accounts-repay_metas = simp (
    sync.position_owned, sync.position_read, sync.config_owned, sync.config_read, sync.market_owned,
    sync.market_read, ==_refl,
  )

  pub repay_constraints-ok : repay_constraints rt (repay_client_accounts rt app l p c) ≡ ok tt
  unfolding repay_constraints market_config_constraint program_pda_constraint
      base_token_ata_constraint market_meta_constraint mayflower_market_constraint
      base_vault_constraint wsol_mint_constraint mayflower_program_constraint
  repay_constraints-ok = simp (
    sync.config_bump,
    ← sync.market_of_position,
    ← sync.program_pda_derived,
    sync.wsol_derived,
    ==_refl,
  )

  pub reinvest_accounts-reinvest_metas :
      reinvest_accounts rt anchor (reinvest_metas rt app l) s
      ≡ ok (reinvest_client_accounts rt app l p c)
  unfolding reinvest_accounts reinvest_metas
  reinvest_accounts-reinvest_metas = simp (
    sync.position_owned, sync.position_read, sync.config_owned, sync.config_read, sync.market_owned,
    sync.market_read, ==_refl,
  )

  pub reinvest_constraints-ok :
      reinvest_constraints rt (reinvest_client_accounts rt app l p c) ≡ ok tt
  unfolding reinvest_constraints market_config_constraint program_pda_constraint
      nav_sol_ata_constraint wsol_ata_constraint base_token_ata_constraint market_constraints
      tenant_constraint market_group_constraint market_meta_constraint mayflower_market_constraint
      nav_sol_mint_constraint base_vault_constraint nav_vault_constraint fee_vault_constraint
      wsol_mint_constraint mayflower_program_constraint
  reinvest_constraints-ok = simp (
    sync.config_bump,
    ← sync.market_of_position,
    ← sync.program_pda_derived,
    sync.nav_derived,
    sync.wsol_derived,
    ==_refl,
  )
