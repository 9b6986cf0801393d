-- ===== src/Tests/Client.antt =====
-- Runs and examples of the client: crates/tui/src/app.rs, and its instructions at the entry points
-- of the program.
use hardig.Base.{ℕ, ◌≡◌, refl, arith, none, some, [], ◌∷◌, to_le_bytes}
use hardig.Trade.Buy.{buy_handler}
use hardig.Trade.Withdraw.{withdraw_handler}
use hardig.Trade.Borrow.{borrow_handler}
use hardig.Trade.Repay.{repay_handler}
use hardig.Trade.Reinvest.{reinvest_handler}
use hardig.Mayflower.Cpi.{
  derive_personal_position, derive_personal_position_escrow, derive_log_account,
}
use hardig.Anchor.{load_optional}
use hardig.Client.Attempt.{built}
use hardig.Client.Texts.{parse_unsigned}
use hardig.Client.Build.{get_ata}
use hardig.Client.Build.Trade.{
  Loaded, loaded, form_amount, sell_min_out, buy_action, sell_action, borrow_action, repay_action,
  reinvest_action,
}
use hardig.Client.Select.{select_active_position, position_at, read_position}
use hardig.Entry.Trade.{enter_buy, enter_withdraw, enter_borrow, enter_repay, enter_reinvest}
use hardig.Entry.Trade.InSync.{
  InSync, client_accounts, withdraw_client_accounts, borrow_client_accounts, repay_client_accounts,
  reinvest_client_accounts,
}
use hardig.Entry.Trade.Handled.{Delivered, client_trades_arrive}
use hardig.Entry.Trade.Selected.{OnChain, select_active_position-InSync}
use hardig.Tests.World.{world, clock, config, position, market, admin_key}
use hardig.Tests.Desk.{owned, desk, reader, borsh, chain, discovered, start, node, derived_world}

abbrev ready : Loaded
ready = record { position_pda = 108; key_asset = admin_key; mc_pda = 41; mc = market }

start_amount : form_amount desk start ≡ built 3_000_000_000
unfolding form_amount parse_unsigned
start_amount = refl

loaded-start : loaded start ≡ built ready
unfolding loaded
loaded-start = refl

start-InSync : InSync world reader chain start ready position config none
unfolding derive_personal_position derive_personal_position_escrow derive_log_account load_optional
start-InSync = record {
  position_owned = refl;
  position_read = refl;
  config_owned = refl;
  config_read = refl;
  config_bump = refl;
  market_owned = refl;
  market_read = refl;
  market_of_position = refl;
  program_pda_derived = refl;
  pp_derived = refl;
  escrow_derived = refl;
  log_derived = refl;
  wsol_derived = refl;
  nav_derived = refl;
  key_state_read = refl;
}

client_trades_arrive_example :
    Delivered (buy_action world desk start) (enter_buy world clock desk reader borsh) chain (
      buy_handler world clock
        (client_accounts world start ready position config)
        3_000_000_000
        0
        chain)
    × Delivered
        (sell_action world desk start)
        (enter_withdraw world clock desk reader borsh)
        chain
        (withdraw_handler world clock
          (withdraw_client_accounts world start ready position config none)
          3_000_000_000
          (sell_min_out 0 3_000_000_000)
          chain)
    × Delivered
        (borrow_action world desk start)
        (enter_borrow world clock desk reader borsh)
        chain
        (borrow_handler world clock
          (borrow_client_accounts world start ready position config none)
          3_000_000_000
          chain)
    × Delivered (repay_action world desk start) (enter_repay world clock desk reader borsh) chain (
        repay_handler world clock
          (repay_client_accounts world start ready position config)
          3_000_000_000
          chain)
    × Delivered
        (reinvest_action world desk start 500)
        (enter_reinvest world clock desk reader borsh)
        chain
        (reinvest_handler world clock
          (reinvest_client_accounts world start ready position config)
          0
          500
          chain)
client_trades_arrive_example =
    client_trades_arrive world clock desk reader borsh chain start ready position config none
      start-InSync (λ _. refl) loaded-start 3_000_000_000 500 start_amount (omega arith)
      (omega arith)

selection : OnChain derived_world reader chain discovered position config market none
unfolding load_optional
selection = record {
  position_owned = refl;
  position_here = refl;
  seed_agrees = refl;
  config_owned = refl;
  config_here = refl;
  config_bump = refl;
  market_set = refl;
  market_owned = refl;
  market_here = refl;
  key_state_here = refl;
}

here : read_position reader 108 ((108, owned) ∷ []) ≡ some position
unfolding read_position
here = refl

found : position_at start.discovered_positions 0 ≡ some discovered
unfolding position_at
found = refl

derived_log : start.log_pda ≡ derive_log_account derived_world
unfolding derive_log_account
derived_log = refl

same_ata : (w m : ℕ) → derived_world.associated_token_address w m ≡ get_ata derived_world w m
unfolding get_ata to_le_bytes
same_ata w m = refl

select_active_position-InSync_example :
    (loaded (select_active_position derived_world desk reader node 0 ((108, owned) ∷ []) [] start)
      ≡ built ready)
    × InSync derived_world reader chain
        (select_active_position derived_world desk reader node 0 ((108, owned) ∷ []) [] start)
        ready
        position
        config
        none
select_active_position-InSync_example =
    select_active_position-InSync derived_world desk reader node chain ((108, owned) ∷ []) [] start
      0 discovered position config market none found here refl derived_log same_ata selection
