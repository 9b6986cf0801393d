-- ===== src/Entry/Trade/Handled.antt =====
-- A trade of crates/tui/src/app.rs from the form to the handler of the program.
use hardig.Base.{ℕ, ◌<◌, ◌^◌, ◌≡◌, refl, arith, Option, List, [], ◌∷◌, length}
use hardig.Error.{Result, err, constraint}
use hardig.Runtime.{Runtime, Store, Bytes, Clock, AccountMeta, Instruction, codes}
use hardig.State.{PositionState, KeyState, ProtocolConfig}
use hardig.Trade.Buy.{buy, buy_handler}
use hardig.Trade.Withdraw.{withdraw, withdraw_handler}
use hardig.Trade.Borrow.{borrow, borrow_handler}
use hardig.Trade.Repay.{repay, repay_handler}
use hardig.Trade.Reinvest.{reinvest, reinvest_handler}
use hardig.Client.{Host, App, PendingAction}
use hardig.Client.Attempt.{Attempt, built}
use hardig.Client.Build.Trade.{
  Loaded, loaded, form_amount, sell_min_out, buy_pending, sell_pending, borrow_pending,
  repay_pending, reinvest_pending, buy_action, sell_action, borrow_action, repay_action,
  reinvest_action,
}
use hardig.Anchor.{Anchor}
use hardig.Entry.{Borsh}
use hardig.Entry.Args.Read.{dispatch-sighash, read_two_u64-le, read_one_u64-le, read_u64_u16-le}
use hardig.Entry.Trade.{enter_buy, enter_withdraw, enter_borrow, enter_repay, enter_reinvest}
use hardig.Entry.Trade.Arrives.{
  buy_accounts-buy_metas, withdraw_accounts-sell_metas, borrow_accounts-borrow_metas,
  repay_accounts-repay_metas, reinvest_accounts-reinvest_metas, buy_constraints-ok,
  withdraw_constraints-ok, borrow_constraints-ok, repay_constraints-ok, reinvest_constraints-ok,
}
use hardig.Entry.Trade.InSync.{
  InSync, client_accounts, withdraw_client_accounts, borrow_client_accounts, repay_client_accounts,
  reinvest_client_accounts,
}

-- The last instruction of a list, at an entry point; the ones in front of it are for other programs.
abbrev pub enter_last {ℓ} :
    {A : Type ℓ}
    → (List AccountMeta → Bytes → Store → Result A)
    → List Instruction
    → Store
    → Result A
enter_last enter [] s = err constraint
enter_last enter (ix ∷ []) s = enter ix.metas ix.payload s
enter_last enter (_ ∷ ix ∷ ixs) s = enter_last enter (ix ∷ ixs) s

-- The attempt builds an action, and the entry point comes to the outcome on its last instruction.
abbrev pub Delivered {ℓ} :
    {A : Type ℓ}
    → Attempt PendingAction
    → (List AccountMeta → Bytes → Store → Result A)
    → Store
    → Result A
    → Type ℓ
Delivered attempt enter s outcome =
    (a : PendingAction) × (attempt ≡ built a) × (enter_last enter a.instructions s ≡ outcome)

sell_min_out-bounded : (floor_price amount : ℕ) → sell_min_out floor_price amount < 2 ^ 64
unfolding sell_min_out
sell_min_out-bounded floor_price amount = ground arith

module _ (rt : Runtime) (clock : Clock) (host : Host) (anchor : Anchor) (borsh : Borsh) (s : Store)
    (app : App) (l : Loaded) (p : PositionState) (c : ProtocolConfig) (k : Option KeyState)
    (sync : InSync rt anchor s app l p c k) (digest : (b : Bytes) → length (host.sha256 b) ≡ 32)
    (ready : loaded app ≡ built l) where
  buy_arrives :
      (amount : ℕ)
      → amount < 2 ^ 64
      → form_amount host app ≡ built amount
      → Delivered
          (buy_action rt host app)
          (enter_buy rt clock host anchor borsh)
          s
          (buy_handler rt clock (client_accounts rt app l p c) amount 0 s)
  unfolding buy_action buy_pending enter_buy buy
  buy_arrives amount bounded typed = (
    buy_pending rt host app l amount,
    rw (typed, ready) refl,
    rw
        (
          dispatch-sighash host digest (codes "buy") _,
          read_two_u64-le borsh amount 0 bounded (omega arith),
          buy_accounts-buy_metas rt anchor s app l p c k sync,
          buy_constraints-ok rt anchor s app l p c k sync,
        )
        refl,
  )

  withdraw_arrives :
      (amount : ℕ)
      → amount < 2 ^ 64
      → form_amount host app ≡ built amount
      → Delivered (sell_action rt host app) (enter_withdraw rt clock host anchor borsh) s (
          withdraw_handler rt clock
            (withdraw_client_accounts rt app l p c k)
            amount
            (sell_min_out app.mf_floor_price amount)
            s)
  unfolding sell_action sell_pending enter_withdraw withdraw
  withdraw_arrives amount bounded typed = (
    sell_pending rt host app l amount,
    rw (typed, ready) refl,
    rw
        (
          dispatch-sighash host digest (codes "withdraw") _,
          read_two_u64-le borsh amount (sell_min_out app.mf_floor_price amount) bounded
              (sell_min_out-bounded app.mf_floor_price amount),
          withdraw_accounts-sell_metas rt anchor s app l p c k sync,
          withdraw_constraints-ok rt anchor s app l p c k sync,
        )
        refl,
  )

  borrow_arrives :
      (amount : ℕ)
      → amount < 2 ^ 64
      → form_amount host app ≡ built amount
      → Delivered
          (borrow_action rt host app)
          (enter_borrow rt clock host anchor borsh)
          s
          (borrow_handler rt clock (borrow_client_accounts rt app l p c k) amount s)
  unfolding borrow_action borrow_pending enter_borrow borrow
  borrow_arrives amount bounded typed = (
    borrow_pending rt host app l amount,
    rw (typed, ready) refl,
    rw
        (
          dispatch-sighash host digest (codes "borrow") _,
          read_one_u64-le borsh amount bounded,
          borrow_accounts-borrow_metas rt anchor s app l p c k sync,
          borrow_constraints-ok rt anchor s app l p c k sync,
        )
        refl,
  )

  repay_arrives :
      (amount : ℕ)
      → amount < 2 ^ 64
      → form_amount host app ≡ built amount
      → Delivered
          (repay_action rt host app)
          (enter_repay rt clock host anchor borsh)
          s
          (repay_handler rt clock (repay_client_accounts rt app l p c) amount s)
  unfolding repay_action repay_pending enter_repay repay
  repay_arrives amount bounded typed = (
    repay_pending rt host app l amount,
    rw (typed, ready) refl,
    rw
        (
          dispatch-sighash host digest (codes "repay") _,
          read_one_u64-le borsh amount bounded,
          repay_accounts-repay_metas rt anchor s app l p c k sync,
          repay_constraints-ok rt anchor s app l p c k sync,
        )
        refl,
  )

  reinvest_arrives :
      (bps : ℕ)
      → bps < 2 ^ 16
      → Delivered
          (reinvest_action rt host app bps)
          (enter_reinvest rt clock host anchor borsh)
          s
          (reinvest_handler rt clock (reinvest_client_accounts rt app l p c) 0 bps s)
  unfolding reinvest_action reinvest_pending enter_reinvest reinvest
  reinvest_arrives bps bounded = (
    reinvest_pending rt host app l bps,
    rw (ready) refl,
    rw
        (
          dispatch-sighash host digest (codes "reinvest") _,
          read_u64_u16-le borsh 0 bps (omega arith) bounded,
          reinvest_accounts-reinvest_metas rt anchor s app l p c k sync,
          reinvest_constraints-ok rt anchor s app l p c k sync,
        )
        refl,
  )

  -- Let the client's state be in step with the accounts on the chain, and let the first field of the
  -- form spell an amount of 64 bits. Then each of the five trading builders comes to an action, and the
  -- program, entered with the last instruction of that action, takes its accounts and its arguments,
  -- passes every account constraint, and is exactly its handler run on the loaded position, key, market
  -- and amount (for a sale with the client's minimum, for a purchase and a reinvestment with the minimum
  -- 0). SHA-256 gives 32 bytes.
  pub client_trades_arrive :
      (amount bps : ℕ)
      → form_amount host app ≡ built amount
      → amount < 2 ^ 64
      → bps < 2 ^ 16
      → Delivered
          (buy_action rt host app)
          (enter_buy rt clock host anchor borsh)
          s
          (buy_handler rt clock (client_accounts rt app l p c) amount 0 s)
        × Delivered (sell_action rt host app) (enter_withdraw rt clock host anchor borsh) s (
            withdraw_handler rt clock
              (withdraw_client_accounts rt app l p c k)
              amount
              (sell_min_out app.mf_floor_price amount)
              s)
        × Delivered
            (borrow_action rt host app)
            (enter_borrow rt clock host anchor borsh)
            s
            (borrow_handler rt clock (borrow_client_accounts rt app l p c k) amount s)
        × Delivered
            (repay_action rt host app)
            (enter_repay rt clock host anchor borsh)
            s
            (repay_handler rt clock (repay_client_accounts rt app l p c) amount s)
        × Delivered
            (reinvest_action rt host app bps)
            (enter_reinvest rt clock host anchor borsh)
            s
            (reinvest_handler rt clock (reinvest_client_accounts rt app l p c) 0 bps s)
  client_trades_arrive amount bps typed bounded small = (
    buy_arrives amount bounded typed,
    withdraw_arrives amount bounded typed,
    borrow_arrives amount bounded typed,
    repay_arrives amount bounded typed,
    reinvest_arrives bps small,
  )
