-- ===== src/Tests/Trading.antt =====
-- Examples of the trading instructions.
use hardig.Base.{arith, ◌+◌, ◌*◌, ◌/◌, ◌<◌, ◌↔◌, ℕ, ◌-◌, ◌≡◌, refl, none, some}
use hardig.Runtime.{Store}
use hardig.State.{KeyState}
use hardig.Mayflower.{read_deposited_shares}
use hardig.Trade.Draw.{Drawn}
use hardig.Trade.Buy.{buy_cpi}
use hardig.Trade.Borrow.{borrow_cpi}
use hardig.Trade.Withdraw.{sell_cpi}
use hardig.Trade.Repay.{repay_cpi}
use hardig.Trade.Buy.Effect.{Bought, buy_effect}
use hardig.Trade.Withdraw.Effect.{Withdrawn, withdraw_effect}
use hardig.Trade.Withdraw.Limits.{limited_withdraw_bounded}
use hardig.Trade.Borrow.Effect.{Borrowed, borrow_effect}
use hardig.Trade.Borrow.Limits.{limited_borrow_bounded}
use hardig.Trade.Repay.Effect.{Repaid, repay_effect}
use hardig.Trade.Reinvest.{check_spread}
use hardig.Trade.Reinvest.Spread.{check_spread_iff}
use hardig.Trade.Reinvest.Effect.{Reinvested, reinvest_effect}
use hardig.Error.{ok}
use hardig.Tests.World.{
  world, clock, store, trade, position, key_state, limited_key, admin_key, effect, personal,
}
use hardig.Tests.Running.{trading}

abbrev after_borrow : Store
after_borrow = effect (borrow_cpi world (trade limited_key (some key_state)) 40) store

abbrev borrowed_state : KeyState
borrowed_state = record key_state {
  borrow_bucket = record { capacity = 200; refill_period = 1000; level = 10; last_update = 1000 };
  total_borrowed = 70;
}

limited_borrow_bounded_example :
    (ks ks' : KeyState) × (some key_state ≡ some ks)
    × (ks.asset ≡ limited_key)
    × (some borrowed_state ≡ some ks')
    × Drawn 40 1000 ks.borrow_bucket ks'.borrow_bucket ks.total_borrow_limit ks.total_borrowed
        ks'.total_borrowed
unfolding trading
limited_borrow_bounded_example =
    limited_borrow_bounded world clock (trade limited_key (some key_state)) 40 store
      (record position { user_debt = 140 }) (some borrowed_state) after_borrow 0xc0 refl refl refl

abbrev after_buy : Store
after_buy = effect (buy_cpi world (trade admin_key none) 50) store

buy_effect_example :
    Bought world clock
      (trade admin_key none)
      50
      20
      store
      (record position { deposited_nav = 550; last_admin_activity = clock.unix_timestamp })
      after_buy
unfolding trading
buy_effect_example =
    buy_effect world clock (trade admin_key none) 50 20 store
      (record position { deposited_nav = 550; last_admin_activity = clock.unix_timestamp })
      after_buy refl

borrow_effect_example :
    Borrowed world clock
      (trade limited_key (some key_state))
      40
      store
      (record position { user_debt = 140 })
      (some borrowed_state)
      after_borrow
unfolding trading
borrow_effect_example =
    borrow_effect world clock (trade limited_key (some key_state)) 40 store
      (record position { user_debt = 140 }) (some borrowed_state) after_borrow refl

abbrev after_sale : Store
after_sale = effect (sell_cpi world (trade limited_key (some key_state)) 30) store

abbrev sold_state : KeyState
sold_state = record key_state {
  sell_bucket = record { capacity = 200; refill_period = 1000; level = 20; last_update = 1000 };
}

withdraw_effect_example :
    Withdrawn world clock
      (trade limited_key (some key_state))
      30
      0
      store
      (record position { deposited_nav = 470 })
      (some sold_state)
      after_sale
unfolding trading
withdraw_effect_example =
    withdraw_effect world clock (trade limited_key (some key_state)) 30 0 store
      (record position { deposited_nav = 470 }) (some sold_state) after_sale refl

limited_withdraw_bounded_example :
    (ks ks' : KeyState) × (some key_state ≡ some ks)
    × (ks.asset ≡ limited_key)
    × (some sold_state ≡ some ks')
    × ((before after : ℕ) × (s₁ : Store) × (read_deposited_shares (store personal).bytes
          ≡ ok before)
        × (world.invoke (sell_cpi world (trade limited_key (some key_state)) 30) store ≡ ok s₁)
        × (read_deposited_shares (s₁ personal).bytes ≡ ok after)
        × Drawn
            (before - after)
            1000
            ks.sell_bucket
            ks'.sell_bucket
            ks.total_sell_limit
            ks.total_sold
            ks'.total_sold)
unfolding trading
limited_withdraw_bounded_example =
    limited_withdraw_bounded world clock (trade limited_key (some key_state)) 30 0 store
      (record position { deposited_nav = 470 }) (some sold_state) after_sale 0xc0 refl refl refl

abbrev after_repayment : Store
after_repayment = effect (repay_cpi world (trade admin_key none) 60) store

repay_effect_example :
    Repaid world clock
      (trade admin_key none)
      60
      store
      (record position { user_debt = 40; last_admin_activity = clock.unix_timestamp })
      after_repayment
unfolding trading
repay_effect_example =
    repay_effect world clock (trade admin_key none) 60 store
      (record position { user_debt = 40; last_admin_activity = clock.unix_timestamp })
      after_repayment refl

-- The capacity is 400 lamports, which buy 400 shares.
abbrev after_reinvestment : Store
after_reinvestment =
    effect (buy_cpi world (trade admin_key none) 400)
      (effect (borrow_cpi world (trade admin_key none) 400) store)

reinvest_effect_example :
    Reinvested world clock
      (trade admin_key none)
      400
      100
      store
      (record position {
        deposited_nav = 900;
        user_debt = 500;
        last_admin_activity = clock.unix_timestamp;
      })
      after_reinvestment
unfolding trading
reinvest_effect_example =
    reinvest_effect world clock (trade admin_key none) 400 100 store
      (record position {
        deposited_nav = 900;
        user_debt = 500;
        last_admin_activity = clock.unix_timestamp;
      })
      after_reinvestment refl

check_spread_iff_example :
    (check_spread 100 1_000_000_000 505 500 ≡ ok tt)
    ↔ (505 * 1_000_000_000 / 500 * 10_000 < (10_001 + 100) * 1_000_000_000)
check_spread_iff_example =
    check_spread_iff 100 1_000_000_000 505 500 (omega arith) (omega arith) (omega arith)
      (omega arith)
