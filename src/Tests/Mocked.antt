-- ===== src/Tests/Mocked.antt =====
-- An example of the stand-in for Mayflower, test-programs/mock-mayflower/src/lib.rs.
use hardig.Base.{refl, arith, to_le_bytes, from_le_bytes}
use hardig.Runtime.{text_eq}
use hardig.Mayflower.{read_deposited_shares, read_debt}
use hardig.Mayflower.Cpi.{build_buy_ix, build_sell_ix, build_borrow_ix, build_repay_ix}
use hardig.Trade.{market_addresses}
use hardig.Mock.Matches.{Holds, Moved, mocked, mock_matches}
use hardig.Tests.World.{world, store, personal, market}

holding : Holds (store personal).bytes 500 100
unfolding read_deposited_shares read_debt to_le_bytes text_eq from_le_bytes
holding = (refl, refl)

mock_matches_example :
    Moved personal 530 100 store
      (mocked (build_buy_ix world 109 personal 124 160 161 30 0 (market_addresses market)) store)
    × Moved personal 470 100 store
        (mocked (build_sell_ix world 109 personal 124 160 161 30 0 (market_addresses market)) store)
    × Moved personal 500 130 store
        (mocked (build_borrow_ix world 109 personal 161 30 (market_addresses market)) store)
    × Moved personal 500 70 store
        (mocked (build_repay_ix world 109 personal 161 30 (market_addresses market)) store)
mock_matches_example =
    mock_matches world 109 124 160 161 (market_addresses market) 30 0 (omega arith) personal store
      500 100 holding (omega arith) (omega arith)
