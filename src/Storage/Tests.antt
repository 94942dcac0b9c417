-- ===== src/Storage/Tests.antt =====
-- The batch writer's theorems at concrete calls, over whole numbers.
mod Consumer
use quant_system.Prelude.{◌≡◌, ◌⊎◌, refl, true, false, none, List, [], ◌∷◌, ◌++◌}
use quant_system.Prelude.Int.{pos}
use quant_system.Num.Fixed.{integers}
use quant_system.Storage.BatchWriter.{
  PendingTrade, Writer, Database, Faults, init, add_trade, flush,
}
use quant_system.Storage.BatchWriter.Delivery.{
  Call, trade, flushes, run, all_trades, all_books, trades_of, books_of, run_delivers,
  raised_flush_loses,
}

abbrev a_trade : PendingTrade
a_trade = record {
  time = 1;
  symbol = "BTC";
  trade_id = 7;
  price = pos 100;
  quantity = pos 2;
  is_buyer_maker = true;
  ingestion_latency_us = none;
  backtest_id = none;
}

abbrev empty : Database
empty = record { trades = []; books = [] }

abbrev calls : List Call
calls = trade a_trade ∷ flushes (pos 3) ∷ trade a_trade ∷ []

run_delivers_example :
    (all_trades (run calls (init 2 (pos 1) (pos 0), empty))
      ≡ all_trades (init 2 (pos 1) (pos 0), empty) ++ trades_of calls)
    × (all_books (run calls (init 2 (pos 1) (pos 0), empty))
        ≡ all_books (init 2 (pos 1) (pos 0), empty) ++ books_of calls)
run_delivers_example = run_delivers calls (init 2 (pos 1) (pos 0), empty)

abbrev waiting : Writer
waiting = add_trade a_trade (init 2 (pos 1) (pos 0))

abbrev no_connection : Faults
no_connection = record { connection = true; copy_trades = false; copy_books = false }

raised_flush_loses_example :
    let (w', db', _) = flush (pos 5) no_connection waiting empty in
    (w'.trade_buffer ≡ [])
    × (w'.book_buffer ≡ [])
    × (db'.books ≡ [])
    × ((db'.trades ≡ [])
        ⊎ ((db'.trades ≡ all_trades (waiting, empty)) × (no_connection.copy_books ≡ true)))
unfolding flush init add_trade
raised_flush_loses_example = raised_flush_loses (pos 5) no_connection waiting empty refl
