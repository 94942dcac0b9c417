-- ===== src/Alpha/Tests.antt =====
-- The theorems on the order book at a small book, over whole numbers.
mod Strategy
mod Pairs
use quant_system.Prelude.{refl, [], ◌∷◌}
use quant_system.Prelude.Int.{pos}
use quant_system.Num.Order.{Le}
use quant_system.Num.Fixed.{integers}
use quant_system.Core.Models.{DepthUpdate}
use quant_system.Alpha.OrderBook.{Book, apply_delta, best_bid, best_ask}
use quant_system.Alpha.OrderBook.Levels.{AllPresent, IsBest, best_bid-IsBest}

abbrev a_book : Book
a_book = record {
  symbol = "BTC";
  bids = (pos 99, pos 2) ∷ (pos 98, pos 5) ∷ [];
  asks = (pos 102, pos 3) ∷ (pos 101, pos 1) ∷ [];
}

-- One bid leaves, and one ask comes.
abbrev an_update : DepthUpdate
an_update = record {
  exchange = "binance";
  symbol = "BTC";
  first_update_id = 1;
  final_update_id = 2;
  bids = (pos 99, pos 0) ∷ [];
  asks = (pos 100, pos 4) ∷ [];
  timestamp_exchange = 1;
  timestamp_ingested = 2;
}

best_bid-IsBest_example :
    IsBest (λ k p. Le k p) a_book.bids (best_bid a_book)
    × IsBest (λ k p. Le p k) a_book.asks (best_ask a_book)
best_bid-IsBest_example = best_bid-IsBest a_book
