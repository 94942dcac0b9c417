-- ===== src/Storage/BatchWriter.antt =====
-- services/storage/storage_svc/batch_writer.py, over the rows of the two tables. The database is
-- what a COPY appends to; whether a COPY raises, or the pool gives no connection, is an argument.
pub mod Delivery
use quant_system.Prelude.{
  ℕ, ◌+◌, String, Option, Bool, true, false, not, ◌&&◌, ◌||◌, List, [], ◌∷◌, ◌++◌, length, nonempty,
  leb, if◌then◌else◌,
}
use quant_system.Prelude.Int.{ℤ}
use quant_system.Num.{Num, Float, ◌⊖◌, ◌≼◌}

module _ ⦃N : Num⦄ where
  -- The time is the exchange's timestamp in milliseconds.
  pub record PendingTrade : Type 0 where
    pub time : ℕ
    pub symbol : String
    pub trade_id : ℕ
    pub price : Float
    pub quantity : Float
    pub is_buyer_maker : Bool
    pub ingestion_latency_us : Option ℤ
    pub backtest_id : Option String

  pub record PendingBookSnapshot : Type 0 where
    pub time : ℕ
    pub symbol : String
    pub bid_prices : List Float
    pub bid_sizes : List Float
    pub ask_prices : List Float
    pub ask_sizes : List Float
    pub spread : Float
    pub mid_price : Float
    pub backtest_id : Option String

  pub record Writer : Type 0 where
    pub batch_size : ℕ
    pub batch_timeout : Float
    pub trade_buffer : List PendingTrade
    pub book_buffer : List PendingBookSnapshot
    pub last_flush : Float
    pub total_trades_written : ℕ
    pub total_books_written : ℕ

  -- The tables `trades` and `order_book_snapshots`.
  pub record Database : Type 0 where
    pub trades : List PendingTrade
    pub books : List PendingBookSnapshot

  -- What goes wrong in a flush: the connection, the first COPY, the second.
  pub record Faults : Type 0 where
    pub connection : Bool
    pub copy_trades : Bool
    pub copy_books : Bool

  -- `BatchWriter.__init__`
  unfoldable pub init : ℕ → Float → Float → Writer
  init size timeout now = record {
    batch_size = size;
    batch_timeout = timeout;
    trade_buffer = [];
    book_buffer = [];
    last_flush = now;
    total_trades_written = 0;
    total_books_written = 0;
  }

  -- `add_trade` and `add_book_snapshot`
  unfoldable pub add_trade : PendingTrade → Writer → Writer
  add_trade t w = record w { trade_buffer = w.trade_buffer ++ t ∷ [] }

  unfoldable pub add_book_snapshot : PendingBookSnapshot → Writer → Writer
  add_book_snapshot b w = record w { book_buffer = w.book_buffer ++ b ∷ [] }

  -- `should_flush`
  unfoldable pub should_flush : Float → Writer → Bool
  should_flush now w =
      let buffer_full =
        leb w.batch_size (length w.trade_buffer) || leb w.batch_size (length w.book_buffer) in
      let timed_out =
        w.batch_timeout ≼ now ⊖ w.last_flush
        && (nonempty w.trade_buffer || nonempty w.book_buffer) in
      buffer_full || timed_out

  -- The part of `flush` on the connection: each table's COPY, if it has rows, and its counter.
  unfoldable pub write_books :
      Faults → List PendingBookSnapshot → Writer × Database → Writer × Database × Bool
  write_books f [] (w, db) = (w, db, false)
  write_books f (b ∷ bs) (w, db) = if f.copy_books then (w, db, true) else (
    record w { total_books_written = w.total_books_written + length (b ∷ bs) },
    record db { books = db.books ++ b ∷ bs },
    false,
  )

  unfoldable pub write_all :
      Faults
      → List PendingTrade
      → List PendingBookSnapshot
      → Writer × Database
      → Writer × Database × Bool
  unfolding write_books
  write_all f [] bs s = write_books f bs s
  write_all f (t ∷ ts) bs (w, db) =
      if f.copy_trades
      then (w, db, true)
      else write_books f bs (
        record w { total_trades_written = w.total_trades_written + length (t ∷ ts) },
        record db { trades = db.trades ++ t ∷ ts },
      )

  -- `flush`: the buffers are emptied first. The last value says whether the call raised.
  unfoldable pub flush : Float → Faults → Writer → Database → Writer × Database × Bool
  unfolding write_all
  flush now f w db =
      let w' = record w { trade_buffer = []; book_buffer = []; last_flush = now } in
      if not (nonempty w.trade_buffer) && not (nonempty w.book_buffer)
      then (w', db, false)
      else if f.connection
      then (w', db, true)
      else write_all f w.trade_buffer w.book_buffer (w', db)
