-- ===== src/Storage/Consumer.antt =====
-- services/storage/storage_svc/consumer.py: messages of the two raw topics become rows of the batch
-- writer. A message that does not parse is `none`. `datetime.fromtimestamp` on the milliseconds
-- over 1000.0 is an argument: a datetime is written as a number, and `none` is its exception.
pub mod Sampling
pub mod Shape
use quant_system.Prelude.{
  ℕ, zero, suc, ◌+◌, ◌%◌, String, Bool, true, false, not, ◌&&◌, ◌||◌, Option, none, some, List, [],
  ◌∷◌, map, length, nonempty, get_or, ltb, eqb, if◌then◌else◌,
}
use quant_system.Prelude.Eq.{string_eq}
use quant_system.Prelude.Int.{ℤ, pos, ◌-ℤ◌, ◌*ℤ◌}
use quant_system.Prelude.Dict.{Dict, lookup, insert}
use quant_system.Num.{Num, Float, ◌⊕◌, ◌⊖◌, ◌⊘◌, nought, lit}
use quant_system.Core.Models.{Trade, DepthUpdate}
use quant_system.Storage.BatchWriter.{
  PendingTrade, PendingBookSnapshot, Writer, add_trade, add_book_snapshot,
}

-- BOOK_SNAPSHOT_DEPTH and BOOK_SNAPSHOT_INTERVAL
abbrev pub snapshot_depth : ℕ
snapshot_depth = 20

abbrev pub snapshot_interval : ℕ
snapshot_interval = 10

-- `xs[:n]`
abbrev pub take {ℓ} : {A : Type ℓ} → ℕ → List A → List A
take zero xs = []
take (suc n) [] = []
take (suc n) (x ∷ xs) = x ∷ take n xs

module _ ⦃N : Num⦄ where
  -- A message of a topic, parsed, with the header `backtest_id`.
  pub data Message : Type 0 where
    raw_trade : Option Trade → Option String → Message
    raw_depth : Option DepthUpdate → Option String → Message
    other_topic : Message

  -- `StorageConsumer`
  pub record Consumer : Type 0 where
    pub writer : Writer
    pub book_update_counter : Dict String ℕ

  unfoldable pub init : Writer → Consumer
  init writer = record { writer = writer; book_update_counter = [] }

  -- `_handle_trade`
  abbrev pub latency : Trade → Option ℤ
  latency t =
      if ltb 0 t.timestamp_ingested && ltb 0 t.timestamp_exchange
      then some ((pos t.timestamp_ingested -ℤ pos t.timestamp_exchange) *ℤ pos 1000)
      else none

  unfoldable pub handle_trade : (ℕ → Option ℕ) → Trade → Option String → Consumer → Consumer
  unfolding add_trade
  handle_trade fromtimestamp t backtest_id c = elim (fromtimestamp t.timestamp_exchange) [
    | none ↦ c
    | some ts ↦ record c {
      writer =
          add_trade
            (record {
              time = ts;
              symbol = t.symbol;
              trade_id = t.trade_id;
              price = t.price;
              quantity = t.quantity;
              is_buyer_maker = t.is_buyer_maker;
              ingestion_latency_us = latency t;
              backtest_id = backtest_id;
            })
            c.writer;
    }
  ]

  -- The price of the first level.
  abbrev pub best : List (Float × Float) → Float
  best [] = nought
  best ((price, size) ∷ levels) = price

  abbrev pub snapshot_of : ℕ → DepthUpdate → Option String → PendingBookSnapshot
  snapshot_of ts d backtest_id =
      let bids = take snapshot_depth d.bids in
      let asks = take snapshot_depth d.asks in
      record {
        time = ts;
        symbol = d.symbol;
        bid_prices = map (λ l. l.0) bids;
        bid_sizes = map (λ l. l.1) bids;
        ask_prices = map (λ l. l.0) asks;
        ask_sizes = map (λ l. l.1) asks;
        spread = best asks ⊖ best bids;
        mid_price = (best asks ⊕ best bids) ⊘ lit 2 0;
        backtest_id = backtest_id;
      }

  -- `_handle_depth`
  unfoldable pub handle_depth : (ℕ → Option ℕ) → DepthUpdate → Option String → Consumer → Consumer
  unfolding add_book_snapshot
  handle_depth fromtimestamp d backtest_id c =
      let count = suc (get_or (lookup d.symbol c.book_update_counter) 0) in
      let counted = record c {
        book_update_counter = insert d.symbol count c.book_update_counter;
      } in
      if not (eqb (count % snapshot_interval) 0)
      then counted
      else if not (nonempty (take snapshot_depth d.bids))
          || not (nonempty (take snapshot_depth d.asks))
      then counted
      else elim (fromtimestamp d.timestamp_exchange) [
        | none ↦ counted
        | some ts ↦ record counted {
          writer = add_book_snapshot (snapshot_of ts d backtest_id) c.writer;
        }
      ]

  -- The body of the loop of `process_batch`: an exception is logged, and the consumer is as the
  -- statements before it left it.
  unfoldable pub handle : (ℕ → Option ℕ) → Message → Consumer → Consumer
  unfolding handle_trade handle_depth
  handle fromtimestamp (raw_trade (some t) backtest_id) c =
      handle_trade fromtimestamp t backtest_id c
  handle fromtimestamp (raw_depth (some d) backtest_id) c =
      handle_depth fromtimestamp d backtest_id c
  handle fromtimestamp _ c = c

  unfoldable pub handle_all : (ℕ → Option ℕ) → List Message → Consumer → Consumer
  unfolding handle
  handle_all fromtimestamp [] c = c
  handle_all fromtimestamp (m ∷ ms) c = handle_all fromtimestamp ms (handle fromtimestamp m c)

  -- `process_batch` on what the poll returned: the number of messages, whether the offsets are
  -- committed, and the consumer.
  unfoldable pub process_batch : (ℕ → Option ℕ) → List Message → Consumer → ℕ × Bool × Consumer
  unfolding handle_all
  process_batch fromtimestamp ms c = (length ms, nonempty ms, handle_all fromtimestamp ms c)
