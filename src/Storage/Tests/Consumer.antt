-- ===== src/Storage/Tests/Consumer.antt =====
-- The storage consumer's theorems at a concrete batch, over whole numbers.
use quant_system.Prelude.{
  ℕ, ◌+◌, ◌/◌, ◌≡◌, Option, ltb, if◌then◌else◌, refl, none, some, List, [], ◌∷◌,
}
use quant_system.Prelude.Int.{pos}
use quant_system.Num.Fixed.{integers}
use quant_system.Core.Models.{DepthUpdate}
use quant_system.Storage.BatchWriter.{init}
use quant_system.Storage.Consumer.{Message, raw_depth, raw_trade, Consumer, process_batch}
use quant_system.Storage.Consumer.Sampling.{seen, snapshots_of, updates_of, batch_samples_tenth}

abbrev a_depth : DepthUpdate
a_depth = record {
  exchange = "binance";
  symbol = "BTC";
  first_update_id = 1;
  final_update_id = 2;
  bids = (pos 99, pos 1) ∷ [];
  asks = (pos 101, pos 4) ∷ [];
  timestamp_exchange = 1;
  timestamp_ingested = 2;
}

abbrev nine_seen : Consumer
nine_seen = record { writer = init 100 (pos 1) (pos 0); book_update_counter = ("BTC", 9) ∷ [] }

abbrev batch : List Message
batch = raw_depth (some a_depth) none ∷ raw_trade none none ∷ raw_depth (some a_depth) none ∷ []

-- The datetimes up to the year 9999.
abbrev datetime : ℕ → Option ℕ
datetime ms = if ltb ms 253_402_300_800_000 then some ms else none

batch_samples_tenth_example :
    let c' = (process_batch datetime batch nine_seen).2 in
    (seen "BTC" c' ≡ seen "BTC" nine_seen + updates_of "BTC" batch)
    × (snapshots_of "BTC" c' + seen "BTC" nine_seen / 10
        ≡ snapshots_of "BTC" nine_seen + (seen "BTC" nine_seen + updates_of "BTC" batch) / 10)
batch_samples_tenth_example = batch_samples_tenth datetime "BTC" batch nine_seen refl
