-- ===== src/Storage/Consumer/Shape.antt =====
-- The shape of the snapshots that the consumer hands to the writer.
use quant_system.Prelude.{
  ℕ, zero, suc, ◌≤◌, ◌≡◌, ◌∙◌, sym, true, Option, none, some, String, List, [], ◌∷◌, map, length,
  nonempty, arith, All, All-append, Bool-cases, Option-cases, inl, inr,
}
use quant_system.Prelude.Window.{length-map}
use quant_system.Num.{Num, Float}
use quant_system.Core.Models.{DepthUpdate}
use quant_system.Storage.BatchWriter.{PendingBookSnapshot, add_trade}
use quant_system.Storage.Consumer.{
  Message, raw_trade, raw_depth, other_topic, Consumer, take, snapshot_depth, snapshot_of,
  handle_trade, handle_depth, handle, handle_all, process_batch,
}
use quant_system.Storage.Consumer.Sampling.{due, time_of, buffer_after}

module _ ⦃N : Num⦄ where
  -- Each side of a snapshot has from one to twenty levels, with a price and a size for each.
  abbrev pub IsSide : List Float → List Float → Type 0
  IsSide prices sizes =
      (length prices ≡ length sizes) × (1 ≤ length prices) × (length prices ≤ snapshot_depth)

  abbrev pub IsSnapshot : PendingBookSnapshot → Type 0
  IsSnapshot b = IsSide b.bid_prices b.bid_sizes × IsSide b.ask_prices b.ask_sizes

  length-take : (n : ℕ) (ls : List (Float × Float)) → length (take n ls) ≤ n
  length-take zero ls = omega arith
  length-take (suc n) [] = omega arith
  length-take (suc n) (l ∷ ls) = omega (arith, length-take n ls)

  taken-IsSide :
      (ls : List (Float × Float))
      → nonempty ls ≡ true
      → let top = take snapshot_depth ls in IsSide (map (λ l. l.0) top) (map (λ l. l.1) top)
  taken-IsSide [] h = absurd (ground (arith, h))
  taken-IsSide (l ∷ ls) h =
      let top = take snapshot_depth (l ∷ ls) in
      let p = length-map (λ (l : Float × Float). l.0) top in
      let q = length-map (λ (l : Float × Float). l.1) top in
      (p ∙ sym q, omega arith, omega (arith, p, length-take snapshot_depth (l ∷ ls)))

module _ ⦃N : Num⦄ (fromtimestamp : ℕ → Option ℕ) where
  handle_depth-IsSnapshot :
      (d : DepthUpdate) (b : Option String) (c : Consumer)
      → All IsSnapshot c.writer.book_buffer
      → All IsSnapshot (handle_depth fromtimestamp d b c).writer.book_buffer
  handle_depth-IsSnapshot d b c ps =
      rw (buffer_after fromtimestamp d b c) (elim (Bool-cases (due fromtimestamp d c)) [
        | inl yes_due ↦ rw (yes_due) (
            All-append IsSnapshot c.writer.book_buffer (snapshot_of (time_of fromtimestamp d) d b)
              ps
              (
                taken-IsSide d.bids (ground (arith, yes_due)),
                taken-IsSide d.asks (ground (arith, yes_due)),
              ))
        | inr not_due ↦ rw (not_due) ps
      ])

  handle-IsSnapshot :
      (m : Message) (c : Consumer)
      → All IsSnapshot c.writer.book_buffer
      → All IsSnapshot (handle fromtimestamp m c).writer.book_buffer
  unfolding handle handle_trade add_trade
  handle-IsSnapshot (raw_trade none b) c ps = ps
  handle-IsSnapshot (raw_trade (some t) b) c ps =
      elim (Option-cases (fromtimestamp t.timestamp_exchange)) [
        | inl e ↦ rw (e, handle_trade) ps
        | inr (ts, e) ↦ rw (e, handle_trade) ps
      ]
  handle-IsSnapshot (raw_depth none b) c ps = ps
  handle-IsSnapshot (raw_depth (some d) b) c ps = handle_depth-IsSnapshot d b c ps
  handle-IsSnapshot other_topic c ps = ps

  handle_all-IsSnapshot :
      (ms : List Message) (c : Consumer)
      → All IsSnapshot c.writer.book_buffer
      → All IsSnapshot (handle_all fromtimestamp ms c).writer.book_buffer
  unfolding handle_all
  handle_all-IsSnapshot [] c ps = ps
  handle_all-IsSnapshot (m ∷ ms) c ps =
      handle_all-IsSnapshot ms (handle fromtimestamp m c) (handle-IsSnapshot m c ps)

  -- A batch keeps every snapshot of the buffer well-formed: on each side one to twenty levels,
  -- with as many sizes as prices.
  process_batch-IsSnapshot :
      (ms : List Message) (c : Consumer)
      → All IsSnapshot c.writer.book_buffer
      → All IsSnapshot (process_batch fromtimestamp ms c).2.writer.book_buffer
  unfolding process_batch
  process_batch-IsSnapshot ms c ps = handle_all-IsSnapshot ms c ps
