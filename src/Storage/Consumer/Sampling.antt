-- ===== src/Storage/Consumer/Sampling.antt =====
-- Which depth updates become snapshots, and what a snapshot looks like.
use quant_system.Prelude.{
  ℕ, suc, ◌+◌, ◌/◌, ◌%◌, ◌≡◌, refl, ap, inl, inr, String, Bool, true, false, not, ◌&&◌, ◌||◌,
  Option, none, some, List, [], ◌∷◌, ◌++◌, length, nonempty, get_or, keep, eqb, arith, Bool-cases,
  Option-cases, if◌then◌else◌,
}
use quant_system.Prelude.Eq.{◌==◌, string_eq}
use quant_system.Prelude.Dict.{lookup, insert, lookup-insert}
use quant_system.Num.{Num, Float}
use quant_system.Core.Models.{DepthUpdate}
use quant_system.Storage.BatchWriter.{PendingBookSnapshot, add_trade, add_book_snapshot}
use quant_system.Storage.Consumer.{
  Message, raw_trade, raw_depth, other_topic, Consumer, take, snapshot_depth, snapshot_of,
  handle_trade, handle_depth, handle, handle_all, process_batch,
}

module _ ⦃N : Num⦄ where
  -- The snapshots of a symbol in the buffer, and the updates of it among some messages.
  abbrev pub snapshots_of : String → Consumer → ℕ
  snapshots_of s c = length (keep (λ (b : PendingBookSnapshot). b.symbol == s) c.writer.book_buffer)

  abbrev pub seen : String → Consumer → ℕ
  seen s c = get_or (lookup s c.book_update_counter) 0

  abbrev pub updates_of : String → List Message → ℕ
  updates_of s [] = 0
  updates_of s (raw_depth (some d) _ ∷ ms) =
      let rest = updates_of s ms in if d.symbol == s then suc rest else rest
  updates_of s (_ ∷ ms) = updates_of s ms

  nonempty-take : (ls : List (Float × Float)) → nonempty (take snapshot_depth ls) ≡ nonempty ls
  nonempty-take [] = refl
  nonempty-take (l ∷ ls) = refl

module _ ⦃N : Num⦄ (fromtimestamp : ℕ → Option ℕ) where
  -- The time of an update is that of a datetime.
  abbrev pub is_dated : DepthUpdate → Bool
  is_dated d = elim (fromtimestamp d.timestamp_exchange) [ none ↦ false | some _ ↦ true ]

  -- Each update of a symbol has levels on both sides and the time of a datetime.
  abbrev pub storable : String → List Message → Bool
  storable s [] = true
  storable s (raw_depth (some d) _ ∷ ms) =
      (not (d.symbol == s) || nonempty d.bids && nonempty d.asks && is_dated d) && storable s ms
  storable s (_ ∷ ms) = storable s ms

  -- An update that becomes a snapshot.
  abbrev pub due : DepthUpdate → Consumer → Bool
  due d c = eqb (suc (seen d.symbol c) % 10) 0 && nonempty d.bids && nonempty d.asks && is_dated d

  abbrev pub time_of : DepthUpdate → ℕ
  time_of d = get_or (fromtimestamp d.timestamp_exchange) 0

  pub buffer_after :
      (d : DepthUpdate) (b : Option String) (c : Consumer)
      → (handle_depth fromtimestamp d b c).writer.book_buffer ≡ (
          if due d c
          then c.writer.book_buffer ++ snapshot_of (time_of d) d b ∷ []
          else c.writer.book_buffer)
  unfolding handle_depth add_book_snapshot
  buffer_after d b c = elim (Option-cases (fromtimestamp d.timestamp_exchange)) [
    | inl e ↦ ground (arith, nonempty-take d.bids, nonempty-take d.asks, e)
    | inr (t, e) ↦ ground (arith, nonempty-take d.bids, nonempty-take d.asks, e)
  ]

  counter_after :
      (d : DepthUpdate) (b : Option String) (c : Consumer)
      → (handle_depth fromtimestamp d b c).book_update_counter
        ≡ insert d.symbol (suc (seen d.symbol c)) c.book_update_counter
  unfolding handle_depth
  counter_after d b c = ground arith

  counted :
      (s : String) (d : DepthUpdate) (b : Option String) (c : Consumer)
      → seen s (handle_depth fromtimestamp d b c)
        ≡ (if d.symbol == s then suc (seen d.symbol c) else seen s c)
  counted s d b c =
      rw
        (
          counter_after d b c,
          lookup-insert d.symbol s (suc (seen d.symbol c)) c.book_update_counter,
        )
        (ground arith)

  kept_one :
      (s : String) (t : ℕ) (d : DepthUpdate) (b : Option String) (bs : List PendingBookSnapshot)
      → length (keep (λ (r : PendingBookSnapshot). r.symbol == s) (bs ++ snapshot_of t d b ∷ []))
        ≡ length (keep (λ (r : PendingBookSnapshot). r.symbol == s) bs)
          + (if d.symbol == s then 1 else 0)
  kept_one s t d b [] = ground arith
  kept_one s t d b (r ∷ bs) = ground (arith, kept_one s t d b bs)

  tenth : (n : ℕ) → suc n / 10 ≡ n / 10 + (if eqb (suc n % 10) 0 then 1 else 0)
  tenth n = ground arith

  sampled :
      (s : String) (d : DepthUpdate) (b : Option String) (c : Consumer)
      → storable s (raw_depth (some d) b ∷ []) ≡ true
      → snapshots_of s (handle_depth fromtimestamp d b c) + seen s c / 10
        ≡ snapshots_of s c + seen s (handle_depth fromtimestamp d b c) / 10
  sampled s d b c h = elim (Bool-cases (d.symbol == s)) [
    | inl same ↦
        let eq = (string_eq.equals_iff d.symbol s).0 same in
        let n : seen d.symbol c ≡ seen s c = ap (λ k. seen k c) eq in
        ground (
          arith,
          counted s d b c,
          buffer_after d b c,
          kept_one s (time_of d) d b c.writer.book_buffer,
          tenth (seen s c),
          same,
          n,
          h,
        )
    | inr other ↦ ground (
      arith,
      counted s d b c,
      buffer_after d b c,
      kept_one s (time_of d) d b c.writer.book_buffer,
      other,
    )
  ]

  advanced :
      (s : String) (d : DepthUpdate) (b : Option String) (c : Consumer)
      → seen s (handle_depth fromtimestamp d b c) ≡ seen s c + (if d.symbol == s then 1 else 0)
  advanced s d b c = elim (Bool-cases (d.symbol == s)) [
    | inl same ↦
        let n : seen d.symbol c ≡ seen s c =
          ap (λ k. seen k c) ((string_eq.equals_iff d.symbol s).0 same) in
        ground (arith, counted s d b c, same, n)
    | inr other ↦ ground (arith, counted s d b c, other)
  ]

  -- One message, and a list of them.
  handle_sampled :
      (s : String) (m : Message) (c : Consumer)
      → storable s (m ∷ []) ≡ true
      → (seen s (handle fromtimestamp m c) ≡ seen s c + updates_of s (m ∷ []))
        × (snapshots_of s (handle fromtimestamp m c) + seen s c / 10
            ≡ snapshots_of s c + seen s (handle fromtimestamp m c) / 10)
  unfolding handle handle_trade add_trade
  handle_sampled s (raw_trade none b) c h = (omega arith, refl)
  handle_sampled s (raw_trade (some t) b) c h =
      elim (Option-cases (fromtimestamp t.timestamp_exchange)) [
        | inl e ↦ rw (e, handle_trade) (omega arith, refl)
        | inr (ts, e) ↦ rw (e, handle_trade) (omega arith, refl)
      ]
  handle_sampled s (raw_depth none b) c h = (omega arith, refl)
  handle_sampled s (raw_depth (some d) b) c h = (advanced s d b c, sampled s d b c h)
  handle_sampled s other_topic c h = (omega arith, refl)

  storable_head :
      (s : String) (m : Message) (ms : List Message)
      → storable s (m ∷ ms) ≡ storable s (m ∷ []) && storable s ms
  storable_head s m ms = ground arith

  updates_head :
      (s : String) (m : Message) (ms : List Message)
      → updates_of s (m ∷ ms) ≡ updates_of s (m ∷ []) + updates_of s ms
  updates_head s m ms = ground arith

  handle_all_sampled :
      (s : String) (ms : List Message) (c : Consumer)
      → storable s ms ≡ true
      → (seen s (handle_all fromtimestamp ms c) ≡ seen s c + updates_of s ms)
        × (snapshots_of s (handle_all fromtimestamp ms c) + seen s c / 10
            ≡ snapshots_of s c + seen s (handle_all fromtimestamp ms c) / 10)
  unfolding handle_all
  handle_all_sampled s [] c h = (omega arith, refl)
  handle_all_sampled s (m ∷ ms) c h =
      let (n, k) = handle_sampled s m c (ground (arith, h, storable_head s m ms)) in
      let (n', k') =
        handle_all_sampled s ms (handle fromtimestamp m c)
          (ground (arith, h, storable_head s m ms)) in
      (omega (arith, n, n', updates_head s m ms), omega (arith, k, k'))

  -- A batch advances a symbol's counter by its depth updates and adds a snapshot of it at each
  -- tenth of them: whatever the counter was, the snapshots grow by the tens it passes. Each update
  -- of the symbol in the batch has levels on both sides and a time that `fromtimestamp` takes.
  pub batch_samples_tenth :
      (s : String) (ms : List Message) (c : Consumer)
      → storable s ms ≡ true
      → let c' = (process_batch fromtimestamp ms c).2 in
        (seen s c' ≡ seen s c + updates_of s ms)
        × (snapshots_of s c' + seen s c / 10 ≡ snapshots_of s c + (seen s c + updates_of s ms) / 10)
  unfolding process_batch
  batch_samples_tenth s ms c h = let (n, k) = handle_all_sampled s ms c h in (n, rw (← n) k)
