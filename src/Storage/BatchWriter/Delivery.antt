-- ===== src/Storage/BatchWriter/Delivery.antt =====
-- Every row added reaches the database once and in order, as long as no flush raises; a flush that
-- raises loses what was buffered.
use mathlib.Core.List.{append-nil, append_assoc}
use quant_system.Prelude.{
  ◌≡◌, ◌⊎◌, inl, inr, refl, sym, ap, ◌∙◌, Bool, true, false, List, [], ◌∷◌, ◌++◌, arith, Bool-cases,
  nonempty, not, ◌&&◌,
}
use mathlib.Core.Path.{ap₂}
use quant_system.Num.{Num, Float}
use quant_system.Storage.BatchWriter.{
  PendingTrade, PendingBookSnapshot, Writer, Database, Faults, add_trade, add_book_snapshot,
  write_books, write_all, flush,
}

none_of : {A : Type 0} (xs : List A) → nonempty xs ≡ false → xs ≡ []
none_of [] h = refl
none_of (x ∷ xs) h = cc

regroup :
    {A : Type 0} (xs ys : List A) (a : A) (zs : List A)
    → (xs ++ (ys ++ a ∷ [])) ++ zs ≡ (xs ++ ys) ++ a ∷ zs
regroup xs ys a zs = simp append_assoc

emptied : {A : Type 0} {xs ys zs : List A} → xs ≡ zs → ys ≡ [] → xs ++ ys ≡ zs
emptied {zs = zs} e e' = ap₂ (λ a b. a ++ b) e e' ∙ append-nil zs

module _ ⦃N : Num⦄ where
  -- The calls on the writer.
  pub data Call : Type 0 where
    trade : PendingTrade → Call
    book : PendingBookSnapshot → Call
    flushes : Float → Call

  abbrev pub no_faults : Faults
  no_faults = record { connection = false; copy_trades = false; copy_books = false }

  pub step : Call → Writer × Database → Writer × Database
  step (trade t) (w, db) = (add_trade t w, db)
  step (book b) (w, db) = (add_book_snapshot b w, db)
  step (flushes now) (w, db) = let (w', db', _) = flush now no_faults w db in (w', db')

  pub run : List Call → Writer × Database → Writer × Database
  run [] s = s
  run (c ∷ cs) s = run cs (step c s)

  abbrev pub trades_of : List Call → List PendingTrade
  trades_of [] = []
  trades_of (trade t ∷ cs) = t ∷ trades_of cs
  trades_of (book b ∷ cs) = trades_of cs
  trades_of (flushes now ∷ cs) = trades_of cs

  -- All rows of a table, written or waiting, oldest first.
  abbrev pub all_trades : Writer × Database → List PendingTrade
  all_trades (w, db) = db.trades ++ w.trade_buffer

  abbrev pub all_books : Writer × Database → List PendingBookSnapshot
  all_books (w, db) = db.books ++ w.book_buffer

  abbrev pub books_of : List Call → List PendingBookSnapshot
  books_of [] = []
  books_of (trade t ∷ cs) = books_of cs
  books_of (book b ∷ cs) = b ∷ books_of cs
  books_of (flushes now ∷ cs) = books_of cs

  -- What a flush without faults does to buffers and tables.
  abbrev Flushed : Writer × Database → Writer × Database × Bool → Type 0
  Flushed s (w', db', raised) =
      (raised ≡ false)
      × (db'.trades ≡ all_trades s)
      × (db'.books ≡ all_books s)
      × (w'.trade_buffer ≡ [])
      × (w'.book_buffer ≡ [])

  write_books_lem :
      (bs : List PendingBookSnapshot) (w : Writer) (db : Database)
      → let (w', db', raised) = write_books no_faults bs (w, db) in
        (raised ≡ false)
        × (db'.trades ≡ db.trades)
        × (db'.books ≡ db.books ++ bs)
        × (w'.trade_buffer ≡ w.trade_buffer)
        × (w'.book_buffer ≡ w.book_buffer)
  unfolding write_books
  write_books_lem [] w db = (refl, refl, sym (append-nil db.books), refl, refl)
  write_books_lem (b ∷ bs) w db = (refl, refl, refl, refl, refl)

  write_all_lem :
      (ts : List PendingTrade) (bs : List PendingBookSnapshot) (w : Writer) (db : Database)
      → let (w', db', raised) = write_all no_faults ts bs (w, db) in
        (raised ≡ false)
        × (db'.trades ≡ db.trades ++ ts)
        × (db'.books ≡ db.books ++ bs)
        × (w'.trade_buffer ≡ w.trade_buffer)
        × (w'.book_buffer ≡ w.book_buffer)
  unfolding write_all
  write_all_lem [] bs w db = rw (append-nil db.trades) (write_books_lem bs w db)
  write_all_lem (t ∷ ts) bs w db = write_books_lem bs _ _

  flush-Flushed :
      (now : Float) (w : Writer) (db : Database) → Flushed (w, db) (flush now no_faults w db)
  unfolding flush
  flush-Flushed now w db =
      let idle = not (nonempty w.trade_buffer) && not (nonempty w.book_buffer) in
      elim (Bool-cases idle) [
        | inl e ↦
            let no_trades : nonempty w.trade_buffer ≡ false = ground arith in
            let no_books : nonempty w.book_buffer ≡ false = ground arith in
            rw e (
              refl,
              sym (
                  ap (λ ts. db.trades ++ ts) (none_of w.trade_buffer no_trades)
                  ∙ append-nil db.trades),
              sym (
                  ap (λ bs. db.books ++ bs) (none_of w.book_buffer no_books) ∙ append-nil db.books),
              refl,
              refl,
            )
        | inr e ↦ rw e (write_all_lem w.trade_buffer w.book_buffer _ db)
      ]

  -- Over any sequence of calls in which the database works: what is in the tables followed by
  -- what is buffered is what was there before, followed by the rows added, in their order. So each
  -- row is written once or still waits, and none is lost, repeated or moved past another.
  pub run_delivers :
      (cs : List Call) (s : Writer × Database)
      → (all_trades (run cs s) ≡ all_trades s ++ trades_of cs)
        × (all_books (run cs s) ≡ all_books s ++ books_of cs)
  unfolding run step add_trade add_book_snapshot
  run_delivers [] s = (sym (append-nil (all_trades s)), sym (append-nil (all_books s)))
  run_delivers (trade t ∷ cs) (w, db) =
      let (ts, bs) = run_delivers cs (step (trade t) (w, db)) in
      (ts ∙ regroup db.trades w.trade_buffer t (trades_of cs), bs)
  run_delivers (book b ∷ cs) (w, db) =
      let (ts, bs) = run_delivers cs (step (book b) (w, db)) in
      (ts, bs ∙ regroup db.books w.book_buffer b (books_of cs))
  run_delivers (flushes now ∷ cs) (w, db) =
      let (ts, bs) = run_delivers cs (step (flushes now) (w, db)) in
      let (_, written, stored, no_trades, no_books) = flush-Flushed now w db in
      (
        ts ∙ ap (λ x. x ++ trades_of cs) (emptied written no_trades),
        bs ∙ ap (λ x. x ++ books_of cs) (emptied stored no_books),
      )

  write_all_raises :
      (f : Faults) (ts : List PendingTrade) (bs : List PendingBookSnapshot) (w : Writer)
      (db : Database)
      → w.trade_buffer ≡ []
      → w.book_buffer ≡ []
      → let (w', db', raised) = write_all f ts bs (w, db) in
        raised ≡ true
        → (w'.trade_buffer ≡ [])
          × (w'.book_buffer ≡ [])
          × (db'.books ≡ db.books)
          × ((db'.trades ≡ db.trades) ⊎ ((db'.trades ≡ db.trades ++ ts) × (f.copy_books ≡ true)))
  unfolding write_all
  write_all_raises f [] [] w db p q h = cc
  write_all_raises f [] (b ∷ bs) w db p q h = ground arith
  write_all_raises f (t ∷ ts) [] w db p q h = ground arith
  write_all_raises f (t ∷ ts) (b ∷ bs) w db p q h = ground arith

  -- A flush that raises has emptied the buffers and has written no snapshot, and the trades only
  -- if the failure came after them: the rows that were waiting are gone.
  pub raised_flush_loses :
      (now : Float) (f : Faults) (w : Writer) (db : Database)
      → (flush now f w db).2 ≡ true
      → let (w', db', _) = flush now f w db in
        (w'.trade_buffer ≡ [])
        × (w'.book_buffer ≡ [])
        × (db'.books ≡ db.books)
        × ((db'.trades ≡ db.trades) ⊎ ((db'.trades ≡ all_trades (w, db)) × (f.copy_books ≡ true)))
  unfolding flush
  raised_flush_loses now f w db h =
      let idle = not (nonempty w.trade_buffer) && not (nonempty w.book_buffer) in
      elim (Bool-cases idle) [
        | inl e ↦ absurd (ground arith)
        | inr e ↦ elim (Bool-cases f.connection) [
          | inl c ↦ rw (e, c) (refl, refl, refl, inl refl)
          | inr c ↦
              rw (e, c)
                (write_all_raises f w.trade_buffer w.book_buffer _ db refl refl (rw (e, c) at h))
        ]
      ]
