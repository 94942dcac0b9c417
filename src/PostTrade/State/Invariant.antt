-- ===== src/PostTrade/State/Invariant.antt =====
-- What the state's lists, counters and peak have to do with one another.
use quant_system.Prelude.{
  ℕ, suc, ◌≤◌, ◌+◌, ◌≡◌, inl, inr, refl, true, false, List, [], ◌∷◌, ◌++◌, arith, get_or, is_none,
  All, if◌then◌else◌, length, length-append, Bool-cases, Option-cases,
}
use quant_system.Prelude.Eq.{string_eq}
use quant_system.Prelude.Dict.{lookup}
use quant_system.Num.{Num, Float, ◌≺◌, ◌≈◌, nought}
use quant_system.Num.Order.{Le, le_trans, le_of_lt, le_refl, le_of_not_lt}
use quant_system.PostTrade.Tca.{TcaResult, analyze_fill-raises}
use quant_system.PostTrade.State.{
  State, FillRecord, EquitySnapshot, init, compute_equity, book_fill, record_fill, analyze,
  process_fill,
}

module _ ⦃N : Num⦄ where
  -- Every recorded fill has its analysis and its point of the curve, every one is counted, wins
  -- are among them, and no point of the curve lies above the peak.
  pub record IsValid (st : State) : Type 0 where
    pub analyzed : length st.tca_results ≡ length st.fills
    pub plotted : length st.equity_curve ≡ length st.fills
    pub counted : length st.fills ≤ st.total_fills
    pub won : st.winning_fills ≤ st.total_fills
    pub above_start : Le st.initial_equity st.peak_equity
    pub above_curve : All (λ (s : EquitySnapshot). Le s.equity st.peak_equity) st.equity_curve

  pub init-IsValid : (equity : Float) → IsValid (init equity)
  unfolding init
  init-IsValid equity = record {
    analyzed = refl;
    plotted = refl;
    counted = omega arith;
    won = omega arith;
    above_start = le_refl equity;
    above_curve = tt;
  }

  book_fill-IsValid : (fill : FillRecord) (st : State) → IsValid st → IsValid (book_fill fill st)
  unfolding book_fill
  book_fill-IsValid fill st v = record {
    analyzed = v.analyzed;
    plotted = v.plotted;
    counted = omega (arith, v.counted);
    won = ground (arith, v.won);
    above_start = v.above_start;
    above_curve = v.above_curve;
  }

  room_after_booking :
      (fill : FillRecord) (st : State)
      → IsValid st
      → suc (length (book_fill fill st).fills) ≤ (book_fill fill st).total_fills
  unfolding book_fill
  room_after_booking fill st v = omega (arith, v.counted)

  Below_append :
      (ss : List EquitySnapshot) (s : EquitySnapshot) (peak peak' : Float)
      → All (λ (r : EquitySnapshot). Le r.equity peak) ss
      → Le peak peak'
      → Le s.equity peak'
      → All (λ (r : EquitySnapshot). Le r.equity peak') (ss ++ s ∷ [])
  Below_append [] s peak peak' h k l = (l, tt)
  Below_append (r ∷ ss) s peak peak' h k l =
      (le_trans r.equity peak peak' h.0 k, Below_append ss s peak peak' h.1 k l)

  peak_grows : (peak equity : Float) → Le peak (if peak ≺ equity then equity else peak)
  peak_grows peak equity = ground (arith, le_refl peak, le_of_lt peak equity)

  peak_reaches : (peak equity : Float) → Le equity (if peak ≺ equity then equity else peak)
  peak_reaches peak equity = ground (arith, le_refl equity, le_of_not_lt equity peak)

  record_fill-IsValid :
      (fill : FillRecord) (tca : TcaResult) (st : State)
      → IsValid st
      → suc (length st.fills) ≤ st.total_fills
      → IsValid (record_fill fill tca st)
  unfolding record_fill
  record_fill-IsValid fill tca st v room =
      let equity = compute_equity st in
      record {
        analyzed = omega (
          arith,
          v.analyzed,
          length-append {0} st.tca_results (tca ∷ []),
          length-append {0} st.fills (fill ∷ []),
        );
        plotted = omega (
          arith,
          v.plotted,
          length-append {0} st.equity_curve (_ ∷ []),
          length-append {0} st.fills (fill ∷ []),
        );
        counted = omega (arith, room, length-append {0} st.fills (fill ∷ []));
        won = v.won;
        above_start =
            le_trans st.initial_equity st.peak_equity _ v.above_start
              (peak_grows st.peak_equity equity);
        above_curve =
            Below_append st.equity_curve _ st.peak_equity _ v.above_curve
              (peak_grows st.peak_equity equity) (peak_reaches st.peak_equity equity);
      }

  -- `process_fill` keeps the bookkeeping consistent, also when it raises half way.
  pub process_fill-IsValid :
      (fill : FillRecord) (st : State) → IsValid st → IsValid (process_fill fill st).0
  unfolding process_fill
  process_fill-IsValid fill st v =
      let booked = book_fill fill st in
      let booked_v : IsValid booked = book_fill-IsValid fill st v in
      elim (Option-cases (analyze fill booked)) [
        | inl raised ↦ rw (raised, process_fill) booked_v
        | inr (tca, e) ↦
            rw (e, process_fill)
              (record_fill-IsValid fill tca booked booked_v (room_after_booking fill st v))
      ]

  -- The price that `process_fill` takes for the market: the latest one, or the fill's own.
  abbrev pub arrival_price : FillRecord → State → Float
  arrival_price fill st = get_or (lookup fill.symbol st.latest_prices) fill.fill_price

  analyze-raises :
      (fill : FillRecord) (st : State)
      → is_none (analyze fill (book_fill fill st)) ≡ (arrival_price fill st ≈ nought)
  unfolding analyze book_fill
  analyze-raises fill st =
      let arrival = arrival_price fill st in
      elim (Bool-cases (fill.decision_price ≈ nought)) [
        | inl z ↦ rw (analyze_fill-raises, z) (ground arith)
        | inr nz ↦ rw (analyze_fill-raises, nz) (ground arith)
      ]

  -- `process_fill` raises exactly when the latest price of the fill's symbol (the fill's own price
  -- if there is none) is zero. Every call counts the fill, but one that raises adds no fill, no
  -- analysis and no point of the equity curve to the lists, where any other adds one to each.
  pub process_fill_raises :
      (fill : FillRecord) (st : State)
      → let (st', raised) = process_fill fill st in
        let added : ℕ = if raised then 0 else 1 in
        (raised ≡ (arrival_price fill st ≈ nought))
        × (st'.total_fills ≡ suc st.total_fills)
        × (length st'.fills ≡ length st.fills + added)
        × (length st'.tca_results ≡ length st.tca_results + added)
        × (length st'.equity_curve ≡ length st.equity_curve + added)
  unfolding process_fill book_fill record_fill
  process_fill_raises fill st = elim (Option-cases (analyze fill (book_fill fill st))) [
    | inl raised ↦
        let zero_price : (arrival_price fill st ≈ nought) ≡ true =
          cc (analyze-raises fill st, raised) in
        rw (raised, process_fill, zero_price) (refl, refl, omega arith, omega arith, omega arith)
    | inr (tca, e) ↦
        let some_price : (arrival_price fill st ≈ nought) ≡ false =
          cc (analyze-raises fill st, e) in
        rw (e, process_fill, some_price)
          (
            refl,
            refl,
            omega (arith, length-append {0} st.fills (fill ∷ [])),
            omega (arith, length-append {0} st.tca_results (tca ∷ [])),
            omega (arith, length-append {0} st.equity_curve (_ ∷ [])),
          )
  ]
