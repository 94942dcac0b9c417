-- ===== src/PostTrade/Service/Prices.antt =====
-- What the loop never does, and what it keeps.
use quant_system.Prelude.{
  ℕ, suc, ◌≡◌, refl, sym, subst, ◌∙◌, String, Bool, true, false, none, some, List, [], ◌∷◌, All,
  All-append, arith, Option-cases, Bool-cases, inl, inr,
}
use quant_system.Prelude.Eq.{string_eq}
use quant_system.Prelude.Dict.{lookup}
use quant_system.Prelude.Window.{All-append_max}
use quant_system.Num.{Num, Float, ◌≈◌, nought}
use quant_system.Core.Models.{Fill}
use quant_system.Core.Portfolio.{Store}
use quant_system.PostTrade.Tca.{TcaResult, analyze_fill}
use quant_system.PostTrade.AlphaDecay.{
  TrackedSignal, blank, record_signal as track_signal, init as decay_init,
}
use quant_system.PostTrade.State.{
  State, init as init_state, book_fill, record_fill, analyze, process_fill, record_signal,
}
use quant_system.PostTrade.Service.{
  Message, fills, signals, raw_trades, Service, record_of, sync, on_fill, on_signal, on_trade,
  consume, consume_loop, start,
}

module _ ⦃N : Num⦄ where
  -- An analysis of a fill against its own price.
  abbrev pub IsSelfPriced : TcaResult → Type 0
  IsSelfPriced t = (t.decision_price ≡ t.fill_price) × (t.arrival_price ≡ t.fill_price)

  -- A state that no market price has reached: no latest prices, fills analysed against their own
  -- prices, and no return at any horizon of a tracked signal.
  pub record IsUnmarked (st : State) : Type 0 where
    pub no_prices : st.latest_prices ≡ []
    pub self_priced : All IsSelfPriced st.tca_results
    pub no_returns :
        All
          (λ (g : TrackedSignal). g.horizon_returns ≡ blank st.alpha_decay.horizons_ms)
          st.alpha_decay.signals

  analyze_fill_prices :
      (i y s : String) (d a f c q : Float) (t : TcaResult)
      → analyze_fill i y s d a f c q ≡ some t
      → (t.decision_price ≡ d) × (t.arrival_price ≡ a) × (t.fill_price ≡ f)
  unfolding analyze_fill
  analyze_fill_prices i y s d a f c q t e = ground (arith, e)

  analyze-IsSelfPriced :
      (f : Fill) (st : State) (tca : TcaResult)
      → st.latest_prices ≡ []
      → analyze (record_of f) st ≡ some tca
      → IsSelfPriced tca
  unfolding analyze record_of lookup
  analyze-IsSelfPriced f st tca none_yet e =
      let zero : (nought ≈ nought) ≡ true = (N.eq_iff nought nought).1 refl in
      let (d, a, p) =
        analyze_fill_prices f.fill_id f.symbol f.side f.fill_price f.fill_price f.fill_price f.fee
          f.quantity tca (rw (none_yet, zero) at e) in
      (d ∙ sym p, a ∙ sym p)

  book_fill-IsUnmarked :
      (f : Fill) (st : State) → IsUnmarked st → IsUnmarked (book_fill (record_of f) st)
  unfolding book_fill
  book_fill-IsUnmarked f st u = record {
    no_prices = u.no_prices;
    self_priced = u.self_priced;
    no_returns = u.no_returns;
  }

  record_fill-IsUnmarked :
      (f : Fill) (tca : TcaResult) (st : State)
      → IsUnmarked st
      → IsSelfPriced tca
      → IsUnmarked (record_fill (record_of f) tca st)
  unfolding record_fill
  record_fill-IsUnmarked f tca st u p = record {
    no_prices = u.no_prices;
    self_priced = All-append IsSelfPriced st.tca_results tca u.self_priced p;
    no_returns = u.no_returns;
  }

  process_fill-IsUnmarked :
      (f : Fill) (st : State) → IsUnmarked st → IsUnmarked (process_fill (record_of f) st).0
  unfolding process_fill
  process_fill-IsUnmarked f st u =
      let booked = book_fill (record_of f) st in
      let booked_u : IsUnmarked booked = book_fill-IsUnmarked f st u in
      elim (Option-cases (analyze (record_of f) booked)) [
        | inl raised ↦ rw (raised, process_fill) booked_u
        | inr (tca, e) ↦
            rw (e, process_fill)
              (record_fill-IsUnmarked f tca booked booked_u
                (analyze-IsSelfPriced f booked tca booked_u.no_prices e))
      ]

  record_signal-IsUnmarked :
      (upper : String → String) (i : String) (t : ℕ) (k s b : String) (w m : Float) (st : State)
      → IsUnmarked st
      → IsUnmarked (record_signal upper i t k s b w m st)
  unfolding record_signal track_signal
  record_signal-IsUnmarked upper i t k s b w m st u = record {
    no_prices = u.no_prices;
    self_priced = u.self_priced;
    no_returns =
        All-append_max (λ (g : TrackedSignal). g.horizon_returns ≡ blank st.alpha_decay.horizons_ms)
          st.alpha_decay.max_signals _ st.alpha_decay.signals refl u.no_returns;
  }

  init-IsUnmarked : (equity : Float) → IsUnmarked (init_state equity)
  unfolding init_state decay_init
  init-IsUnmarked equity = record { no_prices = refl; self_priced = tt; no_returns = tt }

  -- No market price has reached the state, and no trade was counted.
  abbrev pub Unfed : Service → Type 0
  Unfed s = IsUnmarked s.state × (s.trade_count ≡ 0)

  module _ (str : Float → String) (round : Float → ℕ → Float) (upper : String → String) where
    sync-state :
        (s : Service)
        → ((sync str round upper s).state ≡ s.state)
          × ((sync str round upper s).trade_count ≡ s.trade_count)
    unfolding sync
    sync-state s = ground arith

    sync-Unfed : (s : Service) → Unfed s → Unfed (sync str round upper s)
    sync-Unfed s (u, n) = let (e, f) = sync-state s in (subst IsUnmarked (sym e) u, f ∙ n)

    on_fill-Unfed : (f : Fill) (s : Service) → Unfed s → Unfed (on_fill str round upper f s)
    unfolding on_fill
    on_fill-Unfed f s (u, n) =
        let (st, raised) = process_fill (record_of f) s.state in
        let v : IsUnmarked st = process_fill-IsUnmarked f s.state u in
        elim (Bool-cases raised) [
          | inl stop ↦ rw (stop, on_fill) (v, n)
          | inr go ↦
              rw (go, on_fill)
                (sync-Unfed (record s { state = st; fill_count = suc s.fill_count }) (v, n))
        ]

    consume-Unfed : (m : Message) (s : Service) → Unfed s → Unfed (consume str round upper m s)
    unfolding consume on_signal on_trade
    consume-Unfed (fills none) s u = u
    consume-Unfed (fills (some f)) s u = on_fill-Unfed f s u
    consume-Unfed (signals none) s u = u
    consume-Unfed (signals (some g)) s (u, n) = (
      record_signal-IsUnmarked upper g.signal_id g.timestamp g.strategy_id g.symbol g.side
          g.strength g.mid_price_at_signal s.state u,
      n,
    )
    consume-Unfed (raw_trades none) s u = u
    consume-Unfed (raw_trades (some t)) s u = u

    loop_stops :
        (m : Message) (ms : List Message) (s : Service)
        → s.running ≡ false
        → consume_loop str round upper (m ∷ ms) s ≡ s
    unfolding consume_loop
    loop_stops m ms s e = ground (arith, e)

    loop_goes :
        (m : Message) (ms : List Message) (s : Service)
        → s.running ≡ true
        → consume_loop str round upper (m ∷ ms) s
          ≡ consume_loop str round upper ms (consume str round upper m s)
    unfolding consume_loop
    loop_goes m ms s e = ground (arith, e)

    consume_loop-Unfed :
        (ms : List Message) (s : Service) → Unfed s → Unfed (consume_loop str round upper ms s)
    unfolding consume_loop
    consume_loop-Unfed [] s u = u
    consume_loop-Unfed (m ∷ ms) s u = elim (Bool-cases s.running) [
      | inl go ↦
          subst Unfed (sym (loop_goes m ms s go))
            (consume_loop-Unfed ms (consume str round upper m s) (consume-Unfed m s u))
      | inr stop ↦ subst Unfed (sym (loop_stops m ms s stop)) u
    ]

    -- Whatever fills, signals and trades the service reads, no market price reaches its state: there
    -- is no latest price of any symbol, each fill is analysed against its own price, no tracked
    -- signal has a return at any horizon, and no trade is ever counted.
    pub consume_loop-IsUnmarked :
        (equity : Float) (store : Store) (reachable : Bool) (ms : List Message)
        → let s = consume_loop str round upper ms (start equity store reachable) in
          IsUnmarked s.state × (s.trade_count ≡ 0)
    unfolding start
    consume_loop-IsUnmarked equity store reachable ms =
        consume_loop-Unfed ms (start equity store reachable) (init-IsUnmarked equity, refl)
