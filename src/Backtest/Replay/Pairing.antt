-- ===== src/Backtest/Replay/Pairing.antt =====
-- The signals and the fills of a replay.
use quant_system.Prelude.{
  ◌≡◌, refl, sym, String, Option, none, some, List, [], ◌∷◌, ◌++◌, Bool-cases, Option-cases, inl,
  inr,
}
use quant_system.Prelude.Eq.{string_eq}
use quant_system.Num.{Num, Float, ◌≺◌, ◌≼◌, nought}
use quant_system.Core.Models.{Signal, Fill}
use quant_system.Alpha.Strategy.{Style, Strategy, Outcome, quiet, raised, emitted}
use quant_system.Execution.FillSimulator.{simulate_fill}
use quant_system.Backtest.Replay.{
  Tick, signal_to_order, slipped, Run, fill_signal, proceed, answer, run_tick, run_ticks,
}

module _ ⦃N : Num⦄ where
  -- A fill of what a signal asks for, at the signal's time.
  abbrev pub IsFillOf : Signal → Fill → Type 0
  IsFillOf s f =
      (f.symbol ≡ s.symbol)
      × (f.side ≡ s.side)
      × (f.quantity ≡ s.target_quantity)
      × (f.timestamp ≡ s.timestamp)
      × (f.strategy_id ≡ s.strategy_id)

  -- Two lists go together, one by one.
  abbrev pub Paired : List Signal → List Fill → Type 0
  Paired [] [] = Unit
  Paired [] (f ∷ fs) = ⊥
  Paired (s ∷ ss) [] = ⊥
  Paired (s ∷ ss) (f ∷ fs) = IsFillOf s f × Paired ss fs

  pub Paired-append :
      (ss : List Signal) (fs : List Fill) (s : Signal) (f : Fill)
      → Paired ss fs
      → IsFillOf s f
      → Paired (ss ++ s ∷ []) (fs ++ f ∷ [])
  Paired-append [] [] s f p q = (q, tt)
  Paired-append [] (g ∷ fs) s f p q = absurd p
  Paired-append (r ∷ ss) [] s f p q = absurd p
  Paired-append (r ∷ ss) (g ∷ fs) s f (h, p) q = (h, Paired-append ss fs s f p q)

  slipped-keeps :
      (bps : Float) (side : String) (f : Fill) (s : Signal)
      → IsFillOf s f
      → IsFillOf s (slipped bps side f)
  unfolding slipped
  slipped-keeps bps side f s p = elim (Bool-cases (nought ≺ bps)) [
    | inl more ↦ rw (more) p
    | inr no_more ↦ rw (no_more) p
  ]

  fill_signal-Paired :
      (bps : Float) (t : Tick) (s : Signal) (r : Run)
      → Paired r.signals r.fills
      → let r' = fill_signal bps t s r in Paired r'.signals r'.fills
  unfolding fill_signal simulate_fill signal_to_order
  fill_signal-Paired bps t s r p =
      Paired-append r.signals r.fills (record s { timestamp = t.trade.timestamp_exchange }) _ p
        (slipped-keeps bps s.side _ (record s { timestamp = t.trade.timestamp_exchange })
          (refl, refl, refl, refl, refl))

  -- The strategy raises on a trade of the replay.
  pub data Fails (style : Style) (symbol : String) (bps : Float) : List Tick → Run → Type 0 where
    here :
        {t : Tick} {ts : List Tick} {r : Run}
        → (answer style symbol t r).0 ≡ raised
        → Fails style symbol bps (t ∷ ts) r
    later :
        {t : Tick} {ts : List Tick} {r r' : Run}
        → run_tick style symbol bps t r ≡ some r'
        → Fails style symbol bps ts r'
        → Fails style symbol bps (t ∷ ts) r

  -- What a replay comes to: an exception of the strategy, or signals that are paired with fills.
  abbrev pub Outcomes : Style → String → Float → List Tick → Run → Option Run → Type 0
  Outcomes style symbol bps ts r none = Fails style symbol bps ts r
  Outcomes style symbol bps ts r (some r') = Paired r'.signals r'.fills

  -- One tick: an exception of the strategy, or signals that are still paired with fills.
  abbrev pub Stepped : Style → String → Tick → Run → Option Run → Type 0
  Stepped style symbol t r none = (answer style symbol t r).0 ≡ raised
  Stepped style symbol t r (some r') = Paired r'.signals r'.fills

  proceed-Stepped :
      (style : Style) (symbol : String) (bps : Float) (t : Tick) (r : Run) (a : Outcome × Strategy)
      → a.0 ≡ (answer style symbol t r).0
      → Paired r.signals r.fills
      → Stepped style symbol t r (proceed bps t a r)
  unfolding proceed
  proceed-Stepped style symbol bps t r (raised, s) e p = sym e
  proceed-Stepped style symbol bps t r (quiet, s) e p = p
  proceed-Stepped style symbol bps t r (emitted sig, s) e p =
      fill_signal-Paired bps t sig (record r { strategy = s }) p

  run_tick-Stepped :
      (style : Style) (symbol : String) (bps : Float) (t : Tick) (r : Run)
      → Paired r.signals r.fills
      → Stepped style symbol t r (run_tick style symbol bps t r)
  unfolding run_tick
  run_tick-Stepped style symbol bps t r p = elim (Bool-cases (t.trade.price ≼ nought)) [
    | inl skipped ↦ rw (skipped) p
    | inr priced ↦
        rw (priced) (proceed-Stepped style symbol bps t r (answer style symbol t r) refl p)
  ]

  relayed :
      (style : Style) (symbol : String) (bps : Float) (t : Tick) (ts : List Tick) (r r' : Run)
      (o : Option Run)
      → run_tick style symbol bps t r ≡ some r'
      → Outcomes style symbol bps ts r' o
      → Outcomes style symbol bps (t ∷ ts) r o
  relayed style symbol bps t ts r r' none e f = later e f
  relayed style symbol bps t ts r r' (some _) e p = p

  -- A replay from signals that are paired with fills ends with such, each fill being of the
  -- signal's symbol, side, quantity, time and strategy, or else the strategy raises on one of
  -- the trades.
  pub run_ticks-Outcomes :
      (style : Style) (symbol : String) (bps : Float) (ts : List Tick) (r : Run)
      → Paired r.signals r.fills
      → Outcomes style symbol bps ts r (run_ticks style symbol bps ts r)
  unfolding run_ticks
  run_ticks-Outcomes style symbol bps [] r p = p
  run_ticks-Outcomes style symbol bps (t ∷ ts) r p =
      let step = run_tick-Stepped style symbol bps t r p in
      elim (Option-cases (run_tick style symbol bps t r)) [
        | inl e ↦ rw (e) (here (rw (e) at step))
        | inr (r', e) ↦ rw (e) (
            relayed style symbol bps t ts r r' _ e
              (run_ticks-Outcomes style symbol bps ts r' (rw (e) at step)))
      ]
