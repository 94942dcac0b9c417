-- ===== src/Backtest/PairsReplay/Fills.antt =====
-- The signals and the fills of a replay of pairs trading.
use quant_system.Prelude.{
  ◌≡◌, refl, sym, String, Bool, true, false, ◌||◌, not, Option, none, some, List, [], ◌∷◌,
  Option-cases, inl, inr, ℕ, get_or, if◌then◌else◌,
}
use quant_system.Prelude.Eq.{◌==◌, string_eq}
use quant_system.Prelude.Dict.{lookup, insert}
use quant_system.Num.{Num, Float, ◌⊗◌, ◌≺◌, ◌≼◌, nought, lit}
use quant_system.Core.Models.{Signal}
use quant_system.Alpha.PairsTrading.{Pairs, on_trade, get_counterpart_signal}
use quant_system.Alpha.Strategy.{Outcome, quiet, raised, emitted}
use quant_system.Execution.FillSimulator.{simulate_fill, Outside as FillOutside}
use quant_system.Backtest.Replay.{signal_to_order}
use quant_system.Backtest.Replay.Pairing.{Paired, Paired-append}
use quant_system.Backtest.PairsReplay.{
  Tick, Run, fill_leg, fill_counterpart, fill_both, proceed, feed_other, run_tick, run_ticks,
}

module _ ⦃N : Num⦄ where
  abbrev pub Matched : Run → Type 0
  Matched r = Paired r.signals r.fills

  either : (b : Bool) (x y : Run) → Matched x → Matched y → Matched (if b then x else y)
  either true x y p q = p
  either false x y p q = q

  fill_leg-Matched :
      (order_id : String) (o : FillOutside) (now : ℕ) (spread : Float) (s : Signal) (r : Run)
      → Matched r
      → Matched (fill_leg order_id o now spread s r)
  unfolding fill_leg simulate_fill signal_to_order
  fill_leg-Matched order_id o now spread s r p =
      Paired-append r.signals r.fills (record s { timestamp = now }) _ p
        (refl, refl, refl, refl, refl)

  fill_counterpart-Matched :
      (t : Tick) (o : Option Signal) (r : Run) → Matched r → Matched (fill_counterpart t o r)
  unfolding fill_counterpart
  fill_counterpart-Matched t none r p = p
  fill_counterpart-Matched t (some s) r p =
      let price = get_or (lookup r.strategy.symbol_b r.latest_price) nought in
      either (nought ≺ price) _ _
        (fill_leg-Matched t.counterpart_order_id t.counterpart_outside t.trade.timestamp_exchange
          (price ⊗ lit 1 4) (record s { mid_price_at_signal = price }) r p)
        p

  fill_both-Matched : (t : Tick) (s : Signal) (r : Run) → Matched r → Matched (fill_both t s r)
  unfolding fill_both
  fill_both-Matched t s r p =
      let r' =
        fill_leg t.order_id t.fill_outside t.trade.timestamp_exchange s.spread_at_signal s r in
      let (counterpart, strategy) = get_counterpart_signal r'.strategy in
      fill_counterpart-Matched t counterpart (record r' { strategy = strategy })
        (fill_leg-Matched t.order_id t.fill_outside t.trade.timestamp_exchange s.spread_at_signal s
          r p)

  -- The strategy raises on a trade of the replay.
  pub data Fails : List Tick → Run → Type 0 where
    here :
        {t : Tick} {ts : List Tick} {r : Run}
        → (on_trade t.strategy_outside t.trade r.strategy).0 ≡ raised
        → Fails (t ∷ ts) r
    later :
        {t : Tick} {ts : List Tick} {r r' : Run}
        → run_tick t r ≡ some r'
        → Fails ts r'
        → Fails (t ∷ ts) r

  -- What a replay comes to.
  abbrev pub Outcomes : List Tick → Run → Option Run → Type 0
  Outcomes ts r none = Fails ts r
  Outcomes ts r (some r') = Matched r'

  -- What one tick comes to.
  abbrev pub Stepped : Tick → Run → Option Run → Type 0
  Stepped t r none = (on_trade t.strategy_outside t.trade r.strategy).0 ≡ raised
  Stepped t r (some r') = Matched r'

  proceed-Stepped :
      (t : Tick) (r r' : Run) (a : Outcome × Pairs)
      → a.0 ≡ (on_trade t.strategy_outside t.trade r.strategy).0
      → Matched r'
      → Stepped t r (proceed t a r')
  unfolding proceed
  proceed-Stepped t r r' (raised, s) e p = sym e
  proceed-Stepped t r r' (quiet, s) e p = p
  proceed-Stepped t r r' (emitted sig, s) e p =
      fill_both-Matched t sig (record r' { strategy = s }) p

  one_of :
      (t : Tick) (r : Run) (b : Bool) (x y : Option Run)
      → Stepped t r x
      → Stepped t r y
      → Stepped t r (if b then x else y)
  one_of t r true x y p q = p
  one_of t r false x y p q = q

  run_tick-Stepped : (t : Tick) (r : Run) → Matched r → Stepped t r (run_tick t r)
  unfolding run_tick feed_other
  run_tick-Stepped t r p =
      let priced = record r { latest_price = insert t.trade.symbol t.trade.price r.latest_price } in
      let mine = t.trade.symbol == r.strategy.symbol in
      let answered = proceed t (on_trade t.strategy_outside t.trade r.strategy) priced in
      let fed = some (feed_other t priced) in
      one_of t r (t.trade.price ≼ nought || not (mine || (t.trade.symbol == r.strategy.symbol_b)))
        (some r) (if mine then answered else fed) p
        (one_of t r mine answered fed
          (proceed-Stepped t r priced (on_trade t.strategy_outside t.trade r.strategy) refl p) p)

  relayed :
      (t : Tick) (ts : List Tick) (r r' : Run) (o : Option Run)
      → run_tick t r ≡ some r'
      → Outcomes ts r' o
      → Outcomes (t ∷ ts) r o
  relayed t ts r r' none e f = later e f
  relayed t ts r r' (some _) e p = p

  -- A replay of pairs trading from signals that are paired with fills ends with such, both legs
  -- included, or else the strategy raises on one of the trades.
  pub run_pairs-Outcomes : (ts : List Tick) (r : Run) → Matched r → Outcomes ts r (run_ticks ts r)
  unfolding run_ticks
  run_pairs-Outcomes [] r p = p
  run_pairs-Outcomes (t ∷ ts) r p =
      let step = run_tick-Stepped t r p in
      elim (Option-cases (run_tick t r)) [
        | inl e ↦ rw (e) (here (rw (e) at step))
        | inr (r', e) ↦ rw (e) (relayed t ts r r' _ e (run_pairs-Outcomes ts r' (rw (e) at step)))
      ]
