-- ===== src/Alpha/Strategy/Cooldown.antt =====
-- When a strategy may speak: the warm-up and the cooldown.
use quant_system.Prelude.{
  ℕ, suc, ◌+◌, ◌≤◌, ◌<◌, ◌≡◌, ◌≢◌, inl, inr, refl, String, false, Option, some, List, [], ◌∷◌, All,
  arith, leb→le, Bool-cases, Option-cases, List-cases, ap, ◌||◌,
}
use quant_system.Num.{Num, Float, ◌⊗◌, ◌≈◌, nought, lit}
use quant_system.Core.Models.{Trade, DepthUpdate, Signal}
use quant_system.Alpha.OrderBook.{prices, highest, lowest}
use quant_system.Alpha.FeatureEngine
use quant_system.Alpha.FeatureEngine.{Engine, compute}
use quant_system.Alpha.Strategy.{
  Style, Strategy, Outside, Outcome, quiet, emitted, Size, division_error, no_price, quantity,
  repeats, is_warmed_up, cooldown_elapsed, counted, z_score_of, side_for, price_or, size_for, act,
  decide, on_trade, quoted, on_book_update,
}

module _ ⦃N : Num⦄ where
  -- What holds of a step of a strategy that returns the signal `sig`.
  pub record Spoke (s s' : Strategy) (sig : Signal) : Type 0 where
    pub other_side : repeats sig.side s.last_signal_side ≡ false
    pub same_params : s'.params ≡ s.params
    pub reset : s'.trades_since_last_signal ≡ 0
    pub remembered : s'.last_signal_side ≡ some sig.side

  Size-cases :
      (x : Size)
      → (P : Type 0) → (x ≡ division_error → P)
      → (x ≡ no_price → P)
      → ((q : Float) → x ≡ quantity q → P)
      → P
  Size-cases division_error P a b c = a refl
  Size-cases no_price P a b c = b refl
  Size-cases (quantity q) P a b c = c q refl

  act-Spoke :
      (o : Outside) (z volatility : Float) (side : String) (price : Float) (s : Strategy)
      (sig : Signal)
      → (act o z volatility side price s).0 ≡ emitted sig
      → Spoke s (act o z volatility side price s).1 sig
  unfolding act
  act-Spoke o z volatility side price s sig h =
      elim (Bool-cases (s.params.threshold_std ⊗ lit 2 0 ≈ nought)) [
        | inl e ↦ absurd (cc (rw (e, act) at h))
        | inr e ↦ elim (Bool-cases (repeats side s.last_signal_side)) [
          | inl d ↦ absurd (cc (rw (e, d, act) at h))
          | inr d ↦
              Size-cases (size_for o.sqrt s.params (price_or s.mid_price price) volatility)
                (Spoke s (act o z volatility side price s).1 sig)
                (λ f. absurd (cc (rw (e, d, f, act) at h)))
                (λ f. absurd (cc (rw (e, d, f, act) at h)))
                (λ q f.
                  let named : side ≡ sig.side = cc (rw (e, d, f, act) at h) in
                  rw (e, d, f, act)
                    (record {
                      other_side = rw (← named) d;
                      same_params = refl;
                      reset = refl;
                      remembered = rw named refl;
                    }))
        ]
      ]

  decide-Spoke :
      (style : Style) (o : Outside) (price : Float) (s : Strategy) (sig : Signal)
      → (decide style o price s).0 ≡ emitted sig
      → Spoke s (decide style o price s).1 sig
  unfolding decide
  decide-Spoke style o price s sig h =
      let f = compute o.root s.engine in
      elim (Bool-cases (f.vwap ≈ nought || f.volatility ≈ nought)) [
        | inl e ↦ absurd (cc (rw (e, decide) at h))
        | inr e ↦ elim (Option-cases (side_for style s.params.threshold_std (z_score_of price f))) [
          | inl n ↦ absurd (cc (rw (e, n, decide) at h))
          | inr (side, n) ↦
              rw (e, n, decide)
                (act-Spoke o (z_score_of price f) f.volatility side price s sig
                  (rw (e, n, decide) at h))
        ]
      ]

  -- What a trade finds in the engine.
  abbrev fed : Trade → Strategy → Option Engine
  fed t s = FeatureEngine.on_trade t.price t.quantity t.is_buyer_maker t.timestamp_exchange s.engine

  on_trade-Spoke :
      (style : Style) (o : Outside) (t : Trade) (s : Strategy) (sig : Signal)
      → (on_trade style o t s).0 ≡ emitted sig
      → (s.params.warmup_trades ≤ suc s.trade_count)
        × (s.params.cooldown_trades ≤ suc s.trades_since_last_signal)
        × Spoke s (on_trade style o t s).1 sig
  unfolding on_trade
  on_trade-Spoke style o t s sig h = elim (Option-cases (fed t s)) [
    | inl e ↦ absurd (cc (rw (e, on_trade) at h))
    | inr (engine, e) ↦
        let s' : Strategy = record (counted s) { engine = engine } in
        elim (Bool-cases (is_warmed_up s')) [
          | inr w ↦ absurd (cc (rw (e, w, on_trade) at h))
          | inl w ↦ elim (Bool-cases (cooldown_elapsed s')) [
            | inr c ↦ absurd (cc (rw (e, w, c, on_trade) at h))
            | inl c ↦
                let spoke : Spoke s' (decide style o t.price s').1 sig =
                  decide-Spoke style o t.price s' sig (rw (e, w, c, on_trade) at h) in
                (
                  leb→le s.params.warmup_trades (suc s.trade_count) w,
                  leb→le s.params.cooldown_trades (suc s.trades_since_last_signal) c,
                  rw (e, w, c, on_trade)
                      (record {
                        other_side = spoke.other_side;
                        same_params = spoke.same_params;
                        reset = spoke.reset;
                        remembered = spoke.remembered;
                      }),
                )
          ]
        ]
  ]

  -- What reaches a strategy.
  pub data Event : Type 0 where
    traded : Outside → Trade → Event
    booked : DepthUpdate → Event

  pub step : Style → Event → Strategy → Outcome × Strategy
  step style (traded o t) s = on_trade style o t s
  step style (booked u) s = (quiet, on_book_update u s)

  pub outcomes : Style → List Event → Strategy → List Outcome
  outcomes style [] s = []
  outcomes style (e ∷ es) s = let (r, s') = step style e s in r ∷ outcomes style es s'

  abbrev pub trades_in : List Event → ℕ
  trades_in [] = 0
  trades_in (traded o t ∷ es) = suc (trades_in es)
  trades_in (booked u ∷ es) = trades_in es

  abbrev pub IsSilent : Outcome → Type 0
  IsSilent r = (sig : Signal) → r ≢ emitted sig

  -- The counter and the parameters through one step within the cooldown.
  on_trade_waits :
      (style : Style) (o : Outside) (t : Trade) (s : Strategy)
      → suc s.trades_since_last_signal < s.params.cooldown_trades
      → IsSilent (on_trade style o t s).0
        × ((on_trade style o t s).1.trades_since_last_signal ≡ suc s.trades_since_last_signal)
        × ((on_trade style o t s).1.params ≡ s.params)
  unfolding on_trade
  on_trade_waits style o t s h = elim (Option-cases (fed t s)) [
    | inl e ↦ rw (e, on_trade) ((λ sig. cc), refl, refl)
    | inr (engine, e) ↦
        let s' : Strategy = record (counted s) { engine = engine } in
        let waits : cooldown_elapsed s' ≡ false = ground (arith, h) in
        elim (Bool-cases (is_warmed_up s')) [
          | inl w ↦ rw (e, w, waits, on_trade) ((λ sig. cc), refl, refl)
          | inr w ↦ rw (e, w, on_trade) ((λ sig. cc), refl, refl)
        ]
  ]

  on_book_update_keeps :
      (u : DepthUpdate) (s : Strategy)
      → ((on_book_update u s).trades_since_last_signal ≡ s.trades_since_last_signal)
        × ((on_book_update u s).params ≡ s.params)
  unfolding on_book_update
  on_book_update_keeps u s = elim (List-cases u.bids) [
    | inl e ↦ rw (e, quoted) (refl, refl)
    | inr (b, bids, e) ↦ elim (List-cases u.asks) [
      | inl f ↦ rw (e, f, quoted) (refl, refl)
      | inr (a, asks, f) ↦
          elim (Bool-cases
            (highest b.0 (prices bids) ≈ nought || lowest a.0 (prices asks) ≈ nought)) [
              | inl z ↦ rw (e, f, z, quoted) (refl, refl)
              | inr z ↦ rw (e, f, z, quoted) (refl, refl)
            ]
    ]
  ]

  quiet_while_waiting :
      (style : Style) (es : List Event) (s : Strategy)
      → s.trades_since_last_signal + trades_in es < s.params.cooldown_trades
      → All IsSilent (outcomes style es s)
  unfolding outcomes step
  quiet_while_waiting style [] s h = tt
  quiet_while_waiting style (traded o t ∷ es) s h =
      let (silent, since, params) = on_trade_waits style o t s (omega arith) in
      (
        silent,
        quiet_while_waiting style es (on_trade style o t s).1
            (omega (arith, since, ap (λ p. p.cooldown_trades) params, h)),
      )
  quiet_while_waiting style (booked u ∷ es) s h =
      let (since, params) = on_book_update_keeps u s in
      (
        (λ sig. cc),
        quiet_while_waiting style es (on_book_update u s)
            (omega (arith, since, ap (λ p. p.cooldown_trades) params, h)),
      )

  -- When a momentum or a mean-reversion strategy returns a signal it has seen its warm-up trades and
  -- `cooldown_trades` trades since it last chose a side, the signal is not to that side, and no
  -- signal follows before `cooldown_trades` more trades, whatever trades and book updates come.
  pub signals_spaced :
      (style : Style) (o : Outside) (t : Trade) (s : Strategy) (sig : Signal) (es : List Event)
      → (on_trade style o t s).0 ≡ emitted sig
      → trades_in es < s.params.cooldown_trades
      → (s.params.warmup_trades ≤ suc s.trade_count)
        × (s.params.cooldown_trades ≤ suc s.trades_since_last_signal)
        × (repeats sig.side s.last_signal_side ≡ false)
        × All IsSilent (outcomes style es (on_trade style o t s).1)
  signals_spaced style o t s sig es h few =
      let (warm, cool, spoke) = on_trade-Spoke style o t s sig h in
      (
        warm,
        cool,
        spoke.other_side,
        quiet_while_waiting style es (on_trade style o t s).1
            (omega (arith, few, spoke.reset, ap (λ p. p.cooldown_trades) spoke.same_params)),
      )
