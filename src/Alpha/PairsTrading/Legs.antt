-- ===== src/Alpha/PairsTrading/Legs.antt =====
-- The two legs of a pairs trade.
use quant_system.Prelude.{
  suc, ◌≤◌, ◌≡◌, ◌⊎◌, inl, inr, refl, String, false, none, some, leb→le, Bool-cases, Option-cases,
}
use quant_system.Prelude.Eq.{string_eq}
use quant_system.Num.{Num, Float, ◌⊗◌, ◌⊘◌, ◌≺◌, ◌≈◌, neg, nought, one, lit, abs, min}
use quant_system.Core.Models.{Trade, Signal}
use quant_system.Alpha.CrossAsset.{CrossAssetSnapshot, get_snapshot}
use quant_system.Alpha.Strategy.{emitted, repeats}
use quant_system.Alpha.PairsTrading.{
  Pairs, Outside, is_warmed_up, cooldown_elapsed, fed, side_for, leg, other_side, act, decide,
  on_trade, get_counterpart_signal,
}

module _ ⦃N : Num⦄ where
  -- One of two sides is to buy and the other to sell.
  abbrev pub Opposite : String → String → Type 0
  Opposite a b = ((a ≡ "BUY") × (b ≡ "SELL")) ⊎ ((a ≡ "SELL") × (b ≡ "BUY"))

  other_side-Opposite :
      (side : String) → (side ≡ "BUY") ⊎ (side ≡ "SELL") → Opposite side (other_side side)
  other_side-Opposite side (inl e) = inl (e, rw e)
  other_side-Opposite side (inr e) = inr (e, rw e)

  side_for_named :
      (threshold z : Float) (side : String)
      → side_for threshold z ≡ some side
      → (side ≡ "BUY") ⊎ (side ≡ "SELL")
  side_for_named threshold z side h = elim (Bool-cases (z ≺ neg threshold)) [
    | inl low ↦ inl (cc (rw (low) at h))
    | inr not_low ↦ elim (Bool-cases (threshold ≺ z)) [
      | inl high ↦ inr (cc (rw (not_low, high) at h))
      | inr not_high ↦ absurd (cc (rw (not_low, not_high) at h))
    ]
  ]

  -- Two signals that are the legs of one trade of a strategy.
  pub record AreLegs (s : Pairs) (a b : Signal) : Type 0 where
    pub symbol_a : a.symbol ≡ s.symbol
    pub symbol_b : b.symbol ≡ s.symbol_b
    pub sides : Opposite a.side b.side
    pub strengths : b.strength ≡ a.strength
    pub quantities : b.target_quantity ≡ a.target_quantity
    pub turned : repeats a.side s.last_signal_side ≡ false

  -- The state after a signal: the other leg waits, and the cooldown starts again.
  abbrev pub Waits : Pairs → Pairs → Signal → Type 0
  Waits s s' a =
      (b : Signal) × (s'.pending_counterpart ≡ some b)
      × AreLegs s a b
      × (s'.trades_since_last_signal ≡ 0)

  act-Waits :
      (o : Outside) (z : Float) (side : String) (price : Float) (s : Pairs) (sig : Signal)
      → (side ≡ "BUY") ⊎ (side ≡ "SELL")
      → (act o z side price s).0 ≡ emitted sig
      → Waits s (act o z side price s).1 sig
  unfolding act
  act-Waits o z side price s sig named h = elim (Bool-cases (repeats side s.last_signal_side)) [
    | inl again ↦ absurd (cc (rw (again, act) at h))
    | inr turned ↦ elim (Bool-cases (s.params.entry_threshold ⊗ lit 2 0 ≈ nought)) [
      | inl division ↦ absurd (cc (rw (turned, division, act) at h))
      | inr fine ↦
          let strength = min (abs z ⊘ (s.params.entry_threshold ⊗ lit 2 0)) one in
          let quantity = s.params.base_quantity in
          let eq : leg o.signal_id_a o.now_a s.strategy_id s.symbol side strength quantity price
              ≡ sig =
            cc (rw (turned, fine, act) at h) in
          rw (turned, fine, act)
            (
              leg o.signal_id_b o.now_b s.strategy_id s.symbol_b (other_side side) strength quantity
                  nought,
              refl,
              rw (← eq) (record {
                symbol_a = refl;
                symbol_b = refl;
                sides = other_side-Opposite side named;
                strengths = refl;
                quantities = refl;
                turned = turned;
              }),
              refl,
            )
    ]
  ]

  decide-Waits :
      (o : Outside) (snap : CrossAssetSnapshot) (price : Float) (s : Pairs) (sig : Signal)
      → (decide o snap price s).0 ≡ emitted sig
      → Waits s (decide o snap price s).1 sig
        × ((r : Float) × (snap.correlation ≡ some r) × ((abs r ≺ s.params.min_correlation) ≡ false))
  unfolding decide
  decide-Waits o snap price s sig h = elim (Option-cases snap.correlation) [
    | inl c ↦ absurd (cc (rw (c, decide) at h))
    | inr (r, c) ↦ elim (Option-cases snap.spread_z_score) [
      | inl z ↦ absurd (cc (rw (c, z, decide) at h))
      | inr (z, ez) ↦ elim (Bool-cases (abs r ≺ s.params.min_correlation)) [
        | inl weak ↦ absurd (cc (rw (c, ez, weak, decide) at h))
        | inr strong ↦ elim (Option-cases (side_for s.params.entry_threshold z)) [
          | inl n ↦ absurd (cc (rw (c, ez, strong, n, decide) at h))
          | inr (side, n) ↦ (
            rw (c, ez, strong, n, decide)
                (act-Waits o z side price s sig (side_for_named s.params.entry_threshold z side n)
                  (rw (c, ez, strong, n, decide) at h)),
            (r, c, strong),
          )
        ]
      ]
    ]
  ]

  -- A trade that yields a signal comes after the warm-up and the cooldown, with a correlation of
  -- the pair that is not below the minimum. Then the counterpart waits: asked for it, the strategy
  -- gives a signal for the other symbol, on the other side, of the same strength and quantity,
  -- and gives it once only; the cooldown starts again, and the side is not that of the last signal.
  pub legs_come_together :
      (o : Outside) (t : Trade) (s : Pairs) (sig : Signal)
      → (on_trade o t s).0 ≡ emitted sig
      → let s' = (on_trade o t s).1 in
        let (given, s'') = get_counterpart_signal s' in
        (s.params.warmup_trades ≤ suc s.trade_count)
        × (s.params.cooldown_trades ≤ suc s.trades_since_last_signal)
        × ((b : Signal) × (given ≡ some b) × AreLegs s sig b)
        × ((get_counterpart_signal s'').0 ≡ none)
        × (s''.trades_since_last_signal ≡ 0)
        × ((r : Float) × ((get_snapshot o.log o.sqrt s.symbol s.symbol_b
                (fed o t s).tracker).correlation
              ≡ some r)
            × ((abs r ≺ s.params.min_correlation) ≡ false))
  unfolding on_trade get_counterpart_signal fed
  legs_come_together o t s sig h =
      let s' = fed o t s in
      elim (Bool-cases (is_warmed_up s')) [
        | inr w ↦ absurd (cc (rw (w, on_trade) at h))
        | inl w ↦ elim (Bool-cases (cooldown_elapsed s')) [
          | inr c ↦ absurd (cc (rw (w, c, on_trade) at h))
          | inl c ↦
              let ((b, waits, legs, reset), strong) =
                decide-Waits o (get_snapshot o.log o.sqrt s.symbol s.symbol_b s'.tracker) t.price s'
                  sig (rw (w, c, on_trade) at h) in
              (
                leb→le s.params.warmup_trades (suc s.trade_count) w,
                leb→le s.params.cooldown_trades (suc s.trades_since_last_signal) c,
                rw (w, c, on_trade)
                    (
                      b,
                      waits,
                      record {
                        symbol_a = legs.symbol_a;
                        symbol_b = legs.symbol_b;
                        sides = legs.sides;
                        strengths = legs.strengths;
                        quantities = legs.quantities;
                        turned = legs.turned;
                      },
                    ),
                refl,
                rw (w, c, on_trade) reset,
                strong,
              )
        ]
      ]
