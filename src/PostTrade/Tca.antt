-- ===== src/PostTrade/Tca.antt =====
-- services/post-trade/post_trade_svc/tca.py: the cost of a fill in basis points. `none` stands for
-- the ZeroDivisionError of a decision or an arrival price that is zero.
use quant_system.Prelude.{String, ◌≡◌, ◌||◌, Option, none, some, arith, if◌then◌else◌, is_none}
use quant_system.Prelude.Eq.{◌==◌, string_eq}
use quant_system.Num.{Num, Float, ◌⊕◌, ◌⊖◌, ◌⊗◌, ◌⊘◌, ◌≺◌, ◌≈◌, nought, abs, lit}

module _ ⦃N : Num⦄ where
  -- `TCAResult`
  pub record TcaResult : Type 0 where
    pub fill_id : String
    pub symbol : String
    pub side : String
    pub decision_price : Float
    pub arrival_price : Float
    pub fill_price : Float
    pub spread_cost_bps : Float
    pub slippage_bps : Float
    pub market_impact_bps : Float
    pub fee_bps : Float
    pub total_cost_bps : Float

  -- a / b * 10_000
  abbrev pub bps : Float → Float → Float
  bps a b = a ⊘ b ⊗ lit 10_000 0

  -- `analyze_fill`
  unfoldable pub analyze_fill :
      String → String → String → Float → Float → Float → Float → Float → Option TcaResult
  analyze_fill fill_id symbol side decision arrival fill fee quantity =
      let notional = quantity ⊗ fill in
      let fee_bps = if nought ≺ notional then bps fee notional else nought in
      let impact =
        if side == "BUY"
        then bps (arrival ⊖ decision) decision
        else bps (decision ⊖ arrival) decision in
      let slippage =
        if side == "BUY" then bps (fill ⊖ arrival) arrival else bps (arrival ⊖ fill) arrival in
      if decision ≈ nought || arrival ≈ nought
      then none
      else some (record {
        fill_id = fill_id;
        symbol = symbol;
        side = side;
        decision_price = decision;
        arrival_price = arrival;
        fill_price = fill;
        spread_cost_bps = if nought ≺ arrival then bps (abs (fill ⊖ arrival)) arrival else nought;
        slippage_bps = slippage;
        market_impact_bps = impact;
        fee_bps = fee_bps;
        total_cost_bps = abs impact ⊕ abs slippage ⊕ fee_bps;
      })

  pub analyze_fill-raises :
      (i y s : String) (d a f c q : Float)
      → is_none (analyze_fill i y s d a f c q) ≡ (d ≈ nought || a ≈ nought)
  unfolding analyze_fill
  analyze_fill-raises i y s d a f c q = ground arith
