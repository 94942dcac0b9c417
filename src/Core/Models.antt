-- ===== src/Core/Models.antt =====
-- lib/quant_core/models.py: the events that flow between the services. Identifiers, symbols and
-- the sides "BUY" and "SELL" are texts, as in the source; times are milliseconds.
use quant_system.Prelude.{ℕ, String, Bool, List, Option}
use quant_system.Num.{Num, Float}

-- `OrderStatus`
pub data OrderStatus : Type 0 where
  submitted accepted filled partially_filled rejected cancelled : OrderStatus

-- The two values of `RiskDecision.decision`.
pub data Decision : Type 0 where
  approved rejected_ : Decision

module _ ⦃N : Num⦄ where
  -- `RiskDecision.reason`, before it is formatted: the failed checks joined by "; ", a fixed
  -- text, or the text that shows the drawdown's scale.
  pub data Reason : Type 0 where
    failures : List String → Reason
    text : String → Reason
    scaled_by_drawdown : Float → Reason

  -- `Trade`, without its constant tag `type`.
  pub record Trade : Type 0 where
    pub exchange : String
    pub symbol : String
    pub trade_id : ℕ
    pub price : Float
    pub quantity : Float
    pub timestamp_exchange : ℕ
    pub timestamp_ingested : ℕ
    pub is_buyer_maker : Bool

  -- `DepthUpdate`, without its constant tag: changed levels, as price and new quantity.
  pub record DepthUpdate : Type 0 where
    pub exchange : String
    pub symbol : String
    pub first_update_id : ℕ
    pub final_update_id : ℕ
    pub bids : List (Float × Float)
    pub asks : List (Float × Float)
    pub timestamp_exchange : ℕ
    pub timestamp_ingested : ℕ

  -- `Signal`, without the free-form `metadata`.
  pub record Signal : Type 0 where
    pub signal_id : String
    pub timestamp : ℕ
    pub strategy_id : String
    pub symbol : String
    pub side : String
    pub strength : Float
    pub target_quantity : Float
    pub urgency : Float
    pub mid_price_at_signal : Float
    pub spread_at_signal : Float

  -- `Order`
  pub record Order : Type 0 where
    pub order_id : String
    pub timestamp : ℕ
    pub symbol : String
    pub side : String
    pub order_type : String
    pub quantity : Float
    pub limit_price : Option Float
    pub status : OrderStatus
    pub signal_id : String
    pub strategy_id : String
    pub backtest_id : Option String

  -- `Fill`
  pub record Fill : Type 0 where
    pub fill_id : String
    pub timestamp : ℕ
    pub order_id : String
    pub symbol : String
    pub side : String
    pub quantity : Float
    pub fill_price : Float
    pub fee : Float
    pub fee_rate : Float
    pub is_maker : Bool
    pub slippage_bps : Float
    pub backtest_id : Option String
    pub strategy_id : String
    pub trading_mode : String

  -- `OrderStatusUpdate`
  pub record OrderStatusUpdate : Type 0 where
    pub order_id : String
    pub exchange_order_id : String
    pub status : OrderStatus
    pub filled_quantity : Float
    pub remaining_quantity : Float
    pub avg_fill_price : Float
    pub timestamp : ℕ
    pub reason : String
    pub backtest_id : Option String

  -- `RiskDecision`
  pub record RiskDecision : Type 0 where
    pub signal_id : String
    pub decision : Decision
    pub reason : Reason
    pub adjusted_quantity : Float
    pub timestamp : ℕ
    pub checks_passed : List String
    pub checks_failed : List String
