-- ===== src/PostTrade/Service.antt =====
-- services/post-trade/post_trade_svc/main.py: the loop that feeds the state, one message at a time,
-- and the sync to Redis. A message that does not parse is `none`. Metrics, heartbeats, logs and the
-- dashboard's thread are left out.
pub mod Prices
use quant_system.Prelude.{
  ℕ, suc, String, Bool, true, false, not, ◌&&◌, Option, none, some, List, [], ◌∷◌, map,
  if◌then◌else◌,
}
use quant_system.Prelude.Eq.{◌==◌, string_eq}
use quant_system.Num.{Num, Float, nought}
use quant_system.Core.Models.{Fill, Signal, Trade}
use quant_system.Core.Portfolio.{Store, PositionData, Totals, sync_portfolio_to_redis}
use quant_system.PostTrade.State.{
  State, FillRecord, init as init_state, process_fill, record_signal, update_price,
}
use quant_system.PostTrade.State.Summaries.{PnlRow, PnlSummary, get_pnl_summary}

module _ ⦃N : Num⦄ where
  pub data Message : Type 0 where
    fills : Option Fill → Message
    signals : Option Signal → Message
    raw_trades : Option Trade → Message

  -- The state, Redis (the store and whether it answers), the counters, and whether the loop
  -- still runs: an exception of `process_fill` is caught nowhere and ends the thread.
  pub record Service : Type 0 where
    pub state : State
    pub store : Store
    pub reachable : Bool
    pub fill_count : ℕ
    pub trade_count : ℕ
    pub signal_count : ℕ
    pub running : Bool

  -- The `FillRecord` of a fill: no decision price is passed, so the field has its default.
  unfoldable pub record_of : Fill → FillRecord
  record_of f = record {
    fill_id = f.fill_id;
    timestamp = f.timestamp;
    symbol = f.symbol;
    side = f.side;
    quantity = f.quantity;
    fill_price = f.fill_price;
    fee = f.fee;
    slippage_bps = f.slippage_bps;
    strategy_id = f.strategy_id;
    decision_price = nought;
    trading_mode = f.trading_mode;
  }

  -- `positions_for_redis` and the figures of the call.
  abbrev pub for_redis : String × PnlRow → String × PositionData
  for_redis (sym, row) = (
    sym,
    record {
      quantity = row.quantity;
      avg_entry_price = row.avg_entry_price;
      realized_pnl = row.realized_pnl;
      unrealized_pnl = row.unrealized_pnl;
    },
  )

  abbrev pub totals_of : State → PnlSummary → Totals
  totals_of st pnl = record {
    current_equity = pnl.current_equity;
    peak_equity = st.peak_equity;
    realized_pnl = pnl.total_realized_pnl;
    unrealized_pnl = pnl.total_unrealized_pnl;
    total_fees = pnl.total_fees;
  }

  -- What of a parsed trade the call `update_price(trade.symbol, trade.price,
  -- timestamp_ms=trade.timestamp)` reads: `Trade` has no attribute `timestamp`, so that the access
  -- raises AttributeError, whatever the trade, and `none` stands for it.
  abbrev pub timestamp_attribute : Trade → Option ℕ
  timestamp_attribute t = none

  module _ (str : Float → String) (round : Float → ℕ → Float) (upper : String → String) where
    -- The block under `try` that writes to Redis.
    unfoldable pub sync : Service → Service
    unfolding get_pnl_summary sync_portfolio_to_redis
    sync s = elim (get_pnl_summary round upper none s.state) [
      | none ↦ s
      | some pnl ↦
          if s.reachable
          then record s {
            store =
                sync_portfolio_to_redis str (map for_redis pnl.positions) (totals_of s.state pnl)
                  s.store;
          }
          else s
    ]

    -- A parsed fill.
    unfoldable pub on_fill : Fill → Service → Service
    unfolding process_fill record_of sync
    on_fill f s =
        let (st, raised) = process_fill (record_of f) s.state in
        if raised
        then record s { state = st; running = false }
        else sync (record s { state = st; fill_count = suc s.fill_count })

    -- A parsed signal.
    unfoldable pub on_signal : Signal → Service → Service
    unfolding record_signal
    on_signal sig s = record s {
      state =
          record_signal upper sig.signal_id sig.timestamp sig.strategy_id sig.symbol sig.side
            sig.strength sig.mid_price_at_signal s.state;
      signal_count = suc s.signal_count;
    }

    -- A parsed trade, under a `try` that ignores every exception.
    unfoldable pub on_trade : Trade → Service → Service
    unfolding update_price
    on_trade t s = elim (timestamp_attribute t) [
      | none ↦ s
      | some now ↦ record s {
        state = update_price t.symbol t.price now s.state;
        trade_count = suc s.trade_count;
      }
    ]

    unfoldable pub consume : Message → Service → Service
    unfolding on_fill on_signal on_trade
    consume (fills (some f)) s = on_fill f s
    consume (signals (some sig)) s = on_signal sig s
    consume (raw_trades (some t)) s = on_trade t s
    consume _ s = s

    -- `consume_loop` over the messages that the polls return.
    unfoldable pub consume_loop : List Message → Service → Service
    unfolding consume
    consume_loop [] s = s
    consume_loop (m ∷ ms) s = if s.running then consume_loop ms (consume m s) else s

  -- What `main` starts with.
  unfoldable pub start : Float → Store → Bool → Service
  unfolding init_state
  start equity store reachable = record {
    state = init_state equity;
    store = store;
    reachable = reachable;
    fill_count = 0;
    trade_count = 0;
    signal_count = 0;
    running = true;
  }
