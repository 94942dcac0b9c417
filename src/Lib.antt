-- ===== src/Lib.antt =====
-- A model of quant-system, a trading platform of services that talk over Kafka: signals of the
-- alpha engine pass the risk gateway, become orders, are executed on paper or on the exchange, and
-- the fills are booked by post-trade; market data is stored in batches.
--
-- How the parts interact. A signal (lib/quant_core/models.py) is decided on by the risk gateway,
-- which asks the circuit breaker first and publishes a decision and an order. The execution service
-- asks the breaker again, finds the strategy's mode, registers the order with the tracker, moves it
-- to ACCEPTED and, after a simulated fill, to FILLED. The fill reaches post-trade, which updates the
-- position, the costs and the equity curve, and writes the portfolio to Redis, where the gateway reads
-- it. One trip of the breaker, a key in Redis, stops both. A backtest replays recorded trades through
-- the same strategies and the same fill simulator.
--
-- Files, and the code that they model:
--   Prelude, Prelude/*        shared names, lists, Python's dict, integers
--   Num, Num/*                the interface of floats, its laws, two interpretations, a ring solver
--   Core/Models               lib/quant_core/models.py: the events as records
--   Core/CircuitBreaker       lib/quant_core/circuit_breaker.py: is_tripped, trip, reset, status
--   Core/RateLimiter          lib/quant_core/rate_limiter.py: acquire, _refill, RetryPolicy
--   Core/Portfolio            lib/quant_core/portfolio_state.py: the sync to Redis and the read
--   Core/Keys                 lib/quant_core/redis_utils.py: Keys.position, and how a key is split
--   Core/Reconciliation       lib/quant_core/reconciliation.py
--   Alpha/OrderBook           services/alpha-engine/alpha_engine_svc/order_book.py
--   Alpha/FeatureEngine       services/alpha-engine/alpha_engine_svc/feature_engine.py
--   Alpha/Strategy, Alpha/Momentum, Alpha/MeanReversion
--                             services/alpha-engine/alpha_engine_svc/strategies/momentum.py and
--                             mean_reversion.py: one text but for the sides
--   Alpha/CrossAsset          services/alpha-engine/alpha_engine_svc/cross_asset.py
--   Alpha/PairsTrading        services/alpha-engine/alpha_engine_svc/strategies/pairs_trading.py
--   Backtest/WalkForward, Backtest/WalkForward/Aggregate
--                             services/backtest/backtest_svc/walk_forward.py
--   Backtest/MonteCarlo, Backtest/MonteCarlo/Simulation
--                             services/backtest/backtest_svc/monte_carlo.py
--   Backtest/Evaluator, Backtest/Evaluator/Report, Backtest/Replay, Backtest/PairsReplay
--                             services/backtest/backtest_svc/evaluator.py
--   Risk/Checks               services/risk-gateway/risk_gateway_svc/risk_checks.py
--   Risk/Service              services/risk-gateway/risk_gateway_svc/main.py: consume_loop
--   Execution/OrderTracker    services/execution/execution_svc/order_tracker.py
--   Execution/StrategyMode    services/execution/execution_svc/strategy_mode.py
--   Execution/FillSimulator   services/execution/execution_svc/fill_simulator.py
--   Execution/Service         services/execution/execution_svc/main.py: consume_loop
--   PostTrade/Pnl             services/post-trade/post_trade_svc/pnl.py
--   PostTrade/Tca             services/post-trade/post_trade_svc/tca.py
--   PostTrade/State           services/post-trade/post_trade_svc/state.py: process_fill,
--                             record_signal, update_price
--   PostTrade/State/Summaries the same file: what the dashboard and the sync read
--   PostTrade/AlphaDecay      services/post-trade/post_trade_svc/alpha_decay.py
--   PostTrade/Metrics         services/post-trade/post_trade_svc/metrics.py
--   PostTrade/Service         services/post-trade/post_trade_svc/main.py: consume_loop
--   Storage/BatchWriter       services/storage/storage_svc/batch_writer.py
--   Storage/Consumer          services/storage/storage_svc/consumer.py
-- The files below a component's hold its theorems, and each Tests file runs them on examples.
--
-- State is a record and an operation a function to the new state; a service is a function from one
-- message and the state to the next state with its outbox. What the code gets from outside is an
-- argument: readings of the clock, random numbers, new ids, outcomes of calls of Redis, of the
-- database and of the exchange. An exception is a value: `none`, or a Boolean beside the state that
-- was written before it.
--
-- Floats are an interface (Num/Floats) with a linear order and nothing about rounding. A theorem
-- that needs more takes it as a hypothesis: IsExact, the laws of an ordered ring, for sums of money,
-- or IsMonotone, which rounded arithmetic has too. Integers and eight decimals interpret them.
--
-- Bounds: one loop runs on fuel, that of the block bootstrap (Backtest/MonteCarlo), one round per
-- return, of which each adds one at least. The loop of `acquire` is a recursion on the rounds of clock readings
-- that it is given, and ends on any rounds that reach the deadline.
--
-- Not modelled: linear regression and the service loop of the alpha engine, the statistics and
-- command lines of backtests, dashboards and analysis jobs, the clients of Kafka, Redis, PostgreSQL
-- and Coinbase, JSON, metrics and logs, and the C++ core.
pub mod Prelude
pub mod Num
pub mod Core
pub mod Alpha
pub mod Risk
pub mod Execution
pub mod PostTrade
pub mod Storage
pub mod Backtest
