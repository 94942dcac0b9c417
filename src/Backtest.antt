-- ===== src/Backtest.antt =====
-- services/backtest: strategies replayed over recorded trades.
pub mod Evaluator
pub mod Replay
pub mod PairsReplay
pub mod MonteCarlo
pub mod WalkForward
mod Tests
