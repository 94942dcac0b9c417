-- ===== src/Execution.antt =====
-- services/execution: order tracking, simulated fills, trading modes, the order handler.
pub mod OrderTracker
pub mod StrategyMode
pub mod FillSimulator
pub mod Service
mod Tests
