-- ===== src/Risk.antt =====
-- services/risk-gateway: the risk checks, and the handler of signals.
pub mod Checks
pub mod Decision
pub mod Scale
pub mod Sides
pub mod Service
mod Tests
