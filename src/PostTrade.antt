-- ===== src/PostTrade.antt =====
-- services/post-trade: profit and loss, transaction costs, and the state of the service.
pub mod Pnl
pub mod Metrics
pub mod AlphaDecay
pub mod Tca
pub mod State
pub mod Service
mod Tests
