-- ===== src/Alpha.antt =====
-- services/alpha-engine: the order book, the features, and the strategies over them.
pub mod OrderBook
pub mod FeatureEngine
pub mod Strategy
pub mod Momentum
pub mod CrossAsset
pub mod PairsTrading
pub mod MeanReversion
mod Tests
