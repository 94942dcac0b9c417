-- ===== src/Storage.antt =====
-- services/storage: the consumer of market data and its batched writer.
pub mod BatchWriter
pub mod Consumer
mod Tests
