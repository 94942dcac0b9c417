-- ===== src/Core.antt =====
-- lib/quant_core: the code that the services share.
pub mod Models
pub mod Keys
pub mod Portfolio
pub mod Reconciliation
pub mod CircuitBreaker
pub mod RateLimiter
mod Tests
