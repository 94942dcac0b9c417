-- ===== src/Num/Ring.antt =====
-- Equations of exact arithmetic, decided by normal forms: `ring X env a b refl` proves that two
-- polynomial expressions over the values `env` agree.
pub mod Laws
pub mod Sign
mod Normal
pub use Normal.{Expr, ring}
