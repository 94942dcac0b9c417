-- ===== src/Num.antt =====
-- The program's `float`. antt has no floating point, so the type and its operations are an
-- interface that every definition over prices and quantities takes as an instance argument.
-- The values are the doubles other than NaN, -0.0 and 0.0 being one value, so comparison is a
-- linear order; nothing is assumed of the rounding of the four operations here.
pub mod Order
pub mod Exact
pub mod Monotone
pub mod Fixed
pub mod Ring
pub mod Sum
pub mod Floats
unfoldable pub use Floats.*
