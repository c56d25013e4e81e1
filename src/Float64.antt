-- ===== src/Float64.antt =====
-- Go's float64, of which the model computes nothing: a type with the operations that the code
-- calls. What a theorem needs of it is named in `Laws`: facts of IEEE 754 arithmetic that hold at
-- every value, NaN, the infinities and both zeros included, since each says what is NOT less.
mod Defs
mod Bounds
pub use Defs.*
pub use Bounds.*
