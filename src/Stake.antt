-- ===== src/Stake.antt =====
-- internal/stake/verifier.go: the check of a node's Lightning channel, its record, the periodic
-- re-check, misbehaviour signals and slashing. A table operation is one SQL statement.
mod Defs
mod Methods
pub mod Bonus
pub mod Best
pub mod Slashing
unfoldable pub use Defs.*
unfoldable pub use Methods.*
