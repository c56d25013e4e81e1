-- ===== src/World.antt =====
-- The state that the coordinator's services share: the tables of the database (the migrations'
-- columns, less those that no Go statement reads), the Prometheus metrics, the payment queue, and
-- what was sent to the Lightning node. The outside world is the record `Env`.
mod Rows
mod State
mod Monad
pub mod Frame
unfoldable pub use Rows.*
unfoldable pub use State.*
unfoldable pub use Monad.*
