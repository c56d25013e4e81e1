-- ===== src/Scheduler.antt =====
-- internal/scheduler/scheduler.go: which nodes may take a task, the choice among them, the reward,
-- and the life of a task row.
mod Defs
mod Methods
pub mod Eligibility
pub mod Requeue
unfoldable pub use Defs.*
unfoldable pub use Methods.*
