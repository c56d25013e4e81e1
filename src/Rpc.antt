-- ===== src/Rpc.antt =====
-- internal/rpc/server.go: the handlers of CoordinatorService that change state, over the registry,
-- the stake verifier, the scheduler, the rounds and the payment queue.
mod Checks
mod Handlers
pub mod Queries
pub mod Unanswered
pub mod Stream
pub mod Delivered
pub mod Messages
pub mod Access
pub mod Results
pub mod Activation
unfoldable pub use Checks.*
unfoldable pub use Handlers.*
