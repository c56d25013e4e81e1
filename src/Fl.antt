-- ===== src/Fl.antt =====
-- internal/fl/rounds.go: the life of a federated-learning round.
mod Defs
mod Rounds
pub mod Statistics
pub mod Sorting
pub mod Median
pub mod Norms
pub mod Anomaly
pub mod Filtering
mod Lifecycle
mod Admission
unfoldable pub use Defs.*
unfoldable pub use Rounds.*
pub use Admission.*
pub use Lifecycle.*
pub mod Averaging
pub mod Coordinates
pub mod Checkpoint
pub mod Stamping
mod Uploads
pub mod Publishing
pub mod Anchoring
