-- ===== src/Registry.antt =====
-- internal/registry/registry.go: registration, status changes, heartbeats and reliability.
mod Defs
mod Methods
mod Reliability
pub mod Gauge
pub mod Clamps
pub mod Renewal
unfoldable pub use Defs.*
unfoldable pub use Methods.*
unfoldable pub use Reliability.*
