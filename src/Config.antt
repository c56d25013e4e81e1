-- ===== src/Config.antt =====
-- internal/config/config.go: the configuration, its loading and its validation.
mod Defs
mod Validate
pub mod Settings
pub mod Load
pub mod Defaults
pub mod Guarantees
pub mod Transport
unfoldable pub use Defs.*
unfoldable pub use Validate.*
