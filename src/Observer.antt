-- ===== src/Observer.antt =====
-- internal/observer: the bucket of an amount, the canonical form of a receipt, its signature, and
-- the formats of the signing key.
pub mod Crypto
pub mod Receipt
mod Keys
pub mod Client
pub mod Signing
pub mod Posting
pub mod Buckets
pub mod Canonical
unfoldable pub use Crypto.*
unfoldable pub use Receipt.*
unfoldable pub use Keys.*
