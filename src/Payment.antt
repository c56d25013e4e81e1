-- ===== src/Payment.antt =====
-- internal/payment/dispatcher.go: the bounded queue, the recovery at startup, the worker's payment
-- with its retries, and the Observer receipt.
mod Defs
pub mod Queue
pub mod Delivery
pub mod Receipts
pub mod Workers
unfoldable pub use Defs.*
