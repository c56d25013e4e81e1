-- ===== src/Lightning.antt =====
-- internal/lightning: the pure parts of the LND and CLN clients, and the mock client.
mod Hex
mod Channels
mod Mock
pub mod Cln
pub mod Lnd
pub mod Closing
pub mod Closed
pub mod Invoices
pub mod Settled
pub mod RoundTrip
unfoldable pub use Hex.*
unfoldable pub use Channels.*
unfoldable pub use Mock.*
