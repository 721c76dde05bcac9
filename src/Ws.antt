-- ===== src/Ws.antt =====
-- The JSON-RPC client of frontend/src/transport/WsClient.ts, with what the platform keeps for it:
-- sockets, timers, and what has been sent, settled and told to subscribers.
mod Types
mod Sockets
mod Calls
mod Events
pub use Types.*
unfoldable pub use Sockets.*
unfoldable pub use Calls.*
unfoldable pub use Events.*
pub mod Tracked
pub mod Halted
pub mod Backoff
pub mod Replaced
pub mod Accounts
pub mod Settles
