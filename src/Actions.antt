-- ===== src/Actions.antt =====
-- The actions of frontend/src/hooks/useWorkflowActions.ts over the stores and the client.
pub mod Request
pub mod Run
pub mod Breakpoint
pub mod Pause
mod Types
mod Methods
pub use Types.*
unfoldable pub use Methods.*
