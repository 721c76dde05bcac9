-- ===== src/Store.antt =====
-- The workflow store of frontend/src/store/workflowStore.ts.
pub mod Doubles
pub mod Names
pub mod Index
pub mod Consistent
pub mod Removal
pub mod Undo
pub mod Equality
pub mod Fresh
mod Types
mod Actions
mod History
mod Import
pub use Types.*
unfoldable pub use Actions.*
unfoldable pub use History.*
unfoldable pub use Import.*
