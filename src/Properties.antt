-- ===== src/Properties.antt =====
-- The properties panel of frontend/src/panels/PropertiesPanel.tsx, the cache of the vendor schema
-- apart.
pub mod Edits
pub mod Requests
pub mod Samples
pub mod Groups
pub mod Unreached
mod Fields
mod Panel
mod Vendors
mod Chart
mod Fallback
unfoldable pub use Fields.*
unfoldable pub use Panel.*
unfoldable pub use Vendors.*
unfoldable pub use Chart.*
unfoldable pub use Fallback.*
