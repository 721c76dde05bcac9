-- ===== src/Canvas.antt =====
-- The canvas of frontend/src/App.tsx: what its handlers do, and how it draws nodes and edges.
pub mod Classes
pub mod Cache
pub mod Edges
pub mod Gesture
pub mod Layout
mod Handlers
mod Styles
unfoldable pub use Styles.*
unfoldable pub use Handlers.*
