-- ===== src/Drawer.antt =====
-- The drawer of frontend/src/components/ModelInspectorDrawer.tsx over the types of
-- frontend/src/types/modelInspector.ts.
pub mod Wires
pub mod Shapes
mod Types
mod Labels
mod Layers
pub use Types.*
unfoldable pub use Labels.*
unfoldable pub use Layers.*
