-- ===== src/Runner.antt =====
-- The handlers of frontend/src/engine/WorkflowRunner.ts, over the workflow, debug and toast stores.
-- A notification comes parsed, in the shape that the source casts it to; `of_text` makes a text an
-- `unknown` value, and `now` is the time at which the handler runs.
mod Types
mod Handlers
pub mod Nodes
pub mod Reconcile
pub mod Stale
pub mod Graph
unfoldable pub use Types.*
unfoldable pub use Handlers.*
