-- ===== src/Tests.antt =====
-- The theorems at concrete inputs, and tests of the definitions by evaluation.
mod Debug
mod Toast
mod Ports
mod Cycles
mod Ws
mod Store
mod Runner
mod Inspect
mod Resize
mod Actions
mod Shortcuts
mod Canvas
mod Palette
mod Vendor
mod Drawer
mod Properties
mod Cards
mod Preview
