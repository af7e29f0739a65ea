-- ===== src/Engine.antt =====
-- internal/engine: contracts between plugins, workflow graphs and their runtime.
pub mod Config
pub mod Property
pub mod Graph
pub mod Node
pub mod Workflow
pub mod Loop
pub mod Workers
pub mod Track
pub mod Store
pub mod Session
