-- ===== src/Schema.antt =====
-- internal/schema: the values that travel along the edges of a workflow.
pub mod Properties
pub mod Laws
pub mod Audio
pub mod Video
