-- ===== src/Semantic.antt =====
-- The overlay that a person writes over the discovered semantic layer:
-- genql/services/semantic/semantic_overlay_service.py, on the entities of genql/domain/entities.
pub mod Merge
pub mod Calls
pub mod Hints
pub mod Overlay
pub mod Rows
pub mod Wins
mod Tests
