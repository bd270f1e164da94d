-- ===== src/Stages.antt =====
-- The services that the nodes of the pipeline call, as far as they are more than a call of a model:
-- genql/services/query.
pub mod Intent
pub mod Generation
pub mod Critique
pub mod Probing
mod Labels
mod Coverage
mod Safety
mod Tests
