-- ===== src/Evaluation.antt =====
-- The golden evaluation: a set of questions, each with a reference statement whose rows are what the
-- question should return (genql/services/eval).
pub mod Comparator
pub mod Golden
mod Bags
mod Verdicts
mod Rows
mod Total
pub mod Ablations
mod Tests
