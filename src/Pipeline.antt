-- ===== src/Pipeline.antt =====
-- The online pipeline as a state machine: genql/api/query_state.py, query_graph.py,
-- query_nodes.py, query_turn_nodes.py, query_ambiguity_nodes.py and query_optimizer_nodes.py.
pub mod State
pub mod Nodes
pub mod Graph
pub mod Ready
pub mod Leads
pub mod Runs
pub mod Measure
pub mod Decreases
pub mod Termination
pub mod Answers
pub mod Questions
pub mod Delta
pub mod Frames
pub mod Provenance
pub mod Traces
pub mod Executed
pub mod Served
pub mod Sample
mod Tests
