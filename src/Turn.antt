-- ===== src/Turn.antt =====
-- One turn as a client sees it: the blocking response, the stream of events, and the thread's
-- history (genql/api/query_turn.py, query_stream.py and sse/event_stream.py).
pub mod Response
pub mod Summary
pub mod Wording
pub mod Summaries
pub mod Events
pub mod Blocking
pub mod Stream
mod Fresh
mod Follows
mod Refines
pub mod History
mod Numbers
mod Saves
mod Terminal
mod Kinds
mod Unsaved
mod Brief
mod Tests
