-- ===== src/Turn/Saves.antt =====
-- What is recorded is what is listed (`record_turn` of genql/api/query_turn.py over the two tables).
use gen_ql.Base.{String, true, false, [], ◌∷◌, ◌++◌, ◌≡◌, keep, any, length}
use gen_ql.Turn.History.{TurnRecord, Tables, Database, Columns, stored, is_thread, is_turn_of}
use gen_ql.Turn.Numbers.{AreWhole}

-- The thread is there, no other thread went, and the turns are the same.
abbrev Opens : String → Tables → Tables → Type 0
Opens thread_id tables opened =
    (opened.turns ≡ tables.turns)
    × (any (is_thread thread_id) opened.threads ≡ true)
    × ((j : String)
        → any (is_thread j) tables.threads ≡ true
        → any (is_thread j) opened.threads ≡ true)

abbrev pub no_outages : Columns → Database
no_outages columns = record {
  columns = columns;
  list_fails = false;
  create_fails = false;
  touch_fails = false;
  append_fails = false;
}

module _ (columns : Columns) (thread_id : String) (tables opened : Tables) (r : TurnRecord)
    (whole : AreWhole tables) (opens : Opens thread_id tables opened)
    (mine : r.thread_id ≡ thread_id)
    (next : r.sequence ≡ length (keep (is_turn_of thread_id) tables.turns)) where
  grown : Tables
  grown = record opened { turns = opened.turns ++ stored columns r ∷ [] }
