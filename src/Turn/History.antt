-- ===== src/Turn/History.antt =====
-- The history of the threads: the two tables of migrations/versions/0011, the statements of
-- genql/repositories/query/sqlalchemy_thread_repository.py and sqlalchemy_turn_record_repository.py
-- on them, and `record_turn` of genql/api/query_turn.py. A row of
-- turns is held as it is read back. `SQLAlchemyError` is what a statement raises when the database
-- fails.
use gen_ql.Base.{
  ℕ, String, Bool, ◌&&◌, not, Option, none, some, List, [], ◌∷◌, ◌++◌, map, keep, any, length, eqb,
  leb, if◌then◌else◌, ◌==◌, text_take, Error, query_error, unknown_thread_error,
  thread_ownership_error, python_error, Result, ok, err,
}
use gen_ql.Entities.{ExecutionResult}
use gen_ql.Turn.Response.{TurnResponse}
use gen_ql.Turn.Events.{StageEvent}
use gen_ql.Turn.Blocking.{Save}

pub record ThreadSummary : Type 0 where
  pub thread_id : String
  pub user_id : String
  pub datasource_name : String
  pub title : String
  pub created_at : ℕ
  pub last_active_at : ℕ

pub record TurnRecord : Type 0 where
  pub turn_id : String
  pub thread_id : String
  pub sequence : ℕ
  pub question : String
  pub validated_sql : Option String
  pub clarifying_question : Option String
  pub result : Option ExecutionResult
  pub applied_defaults : List (String × String)
  pub stages : List StageEvent
  pub created_at : ℕ

pub record Tables : Type 0 where
  pub threads : List ThreadSummary
  pub turns : List TurnRecord

-- What the JSON columns give back of a result and of an event, after pydantic's `model_dump` in JSON
-- mode and `model_validate` (a Decimal or a date comes back as its text), and the database's `now()`.
pub record Columns : Type 0 where
  pub result_back : ExecutionResult → ExecutionResult
  pub stage_back : StageEvent → StageEvent
  pub clock : ℕ

-- Which of the statements of one call the database fails, and what its columns keep.
pub record Database : Type 0 where
  pub columns : Columns
  pub list_fails : Bool
  pub create_fails : Bool
  pub touch_fails : Bool
  pub append_fails : Bool

abbrev pub database_error : Error
database_error = python_error "SQLAlchemyError"

abbrev pub is_thread : String → ThreadSummary → Bool
is_thread thread_id t = t.thread_id == thread_id

abbrev pub is_turn_of : String → TurnRecord → Bool
is_turn_of thread_id r = r.thread_id == thread_id

-- `INSERT … ON CONFLICT (thread_id) DO NOTHING`
unfoldable pub create : String → String → String → String → ℕ → Tables → Tables
create thread_id user_id datasource_name title now tables =
    if any (is_thread thread_id) tables.threads then tables else record tables {
      threads =
          tables.threads
          ++ record {
            thread_id = thread_id;
            user_id = user_id;
            datasource_name = datasource_name;
            title = title;
            created_at = now;
            last_active_at = now;
          }
            ∷ [];
    }

abbrev pub touched : String → ℕ → ThreadSummary → ThreadSummary
touched thread_id now t = if is_thread thread_id t then record t { last_active_at = now } else t

unfoldable pub touch : String → ℕ → Tables → Tables
touch thread_id now tables = record tables { threads = map (touched thread_id now) tables.threads }

-- `ORDER BY sequence ASC`
abbrev pub insert_turn : TurnRecord → List TurnRecord → List TurnRecord
insert_turn r [] = r ∷ []
insert_turn r (x ∷ xs) = if leb r.sequence x.sequence then r ∷ x ∷ xs else x ∷ insert_turn r xs

abbrev pub by_sequence : List TurnRecord → List TurnRecord
by_sequence [] = []
by_sequence (r ∷ rs) = insert_turn r (by_sequence rs)

unfoldable pub list_for_thread : String → Tables → List TurnRecord
list_for_thread thread_id tables = by_sequence (keep (is_turn_of thread_id) tables.turns)

-- The keys of a turn: its id, and its place in its thread.
abbrev pub clashes : TurnRecord → TurnRecord → Bool
clashes r x = x.turn_id == r.turn_id

abbrev pub same_place : TurnRecord → TurnRecord → Bool
same_place r x = is_turn_of r.thread_id x && eqb x.sequence r.sequence

abbrev pub result_stored : Columns → Option ExecutionResult → Option ExecutionResult
result_stored columns none = none
result_stored columns (some result) = some (columns.result_back result)

-- `_to_entity` of the row that the insertion makes: `created_at` is not inserted.
abbrev pub stored : Columns → TurnRecord → TurnRecord
stored columns r = record r {
  result = result_stored columns r.result;
  stages = map columns.stage_back r.stages;
  created_at = columns.clock;
}

-- The insertion of a turn, which the foreign key and the two unique keys may refuse.
unfoldable pub append : Columns → TurnRecord → Tables → Result Tables
append columns r tables =
    if not (any (is_thread r.thread_id) tables.threads)
    then err query_error
    else if any (clashes r) tables.turns
    then err query_error
    else if any (same_place r) tables.turns
    then err query_error
    else ok (record tables { turns = tables.turns ++ stored columns r ∷ [] })

-- The transaction of one statement: a refused one changes nothing.
abbrev pub applied : Tables → Result Tables → Tables × Result (Unit {0})
applied tables (ok tables') = (tables', ok tt)
applied tables (err e) = (tables, err e)

unfoldable pub append_turn : Database → TurnRecord → Tables → Tables × Result (Unit {0})
unfolding append
append_turn o r tables =
    if o.append_fails then (tables, err query_error) else applied tables (append o.columns r tables)

-- The thread's row: made with the first turn, touched with every other.
unfoldable pub open_thread :
    Database
    → ℕ
    → String
    → String
    → Option String
    → String
    → ℕ
    → Tables
    → Tables × Result (Unit {0})
unfolding create touch
open_thread o sequence thread_id user_id none question now tables =
    if eqb sequence 0
    then (tables, err (python_error "AssertionError"))
    else if o.touch_fails
    then (tables, err database_error)
    else (touch thread_id now tables, ok tt)
open_thread o sequence thread_id user_id (some datasource) question now tables =
    if eqb sequence 0
    then if o.create_fails
      then (tables, err query_error)
      else (create thread_id user_id datasource (text_take 80 question) now tables, ok tt)
    else if o.touch_fails
    then (tables, err database_error)
    else (touch thread_id now tables, ok tt)

abbrev pub then_append :
    Database → TurnRecord → Tables × Result (Unit {0}) → Tables × Result (Unit {0})
then_append o r (tables, ok _) = append_turn o r tables
then_append o r (tables, err e) = (tables, err e)

module _ {F : Type 0} where
  -- The record of a response, at a place in its thread.
  abbrev pub turn_record :
      String → String → ℕ → String → TurnResponse F → List StageEvent → ℕ → TurnRecord
  turn_record turn_id thread_id sequence question response stages now = record {
    turn_id = turn_id;
    thread_id = thread_id;
    sequence = sequence;
    question = question;
    validated_sql = response.validated_sql;
    clarifying_question = response.clarifying_question;
    result = response.result;
    applied_defaults = response.applied_defaults;
    stages = stages;
    created_at = now;
  }

  unfoldable pub record_turn :
      Database → String → ℕ → String → String → Option String → String → Save F Tables
  unfolding list_for_thread open_thread append_turn
  record_turn o turn_id now thread_id user_id datasource question response stages tables =
      let sequence = length (list_for_thread thread_id tables) in
      if o.list_fails
      then (tables, err database_error)
      else then_append o (turn_record turn_id thread_id sequence question response stages now)
          (open_thread o sequence thread_id user_id datasource question now tables)

-- `ThreadService.get_thread`
abbrev pub find_thread : String → List ThreadSummary → Option ThreadSummary
find_thread thread_id [] = none
find_thread thread_id (t ∷ ts) = if is_thread thread_id t then some t else find_thread thread_id ts

unfoldable pub get_thread : String → String → Tables → Result (ThreadSummary × List TurnRecord)
unfolding list_for_thread
get_thread user_id thread_id tables = elim (find_thread thread_id tables.threads) [
  | none ↦ err unknown_thread_error
  | some t ↦
      if t.user_id == user_id
      then ok (t, list_for_thread thread_id tables)
      else err thread_ownership_error
]
