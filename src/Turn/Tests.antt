-- ===== src/Turn/Tests.antt =====
-- The turns of the sample services, streamed and recorded, and the theorems on them.
use gen_ql.Base.{ℕ, map, true, none, some, List, [], ◌∷◌, ◌≡◌, ◌⊎◌, refl, ok, milli, str, All}
use gen_ql.Entities.{Value, number, text}
use gen_ql.Pipeline.State.{QueryState, Services, initial_state}
use gen_ql.Pipeline.Nodes.{intent_classification_node}
use gen_ql.Pipeline.Graph.{Config, ended, run, start}
use gen_ql.Pipeline.Sample.{services, begin, state_of}
use gen_ql.Pipeline.Runs.{Reach, started, Reach-run}
use gen_ql.Turn.Response.{TurnResponse, to_response}
use gen_ql.Turn.Wording.{Texts}
use gen_ql.Turn.Events.{fresh_progress}
use gen_ql.Turn.Blocking.{Save, asked_turn, invoked}
use gen_ql.Turn.Stream.{stream_question, drain}
use gen_ql.Turn.History.{
  TurnRecord, Tables, Database, Columns, record_turn, list_for_thread, turn_record,
}
use gen_ql.Turn.Terminal.{Ends, stream_question-Ends}
use gen_ql.Turn.Kinds.{SaysIntent, SaysOverBudget, SaysRows, to_response-Says}
use gen_ql.Turn.Brief.{IsBriefEvent, drain-AreBrief}
use gen_ql.Turn.Saves.{no_outages}
use gen_ql.Turn.Unsaved.{IsCutOff, unread_history_cuts_off}

abbrev texts : Texts ℕ
texts = record {
  float_text = str;
  fixed = λ places cost. str cost;
  rationale_text = λ rationale. "because";
  suggestion_text = λ costs. "narrow it";
}

abbrev empty_tables : Tables
empty_tables = record { threads = []; turns = [] }

-- The columns give the numbers of a result back as texts.
abbrev cell_back : Value → Value
cell_back (number n) = text n
cell_back v = v

abbrev columns : Columns
columns = record {
  result_back = λ r. record r { rows = map (map cell_back) r.rows };
  stage_back = λ stage. stage;
  clock = 6;
}

abbrev saved_by : Save ℕ Tables
saved_by = record_turn (no_outages columns) "tr-1" 5 "t-1" "ana" (some "local") "total sales"

abbrev asking : Config ℕ
asking = run services 18 (start "total sales" "local" "t-1" none none)

stream_question-Ends_example :
    Ends (some saved_by) (asked_turn services "t-1" 25 "total sales" "local" none none) (
      stream_question services texts
        (some saved_by)
        "t-1"
        25
        "total sales"
        "local"
        none
        none
        empty_tables)
stream_question-Ends_example =
    stream_question-Ends services texts (some saved_by) "t-1" 25 "total sales" "local" none none
      empty_tables

drain-AreBrief_example :
    All IsBriefEvent (drain services texts 25 begin (fresh_progress (state_of begin))).1.collected
drain-AreBrief_example = drain-AreBrief services texts 25 begin (fresh_progress (state_of begin)) tt

-- A question of another kind ends at once.
abbrev explaining : Services ℕ
explaining = record services { classify = λ t question. ok "schema_question" }

abbrev explained : QueryState ℕ
explained = record (initial_state "what is a store?" "local" "t-2" none none) {
  intent = some "schema_question";
}

explained_reached : Reach explaining (ended explained)
unfolding run start initial_state intent_classification_node
explained_reached = Reach-run explaining 1 (started "what is a store?" "local" "t-2" none none refl)

abbrev said : TurnResponse ℕ
said = to_response "t-2" (record { state = explained; interrupt = none })

to_response-Says_example :
    (said.clarifying_question ≡ none)
    × (SaysIntent explained said ⊎ (SaysOverBudget explained said ⊎ SaysRows explained said))
to_response-Says_example = to_response-Says explaining "t-2" explained explained_reached

explained_response : asked_turn explaining "t-2" 25 "what is a store?" "local" none none ≡ ok said
unfolding asked_turn invoked run start initial_state intent_classification_node
explained_response = refl

abbrev unreadable : Database
unreadable = record (no_outages columns) { list_fails = true }

unread_history_cuts_off_example : IsCutOff empty_tables (
    stream_question explaining texts
      (some (record_turn unreadable "tr-1" 5 "t-2" "ana" (some "local") "what is a store?"))
      "t-2"
      25
      "what is a store?"
      "local"
      none
      none
      empty_tables)
unread_history_cuts_off_example =
    unread_history_cuts_off explaining texts unreadable "tr-1" 5 25 "t-2" "ana" "what is a store?"
      "local" none none empty_tables said refl explained_response

-- A second turn of a thread that has one.
abbrev first_turn : TurnRecord
first_turn = turn_record "tr-0" "t-2" 0 "hello" said [] 3

abbrev tables : Tables
tables = record {
  threads =
      record {
        thread_id = "t-2";
        user_id = "ana";
        datasource_name = "local";
        title = "hello";
        created_at = 3;
        last_active_at = 3;
      }
      ∷ [];
  turns = first_turn ∷ [];
}

abbrev listed : List TurnRecord
listed = list_for_thread "t-2" tables
