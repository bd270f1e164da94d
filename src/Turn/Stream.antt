-- ===== src/Turn/Stream.antt =====
-- The events of a turn: genql/api/sse/event_stream.py, over what genql/api/query_stream.py yields.
-- The trace is not modelled.
use gen_ql.Base.{
  ℕ, zero, suc, String, Option, none, some, List, [], ◌∷◌, ◌++◌, map, if◌then◌else◌, Error,
  is_genql_error, unknown_thread_error, Result, ok, err, FloatOps,
}
use gen_ql.Pipeline.State.{Services, initial_state}
use gen_ql.Pipeline.Nodes.{ambiguity_interrupt_node}
use gen_ql.Pipeline.Graph.{
  ambiguity_interrupt, Config, at, ended, waiting, failed, settle, run_node, start,
}
use gen_ql.Turn.Response.{TurnResponse, to_response}
use gen_ql.Turn.Wording.{Texts}
use gen_ql.Turn.Events.{StageEvent, Progress, fresh_progress, absorb}
use gen_ql.Turn.Blocking.{Save, recursion_error}

pub data Event (F : Type 0) : Type 0 where
  stage_event : StageEvent → Event F
  warning_event error_event : Error → Event F
  clarification_event result_event : TurnResponse F → Event F

-- The events that went out, and the exception that broke the stream off, if one did.
pub record Streamed (F : Type 0) (Store : Type 0) : Type 0 where
  pub events : List (Event F)
  pub broken_by : Option Error
  pub store : Store

module _ {F : Type 0} where
  unfoldable pub terminal : TurnResponse F → Event F
  terminal response = elim response.clarifying_question [
    | none ↦ result_event response
    | some _ ↦ clarification_event response
  ]

  -- The end of a stream whose turn was saved, or failed to be: the latter is a warning.
  unfoldable pub finish_saved :
      {Store : Type 0}
      → List StageEvent
      → TurnResponse F
      → Store × Result (Unit {0})
      → Streamed F Store
  unfolding terminal
  finish_saved collected response (store, ok _) = record {
    events = map stage_event collected ++ terminal response ∷ [];
    broken_by = none;
    store = store;
  }
  finish_saved collected response (store, err e) =
      if is_genql_error e
      then record {
        events = map stage_event collected ++ warning_event e ∷ terminal response ∷ [];
        broken_by = none;
        store = store;
      }
      else record { events = map stage_event collected; broken_by = some e; store = store }

  -- The stream after the graph is drained: the response is saved, where there is a history.
  unfoldable pub finish_stream :
      {Store : Type 0}
      → Option (Save F Store)
      → List StageEvent
      → TurnResponse F
      → Store
      → Streamed F Store
  unfolding finish_saved
  finish_stream none collected response store = finish_saved collected response (store, ok tt)
  finish_stream (some save) collected response store =
      finish_saved collected response (save response collected store)

  -- The stream where draining the graph raised.
  unfoldable pub break_stream :
      {Store : Type 0} → List StageEvent → Error → Store → Streamed F Store
  break_stream collected e store =
      if is_genql_error e
      then record {
        events = map stage_event collected ++ error_event e ∷ [];
        broken_by = none;
        store = store;
      }
      else record { events = map stage_event collected; broken_by = some e; store = store }

  unfoldable pub conclude_stream :
      {Store : Type 0}
      → Option (Save F Store)
      → String
      → Config F × Progress F
      → Store
      → Streamed F Store
  unfolding finish_stream break_stream to_response
  conclude_stream save thread_id (failed e, p) store = break_stream p.collected e store
  conclude_stream save thread_id (at n s t, p) store =
      break_stream p.collected recursion_error store
  conclude_stream save thread_id (ended s, p) store =
      finish_stream save p.collected (to_response thread_id p.merged) store
  conclude_stream save thread_id (waiting s t q, p) store =
      finish_stream save p.collected (to_response thread_id p.merged) store

module _ {F : Type 0} ⦃ops : FloatOps F⦄ (sv : Services F) (w : Texts F) where
  -- The graph's chunks, drained: where the turn stands, and what was accumulated.
  unfoldable pub drain : ℕ → Config F → Progress F → Config F × Progress F
  unfolding settle run_node absorb
  drain zero c p = (c, p)
  drain (suc fuel) (at n s t) p =
      drain fuel (settle s n t (run_node sv n t s)) (absorb w s n (run_node sv n t s) p)
  drain (suc fuel) c p = (c, p)

  module _ {Store : Type 0} (save : Option (Save F Store)) (thread_id : String) where
    -- `stage_event_stream` of a question. The merged state has no trace.
    unfoldable pub stream_question :
        ℕ → String → String → Option ℕ → Option String → Store → Streamed F Store
    unfolding drain conclude_stream start initial_state
    stream_question limit question datasource domain_id trace_parent store =
        conclude_stream save thread_id
          (drain limit (start question datasource thread_id domain_id trace_parent)
            (fresh_progress (initial_state question datasource thread_id domain_id none)))
          store

    -- `stage_event_stream` of an answer to a thread that stands at `c`. The merged state starts
    -- with no more than the request, whatever the thread's state holds.
    unfoldable pub stream_answer :
        ℕ → String → String → String → Option ℕ → Config F → Store → Streamed F Store
    unfolding drain conclude_stream absorb settle initial_state break_stream
    stream_answer limit answer question datasource domain_id (waiting s t p) store =
        let outcome = ambiguity_interrupt_node (some answer) s in
        conclude_stream save thread_id
          (drain limit (settle s ambiguity_interrupt t outcome) (
            absorb w s ambiguity_interrupt outcome
              (fresh_progress (initial_state question datasource thread_id domain_id none))))
          store
    stream_answer limit answer question datasource domain_id c store =
        break_stream [] unknown_thread_error store
