-- ===== src/Turn/Blocking.antt =====
-- The blocking call of a turn: `start_turn` and `resume_turn` of genql/api/query_turn.py. `limit` is
-- the number of nodes that the graph runs at most before it raises. The lock and the trace are not
-- modelled.
use gen_ql.Base.{
  ℕ, String, Option, none, some, List, [], Error, python_error, Result, ok, err, FloatOps, ◌>>=◌,
}
use gen_ql.Pipeline.State.{Services}
use gen_ql.Pipeline.Graph.{Config, at, ended, waiting, failed, run, start, resume}
use gen_ql.Turn.Response.{TurnResponse, Raw, to_response}
use gen_ql.Turn.Events.{StageEvent}

abbrev pub recursion_error : Error
recursion_error = python_error "GraphRecursionError"

-- `record_turn` with its collaborators, on the store of the histories.
abbrev pub Save : Type 0 → Type 0 → Type 0
Save F Store = TurnResponse F → List StageEvent → Store → Store × Result (Unit {0})

module _ {F : Type 0} where
  -- What `graph.invoke` hands back.
  unfoldable pub invoked : Config F → Result (Raw F)
  invoked (ended s) = ok (record { state = s; interrupt = none })
  invoked (waiting s t payload) = ok (record { state = s; interrupt = some payload })
  invoked (at n s t) = err recursion_error
  invoked (failed e) = err e

  -- The response, recorded where there is a history, with an empty trail; an exception of the
  -- history is one of the call.
  unfoldable pub recorded :
      {Store : Type 0}
      → Option (Save F Store)
      → Result (TurnResponse F)
      → Store
      → Store × Result (TurnResponse F)
  recorded save (err e) store = (store, err e)
  recorded none (ok response) store = (store, ok response)
  recorded (some save) (ok response) store =
      let (store', saved) = save response [] store in (store', saved >>= (λ done. ok response))

module _ {F : Type 0} ⦃ops : FloatOps F⦄ (sv : Services F) (thread_id : String) where
  -- `start_turn` up to the response.
  unfoldable pub asked_turn :
      ℕ → String → String → Option ℕ → Option String → Result (TurnResponse F)
  unfolding invoked run start to_response
  asked_turn limit question datasource domain_id trace_parent = do
    raw ← invoked (run sv limit (start question datasource thread_id domain_id trace_parent))
    ok (to_response thread_id raw)

  -- `resume_turn` up to the response.
  unfoldable pub answered_turn : ℕ → String → Config F → Result (TurnResponse F)
  unfolding invoked run resume to_response
  answered_turn limit answer c = do
    resumed ← resume answer c
    raw ← invoked (run sv limit resumed)
    ok (to_response thread_id raw)

  module _ {Store : Type 0} (save : Option (Save F Store)) where
    -- `start_turn`: the response, which is then recorded.
    unfoldable pub start_turn :
        ℕ → String → String → Option ℕ → Option String → Store → Store × Result (TurnResponse F)
    unfolding asked_turn recorded
    start_turn limit question datasource domain_id trace_parent =
        recorded save (asked_turn limit question datasource domain_id trace_parent)

    -- `resume_turn`: the response, which is then recorded.
    unfoldable pub resume_turn : ℕ → String → Config F → Store → Store × Result (TurnResponse F)
    unfolding answered_turn recorded
    resume_turn limit answer c = recorded save (answered_turn limit answer c)
