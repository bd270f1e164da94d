-- ===== src/Turn/Events.antt =====
-- The stage events of a turn, and what the draining of the graph accumulates: stage_events.py and
-- the loop of event_stream.py in genql/api/sse. The clock (`duration_ms`) is not modelled.
use gen_ql.Base.{
  ℕ, suc, String, Option, none, some, List, [], ◌∷◌, ◌++◌, join, if◌then◌else◌, Dict, lookup,
  insert,
}
use gen_ql.Pipeline.State.{QueryState}
use gen_ql.Pipeline.Nodes.{Payload, Outcome, returned, paused, raised}
use gen_ql.Pipeline.Graph.{
  Node, intent_classification, domain_scoping, schema_linking, ambiguity_gate, ambiguity_interrupt,
  planning, candidate_generation, static_validation, critique, ambiguity_probing,
  candidate_selection, rewrite_and_cost_gate, guarded_execution,
}
use gen_ql.Turn.Response.{Raw}
use gen_ql.Pipeline.Delta.{Delta, merge_delta, delta_of}
use gen_ql.Turn.Summary.{StageSummary, reported}
use gen_ql.Turn.Wording.{Texts}
use gen_ql.Turn.Summaries.{summarise}

pub data StageStatus : Type 0 where
  completed paused_stage skipped_stage : StageStatus

pub record StageEvent : Type 0 where
  pub stage : String
  pub status : StageStatus
  pub detail : Option String
  pub facts : List (String × String)
  pub attempt : ℕ

abbrev pub node_name : Node → String
node_name intent_classification = "intent_classification"
node_name domain_scoping = "domain_scoping"
node_name schema_linking = "schema_linking"
node_name ambiguity_gate = "ambiguity_gate"
node_name ambiguity_interrupt = "ambiguity_interrupt"
node_name planning = "planning"
node_name candidate_generation = "candidate_generation"
node_name static_validation = "static_validation"
node_name critique = "critique"
node_name ambiguity_probing = "ambiguity_probing"
node_name candidate_selection = "candidate_selection"
node_name rewrite_and_cost_gate = "rewrite_and_cost_gate"
node_name guarded_execution = "guarded_execution"

-- `_interrupt_summary` of the mapping that the interrupt node passes.
unfoldable pub interrupt_summary : Payload → StageSummary
interrupt_summary payload = reported payload.question (
    ("question", payload.question)
    ∷ ("suggested answer", elim payload.suggested_answer [ none ↦ "" | some text ↦ text ])
    ∷ ("options", join ", " payload.options)
    ∷ [])

-- `to_stage_event` of the pseudo-node of a pause.
unfoldable pub pause_event : Payload → ℕ → StageEvent
pause_event payload attempt = record {
  stage = "ambiguity_gate";
  status = paused_stage;
  detail = (interrupt_summary payload).detail;
  facts = (interrupt_summary payload).facts;
  attempt = attempt;
}

-- `attempts[node]`, and `attempts[node] += 1`.
abbrev pub attempts_of : String → Dict ℕ → ℕ
attempts_of node attempts = elim (lookup attempts node) [ none ↦ 0 | some n ↦ n ]

abbrev pub count_attempt : String → Dict ℕ → Dict ℕ
count_attempt node attempts = insert node (suc (attempts_of node attempts)) attempts

-- What the draining of the graph accumulates.
pub record Progress (F : Type 0) : Type 0 where
  pub merged : Raw F
  pub attempts : Dict ℕ
  pub collected : List StageEvent

module _ {F : Type 0} where
  -- `to_stage_event` of a node.
  unfoldable pub node_event : Texts F → Node → Delta F → ℕ → StageEvent
  node_event w n d attempt = record {
    stage = node_name n;
    status = if (summarise w n d).did_run then completed else skipped_stage;
    detail = (summarise w n d).detail;
    facts = (summarise w n d).facts;
    attempt = attempt;
  }

  -- The body of the loop over the chunks, for a node that ran in the state `before`.
  unfoldable pub absorb :
      Texts F → QueryState F → Node → Outcome (QueryState F) → Progress F → Progress F
  unfolding node_event pause_event insert
  absorb w before n (returned after) p =
      let attempts = count_attempt (node_name n) p.attempts in
      let d = delta_of n before after in
      record {
        merged = record { state = merge_delta d p.merged.state; interrupt = p.merged.interrupt };
        attempts = attempts;
        collected = p.collected ++ node_event w n d (attempts_of (node_name n) attempts) ∷ [];
      }
  absorb w before n (paused payload) p =
      let attempts = count_attempt "__interrupt__" p.attempts in
      record {
        merged = record { state = p.merged.state; interrupt = some payload };
        attempts = attempts;
        collected = p.collected ++ pause_event payload (attempts_of "__interrupt__" attempts) ∷ [];
      }
  absorb w before n (raised e) p = p

abbrev pub fresh_progress : {F : Type 0} → QueryState F → Progress F
fresh_progress s = record {
  merged = record { state = s; interrupt = none };
  attempts = [];
  collected = [];
}
