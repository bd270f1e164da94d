-- ===== src/Pipeline/Graph.antt =====
-- The graph: its edges, one step, and the runs that start and resume a turn.
use gen_ql.Base.{
  ℕ, zero, suc, String, Option, none, some, is_nonempty, if◌then◌else◌, ◌==◌, Error,
  unknown_thread_error, Result, ok, err, FloatOps,
}
use gen_ql.Pipeline.State.{QueryState, Services, initial_state}
use gen_ql.Pipeline.Nodes.{
  Payload, Outcome, returned, paused, raised, plain, intent_classification_node,
  domain_scoping_node, schema_linking_node, ambiguity_gate_node, ambiguity_interrupt_node,
  planning_node, candidate_generation_node, static_validation_node, critique_node, all_fatal,
  ambiguity_probing_node, candidate_selection_node, rewrite_and_cost_gate_node,
  guarded_execution_node,
}

pub data Node : Type 0 where
  intent_classification domain_scoping schema_linking ambiguity_gate ambiguity_interrupt : Node
  planning candidate_generation static_validation critique ambiguity_probing : Node
  candidate_selection rewrite_and_cost_gate guarded_execution : Node

-- Where a turn stands: before a node, with the number of nodes that ran; at END; paused for an
-- answer; or stopped by an exception.
pub data Config (F : Type 0) : Type 0 where
  at : Node → QueryState F → ℕ → Config F
  ended : QueryState F → Config F
  waiting : QueryState F → ℕ → Payload → Config F
  failed : Error → Config F

module _ {F : Type 0} where
  unfoldable pub route_after_intent : QueryState F → Option Node
  route_after_intent s = elim s.intent [
    | none ↦ none
    | some i ↦ if i == "analytical_sql" then some domain_scoping else none
  ]

  unfoldable pub route_after_gate : QueryState F → Option Node
  route_after_gate s = elim s.ambiguity [
    | none ↦ some planning
    | some a ↦ if a.is_ambiguous then some ambiguity_interrupt else some planning
  ]

  unfoldable pub route_after_validation : QueryState F → Option Node
  route_after_validation s =
      if is_nonempty s.validated_sqls then some critique else some candidate_generation

  unfoldable pub route_after_critique : QueryState F → Option Node
  route_after_critique s =
      if all_fatal s.critique_reports then some candidate_generation else some ambiguity_probing

  unfoldable pub route_after_cost_gate : QueryState F → Option Node
  route_after_cost_gate s = elim s.optimization [
    | none ↦ none
    | some o ↦ if o.within_budget then some guarded_execution else none
  ]

  -- The edges of `build_query_graph`; `none` is END.
  unfoldable pub route : Node → QueryState F → Option Node
  unfolding route_after_intent route_after_gate route_after_validation route_after_critique
      route_after_cost_gate
  route intent_classification s = route_after_intent s
  route domain_scoping s = some schema_linking
  route schema_linking s = some ambiguity_gate
  route ambiguity_gate s = route_after_gate s
  route ambiguity_interrupt s = some ambiguity_gate
  route planning s = some candidate_generation
  route candidate_generation s = some static_validation
  route static_validation s = route_after_validation s
  route critique s = route_after_critique s
  route ambiguity_probing s = some candidate_selection
  route candidate_selection s = some rewrite_and_cost_gate
  route rewrite_and_cost_gate s = route_after_cost_gate s
  route guarded_execution s = none

  unfoldable pub goto : Option Node → QueryState F → ℕ → Config F
  goto none s t = ended s
  goto (some n) s t = at n s t

  -- What follows a node that ran as number `t`.
  unfoldable pub settle : QueryState F → Node → ℕ → Outcome (QueryState F) → Config F
  unfolding route goto
  settle before n t (returned s) = goto (route n s) s (suc t)
  settle before n t (paused p) = waiting before t p
  settle before n t (raised e) = failed e

module _ {F : Type 0} ⦃ops : FloatOps F⦄ (sv : Services F) where
  unfoldable pub run_node : Node → ℕ → QueryState F → Outcome (QueryState F)
  run_node intent_classification t s = plain (intent_classification_node sv t s)
  run_node domain_scoping t s = plain (domain_scoping_node sv t s)
  run_node schema_linking t s = plain (schema_linking_node sv t s)
  run_node ambiguity_gate t s = plain (ambiguity_gate_node sv t s)
  run_node ambiguity_interrupt t s = ambiguity_interrupt_node none s
  run_node planning t s = plain (planning_node sv t s)
  run_node candidate_generation t s = plain (candidate_generation_node sv t s)
  run_node static_validation t s = plain (static_validation_node sv t s)
  run_node critique t s = plain (critique_node sv t s)
  run_node ambiguity_probing t s = plain (ambiguity_probing_node sv t s)
  run_node candidate_selection t s = plain (candidate_selection_node sv t s)
  run_node rewrite_and_cost_gate t s = plain (rewrite_and_cost_gate_node sv t s)
  run_node guarded_execution t s = plain (guarded_execution_node sv t s)

  unfoldable pub step : Config F → Config F
  unfolding run_node settle
  step (at n s t) = settle s n t (run_node n t s)
  step (ended s) = ended s
  step (waiting s t p) = waiting s t p
  step (failed e) = failed e

  -- `graph.invoke`, for at most `fuel` nodes.
  unfoldable pub run : ℕ → Config F → Config F
  unfolding step
  run zero c = c
  run (suc fuel) c = run fuel (step c)

-- `run_query`: a turn starts at the classification, from the initial state.
unfoldable pub start : {F : Type 0} → String → String → String → Option ℕ → Option String → Config F
unfolding initial_state
start question datasource thread domain_id trace_parent =
    at intent_classification (initial_state question datasource thread domain_id trace_parent) 0

-- `resume_query`: the interrupted node runs again with the answer.
unfoldable pub resume : {F : Type 0} → String → Config F → Result (Config F)
unfolding settle
resume answer (waiting s t p) =
    ok (settle s ambiguity_interrupt t (ambiguity_interrupt_node (some answer) s))
resume answer (at n s t) = err unknown_thread_error
resume answer (ended s) = err unknown_thread_error
resume answer (failed e) = err unknown_thread_error
