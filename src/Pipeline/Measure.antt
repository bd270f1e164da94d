-- ===== src/Pipeline/Measure.antt =====
-- A bound on the nodes that still run: the two retries of the generation are what it counts
-- (genql/api/query_nodes.py, genql/api/query_ambiguity_nodes.py).
use gen_ql.Base.{ℕ, ◌+◌, ◌*◌, ◌<◌, is_nonempty, eqb, if◌then◌else◌}
use gen_ql.Pipeline.State.{QueryState}
use gen_ql.Pipeline.Graph.{
  Node, intent_classification, domain_scoping, schema_linking, ambiguity_gate, ambiguity_interrupt,
  planning, candidate_generation, static_validation, critique, ambiguity_probing,
  candidate_selection, rewrite_and_cost_gate, guarded_execution, Config, at, route, goto,
}

module _ {F : Type 0} where
  abbrev pub escalations : QueryState F → ℕ
  escalations s = if s.escalated then 0 else 1

  -- The regenerations that are left once the candidates at hand were generated.
  abbrev pub rounds : QueryState F → ℕ
  rounds s = escalations s + (if eqb s.retry_count 0 then 1 else 0)

  -- The same before the generation, which counts a retry when there are violations.
  abbrev pub rounds_ahead : QueryState F → ℕ
  rounds_ahead s =
      escalations s + (if is_nonempty s.violations then 0 else if eqb s.retry_count 0 then 1 else 0)

  -- A bound on the nodes that still run.
  abbrev pub nodes_left : Node → QueryState F → ℕ
  nodes_left guarded_execution s = 1
  nodes_left rewrite_and_cost_gate s = 2
  nodes_left candidate_selection s = 3
  nodes_left ambiguity_probing s = 4
  nodes_left critique s = 5 + 3 * rounds s
  nodes_left static_validation s = 6 + 3 * rounds s
  nodes_left candidate_generation s = 7 + 3 * rounds_ahead s
  nodes_left planning s = 8 + 3 * rounds_ahead s
  nodes_left ambiguity_interrupt s = 1
  nodes_left ambiguity_gate s = 9 + 3 * rounds_ahead s
  nodes_left schema_linking s = 10 + 3 * rounds_ahead s
  nodes_left domain_scoping s = 11 + 3 * rounds_ahead s
  nodes_left intent_classification s = 12 + 3 * rounds_ahead s

  -- The bound of a configuration; one that is not before a node has none left.
  abbrev pub config_left : Config F → ℕ
  config_left (at n s t) = nodes_left n s
  config_left _ = 0

  abbrev pub IsHalted : Config F → Type 0
  IsHalted (at n s t) = ⊥
  IsHalted _ = Unit

  abbrev pub Decreases : Node → QueryState F → ℕ → QueryState F → Type 0
  Decreases n s t s' = config_left (goto (route n s') s' t) < nodes_left n s
