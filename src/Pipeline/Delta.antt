-- ===== src/Pipeline/Delta.antt =====
-- What a node returns: the keys of the state that it writes, and `merged.update(delta)`. Each
-- line is a `return` of a node class in genql/api: query_nodes.py, query_turn_nodes.py,
-- query_ambiguity_nodes.py and query_optimizer_nodes.py.
use gen_ql.Base.{
  ℕ, String, Bool, not, ◌&&◌, Option, none, some, List, is_some, if◌then◌else◌, GuardrailViolation,
}
use gen_ql.Entities.{
  SchemaLink, AmbiguityAssessment, QueryPlan, SqlCandidate, CritiqueReport, ProbeResult,
  CandidateSelection, OptimizationResult, ExecutionResult,
}
use gen_ql.Pipeline.State.{QueryState}
use gen_ql.Pipeline.Ready.{says_ambiguous}
use gen_ql.Pipeline.Graph.{
  Node, intent_classification, domain_scoping, schema_linking, ambiguity_gate, ambiguity_interrupt,
  planning, candidate_generation, static_validation, critique, ambiguity_probing,
  candidate_selection, rewrite_and_cost_gate, guarded_execution,
}

-- A partial state: `none` for a key that is not there.
pub record Delta (F : Type 0) : Type 0 where
  pub intent : Option (Option String)
  pub domain_id : Option (Option ℕ)
  pub links : Option (Option (List SchemaLink))
  pub ambiguity : Option (Option (AmbiguityAssessment F))
  pub contested : Option Bool
  pub gate_scores : Option (List (String × F))
  pub assumptions : Option (List (String × String))
  pub clarifications : Option (List (String × String))
  pub plan : Option (Option QueryPlan)
  pub candidates : Option (List SqlCandidate)
  pub retry_count : Option ℕ
  pub validated_sqls : Option (List String)
  pub violations : Option (List GuardrailViolation)
  pub escalated : Option Bool
  pub critique_reports : Option (List (CritiqueReport F))
  pub probe_results : Option (List ProbeResult)
  pub selection : Option (Option CandidateSelection)
  pub optimization : Option (Option (OptimizationResult F))
  pub validated_sql : Option (Option String)
  pub result : Option (Option ExecutionResult)

abbrev pub no_keys : {F : Type 0} → Delta F
no_keys = record {
  intent = none;
  domain_id = none;
  links = none;
  ambiguity = none;
  contested = none;
  gate_scores = none;
  assumptions = none;
  clarifications = none;
  plan = none;
  candidates = none;
  retry_count = none;
  validated_sqls = none;
  violations = none;
  escalated = none;
  critique_reports = none;
  probe_results = none;
  selection = none;
  optimization = none;
  validated_sql = none;
  result = none;
}

abbrev pub written : {A : Type 0} → Option A → A → A
written none old = old
written (some new) old = new

-- `merged.update(delta)`
abbrev pub merge_delta : {F : Type 0} → Delta F → QueryState F → QueryState F
merge_delta d s = record s {
  intent = written d.intent s.intent;
  domain_id = written d.domain_id s.domain_id;
  links = written d.links s.links;
  ambiguity = written d.ambiguity s.ambiguity;
  contested = written d.contested s.contested;
  gate_scores = written d.gate_scores s.gate_scores;
  assumptions = written d.assumptions s.assumptions;
  clarifications = written d.clarifications s.clarifications;
  plan = written d.plan s.plan;
  candidates = written d.candidates s.candidates;
  retry_count = written d.retry_count s.retry_count;
  validated_sqls = written d.validated_sqls s.validated_sqls;
  violations = written d.violations s.violations;
  escalated = written d.escalated s.escalated;
  critique_reports = written d.critique_reports s.critique_reports;
  probe_results = written d.probe_results s.probe_results;
  selection = written d.selection s.selection;
  optimization = written d.optimization s.optimization;
  validated_sql = written d.validated_sql s.validated_sql;
  result = written d.result s.result;
}

module _ {F : Type 0} where
  -- The key `escalated` is there only where the node sets it.
  abbrev pub escalation : QueryState F → QueryState F → Option Bool
  escalation before after =
      if after.escalated && not before.escalated then some after.escalated else none

  -- What the node returned, from the state before it and the state after it.
  abbrev pub delta_of : Node → QueryState F → QueryState F → Delta F
  delta_of intent_classification before after = record no_keys { intent = some after.intent }
  delta_of domain_scoping before after =
      if is_some before.domain_id
      then no_keys
      else record no_keys { domain_id = some after.domain_id }
  delta_of schema_linking before after = record no_keys { links = some after.links }
  delta_of ambiguity_gate before after = record no_keys {
    ambiguity = some after.ambiguity;
    contested = if says_ambiguous after.ambiguity then none else some after.contested;
    gate_scores = some after.gate_scores;
    assumptions = some after.assumptions;
  }
  delta_of ambiguity_interrupt before after =
      if says_ambiguous before.ambiguity
      then record no_keys { clarifications = some after.clarifications }
      else no_keys
  delta_of planning before after = record no_keys { plan = some after.plan }
  delta_of candidate_generation before after = record no_keys {
    candidates = some after.candidates;
    retry_count = some after.retry_count;
  }
  delta_of static_validation before after = record no_keys {
    candidates = some after.candidates;
    validated_sqls = some after.validated_sqls;
    violations = some after.violations;
    escalated = escalation before after;
  }
  delta_of critique before after = record no_keys {
    critique_reports = some after.critique_reports;
    escalated = escalation before after;
  }
  delta_of ambiguity_probing before after = record no_keys {
    probe_results = some after.probe_results;
  }
  delta_of candidate_selection before after = record no_keys {
    selection = some after.selection;
    validated_sql = some after.validated_sql;
  }
  delta_of rewrite_and_cost_gate before after = record no_keys {
    optimization = some after.optimization;
    validated_sql = some after.validated_sql;
  }
  delta_of guarded_execution before after = record no_keys { result = some after.result }
