-- ===== src/Pipeline/State.antt =====
-- `QueryState`, and the services that the nodes call.
use gen_ql.Base.{ℕ, String, Bool, false, Option, none, List, [], GuardrailViolation, Result}
use gen_ql.Entities.{
  SchemaLink, AmbiguityAssessment, QueryPlan, SqlCandidate, CritiqueReport, ProbeResult,
  CandidateSelection, OptimizationResult, ExecutionResult,
}

pub record QueryState (F : Type 0) : Type 0 where
  pub question : String
  pub datasource_name : String
  pub thread_id : String
  pub domain_id : Option ℕ
  pub trace_parent : Option String
  pub intent : Option String
  pub ambiguity : Option (AmbiguityAssessment F)
  pub clarifications : List (String × String)
  pub gate_scores : List (String × F)
  pub assumptions : List (String × String)
  pub links : Option (List SchemaLink)
  pub plan : Option QueryPlan
  pub candidates : List SqlCandidate
  pub validated_sqls : List String
  pub contested : Bool
  pub critique_reports : List (CritiqueReport F)
  pub probe_results : List ProbeResult
  pub selection : Option CandidateSelection
  pub escalated : Bool
  pub optimization : Option (OptimizationResult F)
  pub validated_sql : Option String
  pub result : Option ExecutionResult
  pub retry_count : ℕ
  pub violations : List GuardrailViolation

unfoldable pub initial_state :
    {F : Type 0} → String → String → String → Option ℕ → Option String → QueryState F
initial_state question datasource_name thread_id domain_id trace_parent = record {
  question = question;
  datasource_name = datasource_name;
  thread_id = thread_id;
  domain_id = domain_id;
  trace_parent = trace_parent;
  intent = none;
  ambiguity = none;
  clarifications = [];
  gate_scores = [];
  assumptions = [];
  links = none;
  plan = none;
  candidates = [];
  validated_sqls = [];
  contested = false;
  critique_reports = [];
  probe_results = [];
  selection = none;
  escalated = false;
  optimization = none;
  validated_sql = none;
  result = none;
  retry_count = 0;
  violations = [];
}

-- The services of the nodes. The first argument counts the nodes that ran before, so that a model
-- or a warehouse may answer the same call differently at another time.
pub record Services (F : Type 0) : Type 0 where
  pub classify : ℕ → String → Result String
  pub resolve_domain : ℕ → String → String → Result (Option ℕ)
  pub link : ℕ → String → String → Option ℕ → Result (List SchemaLink)
  pub assess :
      ℕ
      → String
      → String
      → List (String × String)
      → List SchemaLink
      → List (String × F)
      → Result (AmbiguityAssessment F)
  pub plan :
      ℕ
      → String
      → List SchemaLink
      → List (String × String)
      → List (String × String)
      → Result QueryPlan
  pub generate :
      ℕ
      → QueryPlan
      → List SchemaLink
      → List GuardrailViolation
      → Option ℕ
      → Bool
      → Bool
      → Result (List SqlCandidate)
  pub validate : ℕ → SqlCandidate → String → Result String
  pub critique :
      ℕ
      → QueryPlan
      → List SqlCandidate
      → List String
      → List SchemaLink
      → Result (List (CritiqueReport F))
  pub probe :
      ℕ
      → QueryPlan
      → List SqlCandidate
      → List String
      → List (CritiqueReport F)
      → String
      → Result (List ProbeResult)
  pub optimize : ℕ → QueryPlan → String → List SchemaLink → String → Result (OptimizationResult F)
  pub execute : ℕ → String → String → Result ExecutionResult
  pub recorder : Option (ℕ → String → List String → F → String → Result (Unit {0}))
  pub contested_min_resolved : ℕ
  pub skip_margin : Option F
