-- ===== src/Pipeline/Sample.antt =====
-- Services that the tests run: a gate that asks for the grain until there is an answer.
use gen_ql.Base.{ℕ, true, false, none, some, [], ◌∷◌, ok, milli, if◌then◌else◌, is_nonempty}
use gen_ql.Entities.{AmbiguityAssessment, QueryPlan, ExecutionResult, number}
use gen_ql.Gate.{cleared}
use gen_ql.Pipeline.State.{QueryState, Services, initial_state}
use gen_ql.Pipeline.Graph.{Config, at, ended, waiting, failed, start}

abbrev pub plan : QueryPlan
plan = record { question = "q"; plan_text = "p"; referenced_objects = [] }

abbrev pub asked : AmbiguityAssessment ℕ
asked = record {
  is_ambiguous = true;
  missing_dimension = some "grain";
  clarifying_question = some "By month?";
  suggested_answer = none;
  options = [];
  applied_defaults = [];
  assumed = [];
  dimension_scores = [];
}

abbrev pub rows : ExecutionResult
rows = record {
  columns = "n" ∷ [];
  rows = (number "1" ∷ []) ∷ [];
  row_count = 1;
  truncated = false;
}

abbrev pub services : Services ℕ
services = record {
  classify = λ t question. ok "analytical_sql";
  resolve_domain = λ t question datasource. ok none;
  link = λ t question datasource domain_id. ok [];
  assess = λ t question datasource answers links scores.
      ok (if is_nonempty answers then cleared [] [] [] else asked);
  plan = λ t question links answers assumptions. ok plan;
  generate = λ t plan links violations domain_id contested escalated.
      ok (record { sql = "select"; plan = plan } ∷ []);
  validate = λ t candidate datasource. ok "select limit";
  critique = λ t plan candidates sqls links. ok [];
  probe = λ t plan candidates sqls reports datasource. ok [];
  optimize = λ t plan sql links datasource. ok (record {
    sql = sql;
    rules_applied = [];
    estimated_cost = 5;
    within_budget = true;
    narrowing_suggestion = none;
  });
  execute = λ t sql datasource. ok rows;
  recorder = none;
  contested_min_resolved = 2;
  skip_margin = none;
}

abbrev pub begin : Config ℕ
begin = start "total sales" "local" "t-1" none none

abbrev pub state_of : Config ℕ → QueryState ℕ
state_of (at n s t) = s
state_of (ended s) = s
state_of (waiting s t p) = s
state_of (failed e) = initial_state "" "" "" none none
