-- ===== src/Turn/Response.antt =====
-- The response of one turn: genql/domain/entities/turn_response.py, and `to_response` of
-- genql/api/query_turn.py.
use gen_ql.Base.{
  ℕ, String, Bool, not, ◌&&◌, Option, none, some, List, [], length, is_some, is_empty,
  if◌then◌else◌,
}
use gen_ql.Entities.{OptimizationResult, SelectionMethod, Rationale, ExecutionResult}
use gen_ql.Pipeline.State.{QueryState}
use gen_ql.Pipeline.Nodes.{Payload}

pub record TurnResponse (F : Type 0) : Type 0 where
  pub thread_id : String
  pub clarifying_question : Option String
  pub suggested_answer : Option String
  pub clarification_options : List String
  pub intent : Option String
  pub validated_sql : Option String
  pub result : Option ExecutionResult
  pub applied_defaults : List (String × String)
  pub assumed : List (String × String)
  pub narrowing_suggestion : Option (F × F)
  pub rewrite_rules_applied : List String
  pub plan_text : Option String
  pub referenced_objects : List String
  pub selection_method : Option SelectionMethod
  pub selection_rationale : Option Rationale
  pub candidate_count : ℕ
  pub probe_count : ℕ

-- What the graph hands back: the state, and the payload under `__interrupt__` of a paused turn.
pub record Raw (F : Type 0) : Type 0 where
  pub state : QueryState F
  pub interrupt : Option Payload

-- `str(suggested) if suggested else None`
unfoldable pub suggestion_of : Option String → Option String
suggestion_of none = none
suggestion_of (some text) = if is_empty text then none else some text

module _ {F : Type 0} where
  unfoldable pub applied_defaults_of : QueryState F → List (String × String)
  applied_defaults_of s = elim s.ambiguity [ none ↦ [] | some a ↦ a.applied_defaults ]

  unfoldable pub assumed_of : QueryState F → List (String × String)
  assumed_of s = elim s.ambiguity [ none ↦ [] | some a ↦ a.assumed ]

  unfoldable pub over_budget : Option (OptimizationResult F) → Bool
  over_budget o = elim o [ none ↦ Bool.false | some r ↦ not r.within_budget ]

  unfoldable pub short_circuited : QueryState F → Bool
  unfolding over_budget
  short_circuited s =
      not (is_some s.validated_sql) && not (is_some s.result) && not (over_budget s.optimization)

  -- `optimization.narrowing_suggestion if optimization is not None and over_budget else None`
  unfoldable pub narrowing_of : Option (OptimizationResult F) → Option (F × F)
  unfolding over_budget
  narrowing_of none = none
  narrowing_of (some r) = if over_budget (some r) then r.narrowing_suggestion else none

  -- The response of a paused turn.
  unfoldable pub clarification_response : String → QueryState F → Payload → TurnResponse F
  unfolding suggestion_of applied_defaults_of assumed_of
  clarification_response thread_id s payload = record {
    thread_id = thread_id;
    clarifying_question = some payload.question;
    suggested_answer = suggestion_of payload.suggested_answer;
    clarification_options = payload.options;
    intent = none;
    validated_sql = none;
    result = none;
    applied_defaults = applied_defaults_of s;
    assumed = assumed_of s;
    narrowing_suggestion = none;
    rewrite_rules_applied = [];
    plan_text = none;
    referenced_objects = [];
    selection_method = none;
    selection_rationale = none;
    candidate_count = 0;
    probe_count = 0;
  }

  -- The response of a turn that ran to its end.
  unfoldable pub final_response : String → QueryState F → TurnResponse F
  unfolding short_circuited narrowing_of applied_defaults_of assumed_of
  final_response thread_id s = record {
    thread_id = thread_id;
    clarifying_question = none;
    suggested_answer = none;
    clarification_options = [];
    intent = if short_circuited s then s.intent else none;
    validated_sql = s.validated_sql;
    result = s.result;
    applied_defaults = applied_defaults_of s;
    assumed = assumed_of s;
    narrowing_suggestion = narrowing_of s.optimization;
    rewrite_rules_applied = elim s.optimization [ none ↦ [] | some o ↦ o.rules_applied ];
    plan_text = elim s.plan [ none ↦ none | some p ↦ some p.plan_text ];
    referenced_objects = elim s.plan [ none ↦ [] | some p ↦ p.referenced_objects ];
    selection_method = elim s.selection [ none ↦ none | some c ↦ some c.method ];
    selection_rationale = elim s.selection [ none ↦ none | some c ↦ some c.rationale ];
    candidate_count = length s.candidates;
    probe_count = length s.probe_results;
  }

  unfoldable pub to_response : String → Raw F → TurnResponse F
  unfolding clarification_response final_response
  to_response thread_id raw = elim raw.interrupt [
    | none ↦ final_response thread_id raw.state
    | some payload ↦ clarification_response thread_id raw.state payload
  ]
