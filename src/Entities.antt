-- ===== src/Entities.antt =====
-- The entities that the online pipeline passes between its stages (genql/domain/entities).
-- Costs, scores and confidences are floats of the parameter type `F`; fields of other parts that
-- the modelled code never reads (timestamps, ids of rows) are left out.
use gen_ql.Base.{ℕ, ℤ, String, Bool, true, false, Option, List, any}

pub record SchemaLink : Type 0 where
  pub object_qualified_name : String
  pub column_names : List String
  pub join_paths : List String
  pub metric_names : List String
  pub domain_id : Option ℕ

pub record Rule : Type 0 where
  pub name : String
  pub dimension : String
  pub value : String
  pub description : String

-- What the ambiguity gate decided about one question.
pub record AmbiguityAssessment (F : Type 0) : Type 0 where
  pub is_ambiguous : Bool
  pub missing_dimension : Option String
  pub clarifying_question : Option String
  pub suggested_answer : Option String
  pub options : List String
  pub applied_defaults : List (String × String)
  pub assumed : List (String × String)
  pub dimension_scores : List (String × F)

pub record QueryPlan : Type 0 where
  pub question : String
  pub plan_text : String
  pub referenced_objects : List String

pub record SqlCandidate : Type 0 where
  pub sql : String
  pub plan : QueryPlan

pub data Severity : Type 0 where
  fatal repairable advisory : Severity

pub record Defect : Type 0 where
  pub dimension : Option String
  pub severity : Severity
  pub message : String

pub record CritiqueReport (F : Type 0) : Type 0 where
  pub candidate_index : ℕ
  pub defects : List Defect
  pub score : F

abbrev pub is_fatal_defect : Defect → Bool
is_fatal_defect d = elim d.severity [ fatal ↦ true | _ ↦ false ]

-- The property `CritiqueReport.is_fatal`.
abbrev pub is_fatal : {F : Type 0} → CritiqueReport F → Bool
is_fatal r = any is_fatal_defect r.defects

pub record AmbiguityProbe : Type 0 where
  pub dimension : String
  pub probe_sql : String
  pub candidate_predictions : List (ℤ × String)

pub record ProbeResult : Type 0 where
  pub probe : AmbiguityProbe
  pub actual_result : String
  pub resolved_candidate_index : Option ℤ

pub data SelectionMethod : Type 0 where
  single_survivor probe_resolved critique_ranked : SelectionMethod

-- The sentence that explains a selection, as its case and the candidate's index.
pub data Rationale : Type 0 where
  only_survivor no_report : Rationale
  resolved_in_favor_of : ℤ → Rationale
  highest_score : ℕ → Rationale

pub record CandidateSelection : Type 0 where
  pub selected : SqlCandidate
  pub selected_sql : String
  pub method : SelectionMethod
  pub rationale : Rationale

-- The narrowing suggestion is one fixed sentence with the ratio of the cost to the budget in it:
-- `some (cost, budget)` stands for it.
pub record OptimizationResult (F : Type 0) : Type 0 where
  pub sql : String
  pub rules_applied : List String
  pub estimated_cost : F
  pub within_budget : Bool
  pub narrowing_suggestion : Option (F × F)

-- A cell of a result. A number (an int, a Decimal or a float) is the text that `str` gives it, and so
-- is every cell of another type.
pub data Value : Type 0 where
  null : Value
  boolean : Bool → Value
  number text : String → Value

pub record ExecutionResult : Type 0 where
  pub columns : List String
  pub rows : List (List Value)
  pub row_count : ℕ
  pub truncated : Bool
