-- ===== src/Evaluation/Golden.antt =====
-- The run of the golden set: genql/services/eval/golden_evaluation_service.py, with its entities
-- genql/domain/entities/golden_case.py, golden_outcome.py and golden_run_report.py. The clock is not
-- modelled; a reason is the case that its sentence tells, with what the sentence quotes.
use gen_ql.Base.{
  ℕ, String, Bool, true, false, Option, none, some, List, keep, length, if◌then◌else◌, ◌==◌, Error,
  is_genql_error, python_error, Result, ok, err, ◌>>=◌,
}
use gen_ql.Entities.{ExecutionResult}
use gen_ql.Turn.Response.{TurnResponse}
use gen_ql.Evaluation.Comparator.{Mismatch, compare, map_result}

pub record GoldenCase : Type 0 where
  pub case_id : String
  pub question : String
  pub datasource_name : String
  pub reference_sql : String
  pub failure_class : String
  pub domain_id : Option ℕ

pub data Reason (F : Type 0) : Type 0 where
  reference_failed : Error → Reason F
  reference_truncated : Reason F
  turn_failed : Error → Reason F
  paused_for : String → Reason F
  stopped_by_budget : F × F → Reason F
  short_circuited_as : String → Reason F
  no_result : Reason F
  mismatched : Mismatch → Reason F

pub record GoldenOutcome (F : Type 0) : Type 0 where
  pub case_id : String
  pub failure_class : String
  pub passed : Bool
  pub generated_sql : Option String
  pub failure_reason : Option (Reason F)

pub record GoldenRunReport (F : Type 0) : Type 0 where
  pub ablation_name : String
  pub outcomes : List (GoldenOutcome F)

-- The statements that the guarded execution runs, the turns of the runner, and the comparator.
pub record Evaluator (F : Type 0) : Type 0 where
  pub execute : String → String → Result ExecutionResult
  pub run_question : String → String → Option ℕ → Result (TurnResponse F)
  pub float_key : String → Option String

module _ {F : Type 0} where
  unfoldable pub passed_count : GoldenRunReport F → ℕ
  passed_count r = length (keep (λ (o : GoldenOutcome F). o.passed) r.outcomes)

  unfoldable pub counts_for : GoldenRunReport F → String → ℕ × ℕ
  counts_for r failure_class =
      let matching = keep (λ (o : GoldenOutcome F). o.failure_class == failure_class) r.outcomes in
      (length (keep (λ (o : GoldenOutcome F). o.passed) matching), length matching)

  -- `_why_no_result`
  unfoldable pub why_no_result : TurnResponse F → Option (Reason F)
  why_no_result r = elim r.clarifying_question [
    | some question ↦ some (paused_for question)
    | none ↦ elim r.narrowing_suggestion [
      | some suggestion ↦ some (stopped_by_budget suggestion)
      | none ↦ elim r.intent [
        | some intent ↦ some (short_circuited_as intent)
        | none ↦ elim r.result [ none ↦ some no_result | some _ ↦ none ]
      ]
    ]
  ]

  -- `_failed`
  abbrev pub failed_outcome : GoldenCase → Option String → Reason F → GoldenOutcome F
  failed_outcome c sql reason = record {
    case_id = c.case_id;
    failure_class = c.failure_class;
    passed = false;
    generated_sql = sql;
    failure_reason = some reason;
  }

  -- `except GenqlError as exc`
  abbrev pub unless_genql : Error → GoldenOutcome F → Result (GoldenOutcome F)
  unless_genql e outcome = if is_genql_error e then ok outcome else err e

  -- A reason where the comparator gives one; a mismatch always has one.
  abbrev pub reason_for : Bool → Option Mismatch → Option (Reason F)
  reason_for true mismatch = none
  reason_for false none = none
  reason_for false (some m) = some (mismatched m)

  -- The outcome of a compared case.
  abbrev pub compared_outcome :
      GoldenCase → TurnResponse F → Bool × Option Mismatch → GoldenOutcome F
  compared_outcome c response (matched, mismatch) = record {
    case_id = c.case_id;
    failure_class = c.failure_class;
    passed = matched;
    generated_sql = response.validated_sql;
    failure_reason = reason_for matched mismatch;
  }

  module _ (v : Evaluator F) where
    unfoldable pub judge_rows :
        GoldenCase → ExecutionResult → TurnResponse F → Result (GoldenOutcome F)
    unfolding compare
    judge_rows c expected response = elim response.result [
      | none ↦ err (python_error "AssertionError")
      | some rows ↦ do
        compared ← compare v.float_key expected rows
        ok (compared_outcome c response compared)
    ]

    unfoldable pub judge_response :
        GoldenCase → ExecutionResult → TurnResponse F → Result (GoldenOutcome F)
    unfolding why_no_result judge_rows
    judge_response c expected response = elim (why_no_result response) [
      | some reason ↦ ok (failed_outcome c response.validated_sql reason)
      | none ↦ judge_rows c expected response
    ]

    unfoldable pub judge_turn :
        GoldenCase → ExecutionResult → Result (TurnResponse F) → Result (GoldenOutcome F)
    unfolding judge_response
    judge_turn c expected (err e) = unless_genql e (failed_outcome c none (turn_failed e))
    judge_turn c expected (ok response) = judge_response c expected response

    unfoldable pub judge_reference : GoldenCase → Result ExecutionResult → Result (GoldenOutcome F)
    unfolding judge_turn
    judge_reference c (err e) = unless_genql e (failed_outcome c none (reference_failed e))
    judge_reference c (ok expected) =
        if expected.truncated
        then ok (failed_outcome c none reference_truncated)
        else judge_turn c expected (v.run_question c.question c.datasource_name c.domain_id)

    -- `_run_case`
    unfoldable pub run_case : GoldenCase → Result (GoldenOutcome F)
    unfolding judge_reference
    run_case c = judge_reference c (v.execute c.reference_sql c.datasource_name)

    unfoldable pub run_golden : String → List GoldenCase → Result (GoldenRunReport F)
    unfolding run_case
    run_golden ablation_name cases = do
      outcomes ← map_result run_case cases
      ok (record { ablation_name = ablation_name; outcomes = outcomes })
