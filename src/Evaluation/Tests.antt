-- ===== src/Evaluation/Tests.antt =====
-- Two results in other orders, a golden set of two cases, and the theorems on them.
use gen_ql.Base.{
  ℕ, String, true, false, none, some, [], ◌∷◌, ◌≡◌, ◌⊎◌, refl, ok, err, lower, ◌==◌, if◌then◌else◌,
  query_error, Bool, not, Result, arith, ap, ◌∙◌, subst, List, Option,
}
use gen_ql.Entities.{ExecutionResult, null, number, text}
use gen_ql.Turn.Response.{TurnResponse}
use gen_ql.Evaluation.Comparator.{compare, key_of, same_counter, generated_rows, result_mismatch}
use gen_ql.Evaluation.Golden.{GoldenCase, GoldenRunReport, Evaluator, run_golden}
use gen_ql.Evaluation.Ablations.{
  Ablation, RaisedBy, IsBaseline, run_ablations, run_ablations_restores,
}
use gen_ql.Evaluation.Rows.{IsRectangular}
use gen_ql.Evaluation.Total.{IsTame, Accounts, run_golden-Accounts}

-- Numbers are told apart by their texts, but for the two zeros.
abbrev plain_key : String → Option String
plain_key n = if n == "nan" then none else if n == "-0.0" then some "0.0" else some n

abbrev expected : ExecutionResult
expected = record {
  columns = "Store" ∷ "Sales" ∷ [];
  rows = (text "a" ∷ number "1.0" ∷ []) ∷ (text "b" ∷ null ∷ []) ∷ [];
  row_count = 2;
  truncated = false;
}

abbrev shuffled : ExecutionResult
shuffled = record {
  columns = "sales" ∷ "store" ∷ [];
  rows = (null ∷ text "b" ∷ []) ∷ (number "1.0" ∷ text "a" ∷ []) ∷ [];
  row_count = 2;
  truncated = false;
}

compare-shuffled : compare plain_key expected shuffled ≡ ok (true, none)
unfolding compare generated_rows lower key_of same_counter
compare-shuffled = refl

-- Of two columns of the same name only the first is read, so that such a result does not match
-- itself.
abbrev twice_named : ExecutionResult
twice_named = record {
  columns = "id" ∷ "id" ∷ [];
  rows = (number "1.0" ∷ number "2.0" ∷ []) ∷ [];
  row_count = 1;
  truncated = false;
}

twice_named_differs :
    compare plain_key twice_named twice_named ≡ ok (false, some (result_mismatch 1 1))
unfolding compare generated_rows lower key_of same_counter
twice_named_differs = refl

-- A result with a NaN does not match itself.
abbrev not_a_number : ExecutionResult
not_a_number = record {
  columns = "ratio" ∷ [];
  rows = (number "nan" ∷ []) ∷ [];
  row_count = 1;
  truncated = false;
}

nan_differs : compare plain_key not_a_number not_a_number ≡ ok (false, some (result_mismatch 1 1))
unfolding compare generated_rows lower key_of same_counter
nan_differs = refl

abbrev answer : TurnResponse ℕ
answer = record {
  thread_id = "t-1";
  clarifying_question = none;
  suggested_answer = none;
  clarification_options = [];
  intent = none;
  validated_sql = some "select";
  result = some shuffled;
  applied_defaults = [];
  assumed = [];
  narrowing_suggestion = none;
  rewrite_rules_applied = [];
  plan_text = none;
  referenced_objects = [];
  selection_method = none;
  selection_rationale = none;
  candidate_count = 1;
  probe_count = 0;
}

abbrev evaluator : Evaluator ℕ
evaluator = record {
  execute = λ sql datasource. if sql == "broken" then err query_error else ok expected;
  run_question = λ question datasource domain_id. ok answer;
  float_key = plain_key;
}

abbrev golden_case : String → String → GoldenCase
golden_case case_id sql = record {
  case_id = case_id;
  question = "sales by store";
  datasource_name = "local";
  reference_sql = sql;
  failure_class = "aggregation";
  domain_id = none;
}

whole_answer :
    (response : TurnResponse ℕ) (rows : ExecutionResult)
    → answer ≡ response
    → response.result ≡ some rows
    → IsRectangular rows
whole_answer response rows same has =
    let found : some shuffled ≡ some rows = ap (λ (r : TurnResponse ℕ). r.result) same ∙ has in
    let whole : shuffled ≡ rows = cc in subst IsRectangular whole (refl, (refl, tt))

evaluator-IsTame : IsTame evaluator
evaluator-IsTame = record {
  known_statement = λ sql datasource e failed. ground arith;
  known_turn = λ question datasource domain_id e failed. cc;
  whole_rows = λ question datasource domain_id response rows answered has.
      whole_answer response rows (cc) has;
}

abbrev golden_set : List GoldenCase
golden_set = golden_case "c-1" "select" ∷ golden_case "c-2" "broken" ∷ []

run_golden-Accounts_example :
    (report : GoldenRunReport ℕ) × (run_golden evaluator "full" golden_set ≡ ok report)
    × Accounts golden_set report.outcomes
run_golden-Accounts_example = run_golden-Accounts evaluator "full" golden_set evaluator-IsTame

-- The store tells whether the documents are the baseline's.
abbrev compile_for : Ablation → String → Bool → Bool × Result (Unit {0})
compile_for a datasource store = (not a.requires_recompile, ok tt)

IsBaseline-first : IsBaseline compile_for true
IsBaseline-first = record { undone = λ a datasource compiled restored. refl }

-- The evaluation of the recompiled ablation raises.
abbrev failing : Ablation → List GoldenCase → Bool → Result (GoldenRunReport ℕ)
failing a cases store = if store then run_golden evaluator a.name cases else err query_error

run_ablations_restores_example :
    ((run_ablations compile_for failing ("full" ∷ "no_descriptions" ∷ []) golden_set true).0 ≡ true)
    ⊎ RaisedBy compile_for
        (run_ablations compile_for failing ("full" ∷ "no_descriptions" ∷ []) golden_set true).1
run_ablations_restores_example =
    run_ablations_restores compile_for failing ("full" ∷ "no_descriptions" ∷ []) golden_set true
      IsBaseline-first
