-- ===== src/Evaluation/Total.antt =====
-- A run of the golden set returns, and reports every case
-- (genql/services/eval/golden_evaluation_service.py).
use gen_ql.Base.{
  ℕ, String, Bool, true, false, not, Option, none, some, List, [], ◌∷◌, ◌≡◌, inl, inr, refl, arith,
  is_some, Option-cases, Bool-cases, Result, ok, err, Error, is_genql_error,
}
use gen_ql.Entities.{ExecutionResult}
use gen_ql.Turn.Response.{TurnResponse}
use gen_ql.Evaluation.Comparator.{Mismatch, compare, map_result}
use gen_ql.Evaluation.Golden.{
  GoldenCase, GoldenOutcome, GoldenRunReport, Evaluator, Reason, reference_truncated, why_no_result,
  failed_outcome, unless_genql, compared_outcome, judge_rows, judge_response, judge_turn,
  judge_reference, run_case, run_golden,
}
use gen_ql.Evaluation.Rows.{IsRectangular, compare-ok, compare-told}

-- Each outcome is the one of its case: a pass with no reason, or a failure with one.
abbrev pub Accounts : {F : Type 0} → List GoldenCase → List (GoldenOutcome F) → Type 0
Accounts [] [] = Unit
Accounts (c ∷ cs) (o ∷ os) =
    (o.case_id ≡ c.case_id)
    × (o.failure_class ≡ c.failure_class)
    × (is_some o.failure_reason ≡ not o.passed)
    × Accounts cs os
Accounts _ _ = ⊥

module _ {F : Type 0} (v : Evaluator F) where
  -- The statements and the turns raise only exceptions of the program, and the rows of a turn are
  -- whole.
  pub record IsTame : Type 0 where
    pub known_statement :
        (sql datasource : String) (e : Error)
        → v.execute sql datasource ≡ err e
        → is_genql_error e ≡ true
    pub known_turn :
        (question datasource : String) (domain_id : Option ℕ) (e : Error)
        → v.run_question question datasource domain_id ≡ err e
        → is_genql_error e ≡ true
    pub whole_rows :
        (question datasource : String) (domain_id : Option ℕ) (response : TurnResponse F)
        (rows : ExecutionResult)
        → v.run_question question datasource domain_id ≡ ok response
        → response.result ≡ some rows
        → IsRectangular rows

  -- The outcome of one case.
  abbrev Explained : GoldenCase → GoldenOutcome F → Type 0
  Explained c o =
      (o.case_id ≡ c.case_id)
      × (o.failure_class ≡ c.failure_class)
      × (is_some o.failure_reason ≡ not o.passed)

  abbrev Judged : GoldenCase → Result (GoldenOutcome F) → Type 0
  Judged c call = (o : GoldenOutcome F) × (call ≡ ok o) × Explained c o

  unless-Judged :
      (c : GoldenCase) (e : Error) (sql : Option String) (reason : Reason F)
      → is_genql_error e ≡ true
      → Judged c (unless_genql e (failed_outcome c sql reason))
  unless-Judged c e sql reason known =
      (failed_outcome c sql reason, rw known refl, (refl, refl, refl))

  compared-Explained :
      (c : GoldenCase) (response : TurnResponse F) (reference generated : ExecutionResult)
      (b : Bool) (m : Option Mismatch)
      → compare v.float_key reference generated ≡ ok (b, m)
      → Explained c (compared_outcome c response (b, m))
  compared-Explained c response reference generated true m e = (refl, refl, refl)
  compared-Explained c response reference generated false (some m) e = (refl, refl, refl)
  compared-Explained c response reference generated false none e =
      absurd (cc (compare-told v.float_key reference generated false none e))

  rows-Judged :
      (c : GoldenCase) (expected rows : ExecutionResult) (response : TurnResponse F)
      → response.result ≡ some rows
      → IsRectangular rows
      → Judged c (judge_rows v c expected response)
  unfolding judge_rows
  rows-Judged c expected rows response has_rows whole =
      let ((b, m), compared) = compare-ok v.float_key expected rows whole in
      (
        compared_outcome c response (b, m),
        rw (has_rows, compared) refl,
        compared-Explained c response expected rows b m compared,
      )

  has_rows :
      (response : TurnResponse F)
      → why_no_result response ≡ none
      → (rows : ExecutionResult) × (response.result ≡ some rows)
  unfolding why_no_result
  has_rows response h = elim (Option-cases response.result) [
    | inr found ↦ found
    | inl no_rows ↦ absurd (ground arith)
  ]

  response-Judged :
      (c : GoldenCase) (expected : ExecutionResult) (response : TurnResponse F)
      → ((rows : ExecutionResult) → response.result ≡ some rows → IsRectangular rows)
      → Judged c (judge_response v c expected response)
  unfolding judge_response
  response-Judged c expected response whole = elim (Option-cases (why_no_result response)) [
    | inr (reason, stopped) ↦ (
      failed_outcome c response.validated_sql reason,
      rw (judge_response, stopped) refl,
      (refl, refl, refl),
    )
    | inl nothing ↦
        let (rows, found) = has_rows response nothing in
        let (o, judged, explained) =
          rows-Judged c expected rows response found (whole rows found) in
        (o, rw (judge_response, nothing) judged, explained)
  ]

  turn-Judged :
      (c : GoldenCase) (expected : ExecutionResult) (turn : Result (TurnResponse F))
      → IsTame
      → v.run_question c.question c.datasource_name c.domain_id ≡ turn
      → Judged c (judge_turn v c expected turn)
  unfolding judge_turn
  turn-Judged c expected (err e) tame same =
      unless-Judged c e none _ (tame.known_turn c.question c.datasource_name c.domain_id e same)
  turn-Judged c expected (ok response) tame same =
      response-Judged c expected response
        (λ rows. tame.whole_rows c.question c.datasource_name c.domain_id response rows same)

  reference-Judged :
      (c : GoldenCase) (reference : Result ExecutionResult)
      → IsTame
      → v.execute c.reference_sql c.datasource_name ≡ reference
      → Judged c (judge_reference v c reference)
  unfolding judge_reference
  reference-Judged c (err e) tame same =
      unless-Judged c e none _ (tame.known_statement c.reference_sql c.datasource_name e same)
  reference-Judged c (ok expected) tame same = elim (Bool-cases expected.truncated) [
    | inl cut ↦ (failed_outcome c none reference_truncated, rw cut refl, (refl, refl, refl))
    | inr whole ↦ rw whole (turn-Judged c expected _ tame refl)
  ]

  cases-Account :
      (cases : List GoldenCase)
      → IsTame
      → (outcomes : List (GoldenOutcome F)) × (map_result (run_case v) cases ≡ ok outcomes)
        × Accounts cases outcomes
  unfolding run_case
  cases-Account [] tame = ([], refl, tt)
  cases-Account (c ∷ cs) tame =
      let (o, judged, (i, f, e)) = reference-Judged c _ tame refl in
      let (os, rest, accounts) = cases-Account cs tame in
      (o ∷ os, rw (judged, rest) refl, (i, f, e, accounts))

  -- Where the statements and the turns raise only exceptions of the program and the rows of a turn
  -- are whole, a run of the golden set returns, whatever happens in a case: its report has one
  -- outcome for each case, in their order, with a reason exactly where the case did not pass.
  pub run_golden-Accounts :
      (ablation_name : String) (cases : List GoldenCase)
      → IsTame
      → (report : GoldenRunReport F) × (run_golden v ablation_name cases ≡ ok report)
        × Accounts cases report.outcomes
  unfolding run_golden
  run_golden-Accounts ablation_name cases tame =
      let (outcomes, made, accounts) = cases-Account cases tame in
      (record { ablation_name = ablation_name; outcomes = outcomes }, rw made refl, accounts)
