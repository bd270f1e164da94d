-- ===== src/Evaluation/Verdicts.antt =====
-- When a golden case passes (genql/services/eval/golden_evaluation_service.py).
use gen_ql.Base.{
  String, Bool, true, false, Option, none, some, List, ◌≡◌, inl, inr, refl, arith, Option-cases,
  Bool-cases, Result-cases, ok, Error, is_genql_error, >>=-eq-ok, is_nonempty, ◌||◌,
}
use gen_ql.Entities.{ExecutionResult}
use gen_ql.Turn.Response.{TurnResponse}
use gen_ql.Evaluation.Comparator.{
  Key, Mismatch, compare, generated_rows, reference_rows, verdict, names_missing, lower_columns,
}
use gen_ql.Evaluation.Golden.{
  GoldenCase, GoldenOutcome, Evaluator, Reason, why_no_result, failed_outcome, unless_genql,
  compared_outcome, judge_rows, judge_response, judge_turn, judge_reference, run_case,
}
use gen_ql.Evaluation.Bags.{SameColumns, SameBag, compare_iff}

-- A match comes with no mismatch.
verdict-none :
    (reference generated : ExecutionResult) (xs ys : List (List Key)) (m : Option Mismatch)
    → verdict reference generated xs ys ≡ (true, m)
    → m ≡ none
verdict-none reference generated xs ys m h = ground arith

compare-none :
    (float_key : String → Option String) (reference generated : ExecutionResult)
    (m : Option Mismatch)
    → compare float_key reference generated ≡ ok (true, m)
    → m ≡ none
unfolding compare
compare-none float_key reference generated m h =
    let missing = names_missing (lower_columns reference) (lower_columns generated) in
    let extra = names_missing (lower_columns generated) (lower_columns reference) in
    elim (Bool-cases (is_nonempty missing || is_nonempty extra)) [
      | inl differ ↦ absurd (cc (rw differ at h))
      | inr agree ↦
          let (rows, made, judged) =
            >>=-eq-ok (generated_rows float_key reference generated) _ (rw agree at h) in
          verdict-none reference generated (reference_rows float_key reference) rows m (cc)
    ]

module _ {F : Type 0} (v : Evaluator F) where
  -- The turn ended with rows, and with nothing else to tell.
  abbrev pub Answered : TurnResponse F → ExecutionResult → Type 0
  Answered response rows =
      (response.clarifying_question ≡ none)
      × (response.narrowing_suggestion ≡ none)
      × (response.intent ≡ none)
      × (response.result ≡ some rows)

  -- The reference statement returned all of its rows, the turn ended with rows, and the two have
  -- the same columns and the same bag of rows, with no NaN among them.
  abbrev pub Passes : GoldenCase → Type 0
  Passes c =
      (expected : ExecutionResult) × (response : TurnResponse F) × (rows : ExecutionResult)
      × (v.execute c.reference_sql c.datasource_name ≡ ok expected)
      × (expected.truncated ≡ false)
      × (v.run_question c.question c.datasource_name c.domain_id ≡ ok response)
      × Answered response rows
      × SameColumns expected rows
      × SameBag v.float_key expected rows

  unless-fails :
      (e : Error) (c : GoldenCase) (sql : Option String) (reason : Reason F) (o : GoldenOutcome F)
      → unless_genql e (failed_outcome c sql reason) ≡ ok o
      → o.passed ≡ true
      → ⊥
  unless-fails e c sql reason o h p = elim (Bool-cases (is_genql_error e)) [
    | inl known ↦ cc (rw known at h)
    | inr unknown ↦ cc (rw unknown at h)
  ]

  compared-pass :
      (c : GoldenCase) (expected rows : ExecutionResult) (response : TurnResponse F) (b : Bool)
      (m : Option Mismatch) (o : GoldenOutcome F)
      → compare v.float_key expected rows ≡ ok (b, m)
      → ok (compared_outcome c response (b, m)) ≡ ok o
      → o.passed ≡ true
      → compare v.float_key expected rows ≡ ok (true, none)
  compared-pass c expected rows response true m o compared made p =
      rw (compared, compare-none v.float_key expected rows m compared) refl
  compared-pass c expected rows response false m o compared made p = cc

  rows-pass :
      (c : GoldenCase) (expected : ExecutionResult) (response : TurnResponse F)
      (o : GoldenOutcome F)
      → judge_rows v c expected response ≡ ok o
      → o.passed ≡ true
      → (rows : ExecutionResult) × (response.result ≡ some rows)
        × (compare v.float_key expected rows ≡ ok (true, none))
  unfolding judge_rows
  rows-pass c expected response o h p = elim (Option-cases response.result) [
    | inl no_rows ↦ absurd (cc (rw no_rows at h))
    | inr (rows, has_rows) ↦
        let ((b, m), compared, made) =
          >>=-eq-ok (compare v.float_key expected rows) _ (rw has_rows at h) in
        (rows, has_rows, compared-pass c expected rows response b m o compared made p)
  ]

  no_reason :
      (response : TurnResponse F)
      → why_no_result response ≡ none
      → (response.clarifying_question ≡ none)
        × (response.narrowing_suggestion ≡ none)
        × (response.intent ≡ none)
  unfolding why_no_result
  no_reason response h = ground arith

  response-pass :
      (c : GoldenCase) (expected : ExecutionResult) (response : TurnResponse F)
      (o : GoldenOutcome F)
      → judge_response v c expected response ≡ ok o
      → o.passed ≡ true
      → (rows : ExecutionResult) × Answered response rows
        × (compare v.float_key expected rows ≡ ok (true, none))
  unfolding judge_response
  response-pass c expected response o h p = elim (Option-cases (why_no_result response)) [
    | inr (reason, stopped) ↦ absurd (cc (rw (judge_response, stopped) at h))
    | inl nothing ↦
        let (rows, has_rows, compared) =
          rows-pass c expected response o (rw (judge_response, nothing) at h) p in
        let (q, n, i) = no_reason response nothing in (rows, (q, n, i, has_rows), compared)
  ]

  passed : (c : GoldenCase) (o : GoldenOutcome F) → run_case v c ≡ ok o → o.passed ≡ true → Passes c
  unfolding run_case judge_reference judge_turn
  passed c o h p = elim (Result-cases (v.execute c.reference_sql c.datasource_name)) [
    | inr (e, failed) ↦ absurd (unless-fails e c _ _ o (rw failed at h) p)
    | inl (expected, executed) ↦ elim (Bool-cases expected.truncated) [
      | inl cut ↦ absurd (cc (rw (executed, cut) at h))
      | inr whole ↦ elim (Result-cases (v.run_question c.question c.datasource_name c.domain_id)) [
        | inr (e, failed) ↦ absurd (unless-fails e c _ _ o (rw (executed, whole, failed) at h) p)
        | inl (response, answered) ↦
            let (rows, says, compared) =
              response-pass c expected response o (rw (executed, whole, answered) at h) p in
            let (columns, bags) = (compare_iff v.float_key expected rows).0 compared in
            (expected, response, rows, executed, whole, answered, says, columns, bags)
      ]
    ]
  ]
