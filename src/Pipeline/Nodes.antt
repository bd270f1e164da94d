-- ===== src/Pipeline/Nodes.antt =====
-- The thirteen nodes. A node returns the state with its changes, pauses, or raises.
use gen_ql.Base.{
  ℕ, ◌+◌, String, Bool, true, false, not, ◌&&◌, ◌||◌, Option, none, some, List, [], ◌∷◌, ◌++◌,
  length, any, all, get_elem?, ◌⊎◌, inl, inr, is_nonempty, is_some, is_empty, eqb, leb,
  if◌then◌else◌, GuardrailViolation, Error, ambiguity_gate_error, static_validation_error,
  generation_error, critique_error, query_error, optimization_error, execution_error, Result, ok,
  err, ◌>>=◌, FloatOps,
}
use gen_ql.Entities.{
  AmbiguityAssessment, SqlCandidate, CritiqueReport, is_fatal, CandidateSelection, single_survivor,
  only_survivor,
}
use gen_ql.Selection.{select, critique_already_decisive, or_index_error}
use gen_ql.Pipeline.State.{QueryState, Services}

-- What AmbiguityInterruptNode hands to the user.
pub record Payload : Type 0 where
  pub question : String
  pub suggested_answer : Option String
  pub options : List String

pub data Outcome (A : Type 0) : Type 0 where
  returned : A → Outcome A
  paused : Payload → Outcome A
  raised : Error → Outcome A

-- A node that cannot pause.
abbrev pub plain : {A : Type 0} → Result A → Outcome A
plain (ok a) = returned a
plain (err e) = raised e

-- `xs or ()`
abbrev pub or_empty : {A : Type 0} → Option (List A) → List A
or_empty none = []
or_empty (some xs) = xs

abbrev pub or_raise : {A : Type 0} → Option A → Error → Result A
or_raise none e = err e
or_raise (some a) e = ok a

-- The `try`/`except StaticValidationError` around one candidate.
abbrev pub verdict_of : Result String → Result (String ⊎ List GuardrailViolation)
verdict_of (ok sql) = ok (inl sql)
verdict_of (err (static_validation_error vs)) = ok (inr vs)
verdict_of (err e) = err e

abbrev pub collect :
    SqlCandidate
    → String ⊎ List GuardrailViolation
    → List SqlCandidate × List String × List GuardrailViolation
    → List SqlCandidate × List String × List GuardrailViolation
collect c (inl sql) (survivors, sqls, violations) = (c ∷ survivors, sql ∷ sqls, violations)
collect c (inr vs) (survivors, sqls, violations) = (survivors, sqls, vs ++ violations)

module _ {F : Type 0} (sv : Services F) (t : ℕ) where
  unfoldable pub intent_classification_node : QueryState F → Result (QueryState F)
  intent_classification_node s = do
    intent ← sv.classify t s.question
    ok (record s { intent = some intent })

  unfoldable pub domain_scoping_node : QueryState F → Result (QueryState F)
  domain_scoping_node s = if is_some s.domain_id then ok s else (do
    domain_id ← sv.resolve_domain t s.question s.datasource_name
    ok (record s { domain_id = domain_id }))

  unfoldable pub schema_linking_node : QueryState F → Result (QueryState F)
  schema_linking_node s = do
    links ← sv.link t s.question s.datasource_name s.domain_id
    ok (record s { links = some links })

  unfoldable pub ambiguity_gate_node : QueryState F → Result (QueryState F)
  ambiguity_gate_node s = do
    a ← sv.assess t s.question s.datasource_name s.clarifications (or_empty s.links) s.gate_scores
    ok (record s {
      ambiguity = some a;
      contested =
          if a.is_ambiguous
          then s.contested
          else leb sv.contested_min_resolved (length s.clarifications);
      gate_scores = a.dimension_scores;
      assumptions = a.assumed;
    })

  unfoldable pub planning_node : QueryState F → Result (QueryState F)
  planning_node s = do
    plan ← sv.plan t s.question (or_empty s.links) s.clarifications s.assumptions
    ok (record s { plan = some plan })

  unfoldable pub candidate_generation_node : QueryState F → Result (QueryState F)
  candidate_generation_node s = do
    plan ← or_raise s.plan generation_error
    candidates ←
        sv.generate t plan (or_empty s.links) s.violations s.domain_id s.contested s.escalated
    ok (record s {
      candidates = candidates;
      retry_count = s.retry_count + (if is_nonempty s.violations then 1 else 0);
    })

  -- The loop of StaticValidationNode: survivors, their statements, and all violations.
  unfoldable pub validate_batch :
      String
      → List SqlCandidate
      → Result (List SqlCandidate × List String × List GuardrailViolation)
  validate_batch datasource [] = ok ([], [], [])
  validate_batch datasource (c ∷ cs) = do
    verdict ← verdict_of (sv.validate t c datasource)
    rest ← validate_batch datasource cs
    ok (collect c verdict rest)

abbrev no_candidates : GuardrailViolation
no_candidates = record {
  rule_name = "graph";
  message = "static validation was reached without any candidates";
  repairable = false;
}

abbrev pub some_repairable : List GuardrailViolation → Bool
some_repairable = any (λ (v : GuardrailViolation). v.repairable)

module _ {F : Type 0} where
  -- StaticValidationNode after the loop.
  unfoldable pub conclude_validation :
      QueryState F
      → List SqlCandidate × List String × List GuardrailViolation
      → Result (QueryState F)
  conclude_validation s (survivors, sqls, combined) =
      if is_nonempty survivors
      then ok (record s { candidates = survivors; validated_sqls = sqls; violations = [] })
      else if some_repairable combined && (not s.escalated && eqb s.retry_count 0)
      then ok (record s { candidates = []; validated_sqls = []; violations = combined })
      else if some_repairable combined && (s.contested && not s.escalated)
      then ok (record s {
        candidates = [];
        validated_sqls = [];
        violations = combined;
        escalated = true;
      })
      else err (static_validation_error combined)

  -- The question to the user; the first argument is the value that `interrupt` returns on a resume.
  unfoldable pub interrupt_ask :
      Option String
      → QueryState F
      → AmbiguityAssessment F
      → String
      → String
      → Outcome (QueryState F)
  interrupt_ask answer s a dimension question =
      if is_empty question then raised ambiguity_gate_error else elim answer [
        | none ↦ paused (record {
          question = question;
          suggested_answer = a.suggested_answer;
          options = a.options;
        })
        | some text ↦
            returned (record s { clarifications = s.clarifications ++ (dimension, text) ∷ [] })
      ]

  unfoldable pub interrupt_for :
      Option String → QueryState F → AmbiguityAssessment F → Outcome (QueryState F)
  unfolding interrupt_ask
  interrupt_for answer s a = elim a.missing_dimension [
    | none ↦ raised ambiguity_gate_error
    | some dimension ↦ elim a.clarifying_question [
      | none ↦ raised ambiguity_gate_error
      | some question ↦ interrupt_ask answer s a dimension question
    ]
  ]

  unfoldable pub ambiguity_interrupt_node : Option String → QueryState F → Outcome (QueryState F)
  unfolding interrupt_for
  ambiguity_interrupt_node answer s = elim s.ambiguity [
    | none ↦ returned s
    | some a ↦ if a.is_ambiguous then interrupt_for answer s a else returned s
  ]

  -- The guard that critique, probing and selection open with.
  abbrev pub uncontested : QueryState F → Bool
  uncontested s = not s.contested || leb (length s.candidates) 1

  abbrev pub all_fatal : List (CritiqueReport F) → Bool
  all_fatal reports = is_nonempty reports && all is_fatal reports

  -- CritiqueNode once the critic has answered.
  unfoldable pub conclude_critique : QueryState F → List (CritiqueReport F) → Result (QueryState F)
  conclude_critique s reports =
      if all_fatal reports
      then if s.escalated
        then err critique_error
        else ok (record s { critique_reports = reports; escalated = true })
      else ok (record s { critique_reports = reports })

-- The `except Exception` of GuardedExecutionNode: a failed recording changes nothing.
abbrev pub swallow : {A : Type 0} → Result (Unit {0}) → A → A
swallow (ok _) a = a
swallow (err _) a = a

module _ {F : Type 0} ⦃ops : FloatOps F⦄ (sv : Services F) (t : ℕ) where
  unfoldable pub static_validation_node : QueryState F → Result (QueryState F)
  unfolding conclude_validation
  static_validation_node s =
      if is_nonempty s.candidates
      then (validate_batch sv t s.datasource_name s.candidates >>= conclude_validation s)
      else err (static_validation_error (no_candidates ∷ []))

  unfoldable pub critique_node : QueryState F → Result (QueryState F)
  unfolding conclude_critique
  critique_node s = if uncontested s then ok (record s { critique_reports = [] }) else (do
    plan ← or_raise s.plan critique_error
    reports ← sv.critique t plan s.candidates s.validated_sqls (or_empty s.links)
    conclude_critique s reports)

  unfoldable pub ambiguity_probing_node : QueryState F → Result (QueryState F)
  ambiguity_probing_node s =
      if uncontested s || critique_already_decisive sv.skip_margin s.critique_reports
      then ok (record s { probe_results = [] })
      else (do
        plan ← or_raise s.plan query_error
        results ← sv.probe t plan s.candidates s.validated_sqls s.critique_reports s.datasource_name
        ok (record s { probe_results = results }))

  -- The selection of CandidateSelectionNode.
  unfoldable pub selection_for : QueryState F → Result CandidateSelection
  selection_for s =
      if uncontested s
      then (do
        selected ← or_index_error (get_elem? s.candidates 0)
        selected_sql ← or_index_error (get_elem? s.validated_sqls 0)
        ok (record {
          selected = selected;
          selected_sql = selected_sql;
          method = single_survivor;
          rationale = only_survivor;
        }))
      else select s.candidates s.validated_sqls s.critique_reports s.probe_results

  unfoldable pub candidate_selection_node : QueryState F → Result (QueryState F)
  unfolding selection_for
  candidate_selection_node s = do
    selection ← selection_for s
    ok (record s { selection = some selection; validated_sql = some selection.selected_sql })

  unfoldable pub rewrite_and_cost_gate_node : QueryState F → Result (QueryState F)
  rewrite_and_cost_gate_node s = do
    selection ← or_raise s.selection optimization_error
    plan ← or_raise s.plan optimization_error
    result ← sv.optimize t plan selection.selected_sql (or_empty s.links) s.datasource_name
    ok (record s { optimization = some result; validated_sql = some result.sql })

  -- The recorder runs only when there is one and the cost gate has run.
  unfoldable pub record_actuals : String → QueryState F → Result (Unit {0})
  record_actuals sql s = elim sv.recorder [
    | none ↦ ok tt
    | some write ↦ elim s.optimization [
      | none ↦ ok tt
      | some o ↦ write t sql o.rules_applied o.estimated_cost s.datasource_name
    ]
  ]

  unfoldable pub guarded_execution_node : QueryState F → Result (QueryState F)
  unfolding record_actuals
  guarded_execution_node s = do
    sql ← or_raise s.validated_sql execution_error
    result ← sv.execute t sql s.datasource_name
    ok (swallow (record_actuals sql s) (record s { result = some result }))
