-- ===== src/Pipeline/Ready.antt =====
-- What holds of the state before each node, and at each end of a turn.
use gen_ql.Base.{Bool, true, false, Option, none, some, ◌≡◌, ◌≢◌, length, is_nonempty, is_some, ◌⊎◌}
use gen_ql.Entities.{OptimizationResult, AmbiguityAssessment}
use gen_ql.Pipeline.State.{QueryState}
use gen_ql.Pipeline.Graph.{
  Node, intent_classification, domain_scoping, schema_linking, ambiguity_gate, ambiguity_interrupt,
  planning, candidate_generation, static_validation, critique, ambiguity_probing,
  candidate_selection, rewrite_and_cost_gate, guarded_execution, Config, at, ended, waiting, failed,
}

module _ {F : Type 0} where
  abbrev pub IsAnalytical : QueryState F → Type 0
  IsAnalytical s = s.intent ≡ some "analytical_sql"

  -- Nothing was chosen, costed or run.
  abbrev pub Unserved : QueryState F → Type 0
  Unserved s = (s.validated_sql ≡ none) × (s.optimization ≡ none) × (s.result ≡ none)

  abbrev pub IsPlanned : QueryState F → Type 0
  IsPlanned s = is_some s.plan ≡ true

  -- A candidate, and a statement for each candidate.
  abbrev pub Surviving : QueryState F → Type 0
  Surviving s = (is_nonempty s.candidates ≡ true) × (length s.validated_sqls ≡ length s.candidates)

  abbrev pub says_ambiguous : Option (AmbiguityAssessment F) → Bool
  says_ambiguous none = false
  says_ambiguous (some a) = a.is_ambiguous

  -- The cost gate has judged the statement at hand.
  abbrev pub Judged : Bool → QueryState F → Type 0
  Judged within s =
      (o : OptimizationResult F) × (s.optimization ≡ some o)
      × (o.within_budget ≡ within)
      × (s.validated_sql ≡ some o.sql)

  abbrev pub Ready : Node → QueryState F → Type 0
  Ready intent_classification s = Unserved s
  Ready domain_scoping s = IsAnalytical s × Unserved s
  Ready schema_linking s = IsAnalytical s × Unserved s
  Ready ambiguity_gate s = IsAnalytical s × Unserved s
  Ready ambiguity_interrupt s = IsAnalytical s × Unserved s × (says_ambiguous s.ambiguity ≡ true)
  Ready planning s = IsAnalytical s × Unserved s
  Ready candidate_generation s = IsAnalytical s × Unserved s × IsPlanned s
  Ready static_validation s = IsAnalytical s × Unserved s × IsPlanned s
  Ready critique s = IsAnalytical s × Unserved s × IsPlanned s × Surviving s
  Ready ambiguity_probing s = IsAnalytical s × Unserved s × IsPlanned s × Surviving s
  Ready candidate_selection s = IsAnalytical s × Unserved s × IsPlanned s × Surviving s
  Ready rewrite_and_cost_gate s =
      IsAnalytical s
      × (s.optimization ≡ none)
      × (s.result ≡ none)
      × IsPlanned s
      × (is_some s.selection ≡ true)
  Ready guarded_execution s = IsAnalytical s × (s.result ≡ none) × IsPlanned s × Judged true s

  -- The three ways to END: another intent, over budget, or served.
  abbrev pub Final : QueryState F → Type 0
  Final s =
      ((s.intent ≢ some "analytical_sql") × Unserved s)
      ⊎ (IsAnalytical s × (s.result ≡ none) × Judged false s)
      ⊎ (IsAnalytical s × (is_some s.result ≡ true) × Judged true s)

  abbrev pub IsSound : Config F → Type 0
  IsSound (at n s t) = Ready n s
  IsSound (ended s) = Final s
  IsSound (waiting s t p) = Ready ambiguity_interrupt s
  IsSound (failed e) = Unit
