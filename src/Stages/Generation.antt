-- ===== src/Stages/Generation.antt =====
-- The candidates of a plan: genql/services/query/candidate_generation_service.py. A strategy is a
-- call of a model; the calls of several run at once, and their results are read in order.
use gen_ql.Base.{
  ℕ, String, Bool, not, Option, List, [], ◌∷◌, ◌++◌, take, is_nonempty, if◌then◌else◌,
  GuardrailViolation, generation_error, python_error, Result, ok, err, ◌>>=◌,
}
use gen_ql.Entities.{SchemaLink, QueryPlan, SqlCandidate}

-- `CandidateStrategy.generate_variants`
abbrev pub Strategy : Type 0 → Type 0
Strategy Example =
    QueryPlan
    → List SchemaLink
    → List GuardrailViolation
    → List Example
    → Result (List SqlCandidate)

-- The strategies of the factory, by whether they are built with the escalation model.
pub record GenerationService (Example : Type 0) : Type 0 where
  pub default : Bool → Strategy Example
  pub strategies : Bool → List (Strategy Example)
  pub search : String → Option ℕ → ℕ → Result (List Example)
  pub example_top_k : ℕ

-- The variants of every strategy, one after the other: the first exception in their order is raised.
abbrev pub all_variants :
    {Example : Type 0}
    → List (Strategy Example)
    → QueryPlan
    → List SchemaLink
    → List GuardrailViolation
    → List Example
    → Result (List SqlCandidate)
all_variants [] plan links violations examples = ok []
all_variants (strategy ∷ rest) plan links violations examples = do
  variants ← strategy plan links violations examples
  others ← all_variants rest plan links violations examples
  ok (variants ++ others)

-- `ThreadPoolExecutor` takes no pool of no worker.
abbrev pub pooled : {A B : Type 0} → List A → Result B → Result B
pooled [] call = err (python_error "ValueError")
pooled (x ∷ xs) call = call

unfoldable pub generate :
    {Example : Type 0}
    → GenerationService Example
    → QueryPlan
    → List SchemaLink
    → List GuardrailViolation
    → Option ℕ
    → Bool
    → Bool
    → Result (List SqlCandidate)
generate g plan links violations domain_id contested escalated =
    if not (is_nonempty links)
    then err generation_error
    else if contested
    then (do
      examples ← g.search plan.question domain_id g.example_top_k
      pooled (g.strategies escalated)
          (all_variants (g.strategies escalated) plan links violations examples))
    else (do variants ← g.default escalated plan links violations []; ok (take 1 variants))
