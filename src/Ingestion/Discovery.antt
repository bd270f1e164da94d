-- ===== src/Ingestion/Discovery.antt =====
-- The discovery runner (genql/discovery/runner.py, genql/domain/ports/discovery_step.py,
-- genql/domain/value_objects/scope_run_result.py). The message of a result that a step raised is
-- the exception itself.
use gen_ql.Base.{
  ℕ, String, Bool, true, false, ◌&&◌, Option, none, some, List, [], ◌∷◌, map, all, contains,
  is_nonempty, if◌then◌else◌, ◌==◌, Error, is_genql_error, unknown_discovery_step_error, Result, ok,
  err, ◌>>=◌,
}

pub record SchemaRef : Type 0 where
  pub datasource_name : String
  pub schema_name : String

pub data Message : Type 0 where
  reported : String → Message
  raised : Error → Message

pub record StepResult : Type 0 where
  pub step_name : String
  pub succeeded : Bool
  pub records_written : ℕ
  pub message : Message

-- A step at a schema and a sample limit.
pub record DiscoveryStep : Type 0 where
  pub name : String
  pub run : SchemaRef → ℕ → Result StepResult

pub record ScopeRunResult : Type 0 where
  pub ref : SchemaRef
  pub results : List StepResult

abbrev pub all_succeeded : List StepResult → Bool
all_succeeded results = is_nonempty results && all (λ (r : StepResult). r.succeeded) results

-- The property `ScopeRunResult.succeeded`.
abbrev pub succeeded_scope : ScopeRunResult → Bool
succeeded_scope o = all_succeeded o.results

abbrev pub failed_result : String → Error → StepResult
failed_result name e = record {
  step_name = name;
  succeeded = false;
  records_written = 0;
  message = raised e;
}

-- The `try`/`except GenqlError` around one step.
abbrev pub result_of : String → Result StepResult → Result StepResult
result_of name (ok r) = ok r
result_of name (err e) = if is_genql_error e then ok (failed_result name e) else err e

-- The loop of `run`: it ends after the first step that did not succeed.
unfoldable pub run_steps : SchemaRef → ℕ → List DiscoveryStep → Result (List StepResult)
run_steps ref limit [] = ok []
run_steps ref limit (step ∷ steps) = do
  result ← result_of step.name (step.run ref limit)
  elim result.succeeded [
    | false ↦ ok (result ∷ [])
    | true ↦ do rest ← run_steps ref limit steps; ok (result ∷ rest)
  ]

unfoldable pub steps_from : String → List DiscoveryStep → List DiscoveryStep
steps_from name [] = []
steps_from name (s ∷ ss) = if s.name == name then s ∷ ss else steps_from name ss

-- `_select`
unfoldable pub select_steps : Option String → List DiscoveryStep → Result (List DiscoveryStep)
unfolding steps_from
select_steps none steps = ok steps
select_steps (some start_from) steps =
    if contains (map (λ (s : DiscoveryStep). s.name) steps) start_from
    then ok (steps_from start_from steps)
    else err unknown_discovery_step_error

unfoldable pub run_discovery :
    List DiscoveryStep → SchemaRef → ℕ → Option String → Result (List StepResult)
unfolding select_steps run_steps
run_discovery steps ref limit start_from = select_steps start_from steps >>= run_steps ref limit

-- `_run_ref`, with the schema that it stamps as discovered, if any.
unfoldable pub run_ref :
    List DiscoveryStep → ℕ → Option String → SchemaRef → Result (ScopeRunResult × Option SchemaRef)
unfolding run_discovery
run_ref steps limit start_from ref = elim (run_discovery steps ref limit start_from) [
  | err e ↦
      if is_genql_error e
      then ok (record { ref = ref; results = failed_result "discovery" e ∷ [] }, none)
      else err e
  | ok results ↦
      ok (record { ref = ref; results = results }, if all_succeeded results then some ref else none)
]

unfoldable pub run_refs :
    List DiscoveryStep
    → ℕ
    → Option String
    → List SchemaRef
    → Result (List (ScopeRunResult × Option SchemaRef))
unfolding run_ref
run_refs steps limit start_from [] = ok []
run_refs steps limit start_from (ref ∷ refs) = do
  outcome ← run_ref steps limit start_from ref
  rest ← run_refs steps limit start_from refs
  ok (outcome ∷ rest)

-- `run_scope` on the references of the scope.
unfoldable pub run_scope :
    List DiscoveryStep
    → ℕ
    → Option String
    → List SchemaRef
    → Result (List (ScopeRunResult × Option SchemaRef))
unfolding select_steps run_refs
run_scope steps limit start_from refs = do
  _ ← select_steps start_from steps
  run_refs steps limit start_from refs
