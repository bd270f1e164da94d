-- ===== src/Ingestion/Stages.antt =====
-- The six stages of an ingestion and their sequencing
-- (genql/services/datasource/ingestion_service.py).
use gen_ql.Base.{
  ℕ, suc, ◌+◌, String, Bool, true, false, not, ◌&&◌, Option, none, some, List, [], ◌∷◌, map, keep,
  length, is_nonempty, eqb, if◌then◌else◌, ◌==◌, Error, empty_schema_error, discovery_error,
  validation_error, python_error, Result, ok, err, ◌>>=◌,
}
use gen_ql.Ingestion.{
  StepStatus, Detail, error_text, schemas_registered, schemas_discovered, no_overlay_file,
  overlay_applied, documents_embedded, graph_analyzed, domains_discovered, IngestionStep,
}
use gen_ql.Ingestion.Discovery.{SchemaRef, StepResult, ScopeRunResult, succeeded_scope}

pub record OverlayReport : Type 0 where
  pub objects_updated : ℕ
  pub columns_updated : ℕ
  pub metrics_written : ℕ
  pub rules_written : ℕ
  pub join_hints_written : ℕ

-- What the stages call: one field for each call of a collaborator.
pub record Collaborators (Overlay : Type 0) : Type 0 where
  pub register : SchemaRef → Result (Unit {0})
  pub list_registered : String → Result (List (String × Bool))
  pub run_scope : List SchemaRef → Result (List ScopeRunResult)
  pub load_overlay : String → Result (Option Overlay)
  pub apply_overlay : Overlay → Result OverlayReport
  pub compile : String → Result ℕ
  pub analyze : String → Result (ℕ × ℕ × ℕ)
  pub discover_domains : String → Result (ℕ × ℕ)

abbrev pub reported_step : String → StepStatus → Detail → ℕ → IngestionStep
reported_step name status detail written = record {
  name = name;
  status = status;
  detail = some detail;
  records_written = written;
  duration_ms = 0;
}

abbrev pub ref_of : String → String → SchemaRef
ref_of datasource name = record { datasource_name = datasource; schema_name = name }

-- The `try`/`except EmptySchemaError` around one registration.
abbrev pub is_registered : Result (Unit {0}) → Result Bool
is_registered (ok _) = ok true
is_registered (err empty_schema_error) = ok false
is_registered (err e) = err e

abbrev sort_name : Bool → String → List String × List String → List String × List String
sort_name true name (registered, rejected) = (name ∷ registered, rejected)
sort_name false name (registered, rejected) = (registered, name ∷ rejected)

unfoldable pub sum_records : List StepResult → ℕ
sum_records [] = 0
sum_records (r ∷ rs) = r.records_written + sum_records rs

unfoldable pub sum_scopes : List ScopeRunResult → ℕ
unfolding sum_records
sum_scopes [] = 0
sum_scopes (o ∷ os) = sum_records o.results + sum_scopes os

abbrev pub enabled_names : List (String × Bool) → List String
enabled_names rows = map (λ (r : String × Bool). r.0) (keep (λ (r : String × Bool). r.1) rows)

-- `next(r for r in failed[0].results if not r.succeeded)`
abbrev first_failure : List ScopeRunResult → Option StepResult
first_failure [] = none
first_failure (o ∷ _) = elim (keep (λ (r : StepResult). not r.succeeded) o.results) [
  | [] ↦ none
  | r ∷ _ ↦ some r
]

module _ {Overlay : Type 0} (c : Collaborators Overlay) (datasource : String) where
  -- The names that registered, and those that were empty.
  unfoldable pub register_all : List String → Result (List String × List String)
  register_all [] = ok ([], [])
  register_all (name ∷ names) = do
    registered ← is_registered (c.register (ref_of datasource name))
    rest ← register_all names
    ok (sort_name registered name rest)

  unfoldable pub register_schemas : List String → Result IngestionStep
  unfolding register_all
  register_schemas schemas = do
    (registered, rejected) ← register_all schemas
    if is_nonempty registered
        then ok (
            reported_step "schema_registration" StepStatus.succeeded
              (schemas_registered (length registered) rejected) (length registered))
        else err empty_schema_error

  -- `_discover` once the runner has answered.
  unfoldable pub conclude_discovery : List ScopeRunResult → Result IngestionStep
  unfolding sum_scopes
  conclude_discovery outcomes =
      let failed = keep (λ o. not (succeeded_scope o)) outcomes in
      if is_nonempty failed && eqb (length failed) (length outcomes)
      then elim (first_failure failed) [
        | none ↦ err (python_error "StopIteration")
        | some first ↦ err discovery_error
      ]
      else ok (
          reported_step "discovery" StepStatus.succeeded
            (schemas_discovered (length (keep succeeded_scope outcomes)) (length outcomes)
              (map (λ (o : ScopeRunResult). o.ref.schema_name) failed))
            (sum_scopes outcomes))

  -- A scope has at least one schema.
  unfoldable pub discover : List String → Result IngestionStep
  unfolding conclude_discovery
  discover schemas = do
    rows ← c.list_registered datasource
    let names = if is_nonempty (enabled_names rows) then enabled_names rows else schemas
    if is_nonempty names
        then (c.run_scope (map (ref_of datasource) names) >>= conclude_discovery)
        else err validation_error

  abbrev pub overlay_step : OverlayReport → IngestionStep
  overlay_step r =
      reported_step "semantic_overlay" StepStatus.succeeded
        (overlay_applied r.objects_updated r.metrics_written r.rules_written)
        (r.objects_updated + r.columns_updated + r.metrics_written + r.rules_written
          + r.join_hints_written)

  unfoldable pub overlay_stage : Result IngestionStep
  overlay_stage = do
    loaded ← c.load_overlay datasource
    elim loaded [
      | none ↦ ok (reported_step "semantic_overlay" StepStatus.skipped no_overlay_file 0)
      | some overlay ↦ do r ← c.apply_overlay overlay; ok (overlay_step r)
    ]

  unfoldable pub compile_stage : Result IngestionStep
  compile_stage = do
    documents ← c.compile datasource
    ok (
        reported_step "semantic_compile" StepStatus.succeeded (documents_embedded documents)
          documents)

  unfoldable pub analyze_graph : Result IngestionStep
  analyze_graph = do
    (communities, embedded, join_paths) ← c.analyze datasource
    ok (
        reported_step "graph_analysis" StepStatus.succeeded
          (graph_analyzed communities embedded join_paths) embedded)

  unfoldable pub domains_stage : Result IngestionStep
  domains_stage = do
    (domains, members) ← c.discover_domains datasource
    ok (
        reported_step "domain_discovery" StepStatus.succeeded (domains_discovered domains members)
          domains)

  -- `runners[name](datasource, schemas)`
  unfoldable pub stage : String → List String → Result IngestionStep
  unfolding register_schemas discover overlay_stage compile_stage analyze_graph domains_stage
  stage name schemas =
      if name == "schema_registration"
      then register_schemas schemas
      else if name == "discovery"
      then discover schemas
      else if name == "semantic_overlay"
      then overlay_stage
      else if name == "semantic_compile"
      then compile_stage
      else if name == "graph_analysis"
      then analyze_graph
      else if name == "domain_discovery"
      then domains_stage
      else err (python_error "KeyError")

abbrev pub as_running : IngestionStep → IngestionStep
as_running step = record step { status = StepStatus.running }

abbrev pub as_failed : IngestionStep → Error → ℕ → IngestionStep
as_failed step e elapsed = record step {
  status = StepStatus.failed;
  detail = some (error_text e);
  duration_ms = elapsed;
}

-- A call that changes the store `S`, and may raise with the store changed.
abbrev pub Ran : Type 0 → Type 0
Ran S = S × Result (Unit {0})

abbrev pub and_then : {S : Type 0} → Ran S → (S → Ran S) → Ran S
and_then (s, ok _) next = next s
and_then (s, err e) next = (s, err e)

-- `raise` after the failed report.
abbrev pub raise_with : {S : Type 0} → Error → S → Ran S
raise_with e s = (s, err e)

-- The collaborators and the clock at each step: its number counts the steps before it.
module _ {Overlay S : Type 0} (c : ℕ → Collaborators Overlay) (elapsed_ms : ℕ → ℕ)
    (report : IngestionStep → S → Ran S) (datasource : String) (schemas : List String) where
  unfoldable pub run_stage : ℕ → IngestionStep → S → Ran S
  unfolding stage
  run_stage t step s = and_then (report (as_running step) s) (λ s'.
      elim (stage (c t) datasource step.name schemas) [
        | err e ↦ and_then (report (as_failed step e (elapsed_ms t)) s') (raise_with e)
        | ok done ↦ report (record done { duration_ms = elapsed_ms t }) s'
      ])

  -- `IngestionService.run`
  unfoldable pub run_stages : ℕ → List IngestionStep → S → Ran S
  unfolding run_stage
  run_stages t [] s = (s, ok tt)
  run_stages t (step ∷ steps) s = and_then (run_stage t step s) (run_stages (suc t) steps)
