-- ===== src/Ingestion/RunTests.antt =====
-- A worker that runs a job, one that died, and a scope of two schemas, with the theorems at them.
use gen_ql.Base.{
  ℕ, true, Option, none, some, List, [], ◌∷◌, map, if◌then◌else◌, ◌==◌, ◌≡◌, ◌≢◌, refl, Elem, ok,
  err, Error, discovery_error, unknown_datasource_error, python_error, is_genql_error, inl, arith,
}
use gen_ql.Ingestion.{JobStatus, StepStatus, IngestionStep, IngestionJob, fresh_step}
use gen_ql.Ingestion.Jobs.{Row, Table, row_of, get, record_step}
use gen_ql.Ingestion.Discovery.{
  SchemaRef, DiscoveryStep, ScopeRunResult, reported, select_steps, run_scope,
}
use gen_ql.Ingestion.Stages.{Collaborators, run_stages}
use gen_ql.Ingestion.Worker.{run_job, report_to}
use gen_ql.Ingestion.Index.{IsValid}
use gen_ql.Ingestion.Submission.{append-IsValid, waiting_row}
use gen_ql.Ingestion.Ends.{EndsAs, stages_of, run_job_ends}
use gen_ql.Ingestion.Stale.{stale_step_stays}
use gen_ql.Ingestion.Scopes.{AreOutcomes, run_scope-AreOutcomes}
use gen_ql.Base.{empty_schema_error, false}
use gen_ql.Ingestion.Tests.{taken_first, after_one, empty-IsValid, after_one-IsValid}

-- Every collaborator works, but the graph analysis.
abbrev works : ℕ → Collaborators ℕ
works t = record {
  register = λ ref. ok tt;
  list_registered = λ datasource. ok (("public", true) ∷ []);
  run_scope = λ refs. ok (
      map
        (λ ref. record {
          ref = ref;
          results =
              record {
                step_name = "scan";
                succeeded = true;
                records_written = 3;
                message = reported "";
              }
              ∷ [];
        })
        refs);
  load_overlay = λ datasource. ok none;
  apply_overlay = λ overlay. err (python_error "KeyError");
  compile = λ datasource. ok 5;
  analyze = λ datasource. err unknown_datasource_error;
  discover_domains = λ datasource. ok (2, 5);
}

run_job_ends_example :
    (t' : Table) × (done : IngestionJob) × (run_job works (λ t. 8) taken_first 50 after_one
      ≡ (t', ok tt))
    × IsValid t'
    × (get "j-1" t' ≡ ok done)
    × EndsAs (stages_of works (λ t. 8) taken_first after_one).1 done
    × ((left : Row) × (row_of "j-1" (stages_of works (λ t. 8) taken_first after_one).0 ≡ some left)
        × (done.steps ≡ left.job.steps))
run_job_ends_example =
    run_job_ends works (λ t. 8) taken_first 50 after_one (after_one-IsValid, refl)

-- The worker died during the discovery; the compilation is left.
abbrev left_running : IngestionStep
left_running = record (fresh_step "discovery") { status = StepStatus.running }

abbrev orphan : IngestionJob
orphan = record taken_first { steps = left_running ∷ fresh_step "semantic_compile" ∷ [] }

abbrev orphans : Table
orphans = waiting_row orphan ∷ []

orphans-IsValid : IsValid orphans
orphans-IsValid = append-IsValid [] (waiting_row orphan) empty-IsValid refl refl

apart : (fresh_step "semantic_compile").name ≢ left_running.name
apart e = cc

stale_step_stays_example :
    (t' : Table) × (done : IngestionJob) × (run_job works (λ t. 8) orphan 50 orphans ≡ (t', ok tt))
    × (get "j-1" t' ≡ ok done)
    × Elem left_running done.steps
    × ((stages_of works (λ t. 8) orphan orphans).1 ≡ ok tt → done.status ≡ JobStatus.succeeded)
unfolding row_of
stale_step_stays_example =
    stale_step_stays works (λ t. 8) orphan 50 orphans left_running (orphans-IsValid, refl)
      (waiting_row orphan, refl, inl refl) (apart, tt)

returns : (stages_of works (λ t. 8) orphan orphans).1 ≡ ok tt
unfolding run_stages record_step report_to
returns = refl

-- One schema of the scope fails at its first step.
abbrev scan : DiscoveryStep
scan = record {
  name = "catalog_scan";
  run = λ ref limit.
      if ref.schema_name == "hidden"
      then err discovery_error
      else ok (record {
        step_name = "catalog_scan";
        succeeded = true;
        records_written = limit;
        message = reported "ok";
      });
}

scan_contained : (ref : SchemaRef) (e : Error) → scan.run ref 5 ≡ err e → is_genql_error e ≡ true
scan_contained ref e raised = ground arith

abbrev scope : List SchemaRef
scope =
    record { datasource_name = "sales"; schema_name = "hidden" }
    ∷ record { datasource_name = "sales"; schema_name = "public" }
    ∷ []

run_scope-AreOutcomes_example :
    (os : List (ScopeRunResult × Option SchemaRef)) × (run_scope (scan ∷ []) 5 none scope ≡ ok os)
    × AreOutcomes 5 (scan ∷ []) scope os
unfolding select_steps
run_scope-AreOutcomes_example =
    run_scope-AreOutcomes 5 none (scan ∷ []) (scan ∷ []) scope (scan_contained, tt) refl

-- One schema is empty, and its discovery fails.
abbrev picky : Collaborators ℕ
picky = record (works 0) {
  register = λ ref. if ref.schema_name == "hidden" then err empty_schema_error else ok tt;
}

abbrev good : ScopeRunResult
good = record {
  ref = record { datasource_name = "sales"; schema_name = "public" };
  results =
      record { step_name = "scan"; succeeded = true; records_written = 3; message = reported "" }
      ∷ [];
}

abbrev bad : ScopeRunResult
bad = record {
  ref = record { datasource_name = "sales"; schema_name = "hidden" };
  results =
      record { step_name = "scan"; succeeded = false; records_written = 1; message = reported "" }
      ∷ [];
}
