-- ===== src/Ingestion/Onboarding.antt =====
-- The submission of jobs (genql/services/datasource/onboarding_service.py).
use gen_ql.Base.{
  ℕ, String, Bool, not, Option, none, some, List, [], ◌∷◌, ◌++◌, contains, if◌then◌else◌,
  ingestion_in_progress_error, unknown_ingestion_step_error, no_ingestion_job_error, Result, ok,
  err, ◌>>=◌,
}
use gen_ql.Ingestion.{
  JobStatus, IngestionStep, IngestionJob, step_sequence, step_named, up_to_name, pending_steps,
}
use gen_ql.Ingestion.Jobs.{Table, submit, latest_for_datasource, active_for_datasource}

-- The earlier outcomes of the steps of these names.
unfoldable pub carried : List String → IngestionJob → List IngestionStep
unfolding step_named
carried [] previous = []
carried (name ∷ names) previous =
    let rest = carried names previous in
    elim (step_named name previous.steps) [ none ↦ rest | some step ↦ step ∷ rest ]

-- `_carry_forward`
unfoldable pub carry_forward : Option String → Option IngestionJob → Result (List IngestionStep)
unfolding pending_steps carried up_to_name step_sequence
carry_forward start_from previous = do
  fresh ← pending_steps start_from
  ok (elim start_from [
    | none ↦ fresh
    | some name ↦ elim previous [
      | none ↦ fresh
      | some job ↦ carried (up_to_name name step_sequence) job ++ fresh
    ]
  ])

-- The job that `_queue` submits, with the steps given.
abbrev pub queued_job :
    String → String → List String → String → ℕ → List IngestionStep → IngestionJob
queued_job job_id datasource schemas user_id now steps = record {
  job_id = job_id;
  datasource_name = datasource;
  user_id = user_id;
  status = JobStatus.queued;
  schemas = schemas;
  steps = steps;
  error = none;
  error_step = none;
  created_at = now;
  started_at = none;
  finished_at = none;
}

-- `_queue`; `job_id` is the fresh identifier, and `now` the clock's time.
unfoldable pub queue :
    String
    → ℕ
    → String
    → List String
    → String
    → Option String
    → Option IngestionJob
    → Table
    → Result (IngestionJob × Table)
unfolding active_for_datasource carry_forward submit
queue job_id now datasource schemas user_id start_from previous table =
    elim (active_for_datasource datasource table) [
      | some active ↦ err (ingestion_in_progress_error active.job_id)
      | none ↦ do
        steps ← carry_forward start_from previous
        let job = queued_job job_id datasource schemas user_id now steps
        (_, table') ← submit job table
        ok (job, table')
    ]

abbrev schemas_of : Option IngestionJob → List String
schemas_of none = []
schemas_of (some job) = job.schemas

abbrev is_unknown_step : Option String → Bool
is_unknown_step none = Bool.false
is_unknown_step (some name) = not (contains step_sequence name)

-- `known` reads the datasource's row.
unfoldable pub retry :
    (String → Result (Unit {0}))
    → String
    → ℕ
    → String
    → Option String
    → String
    → Table
    → Result (IngestionJob × Table)
unfolding queue latest_for_datasource
retry known job_id now datasource start_from user_id table =
    if is_unknown_step start_from then err unknown_ingestion_step_error else (do
      _ ← known datasource
      let previous = latest_for_datasource datasource table
      queue job_id now datasource (schemas_of previous) user_id start_from previous table)

-- `register` writes the datasource's row.
unfoldable pub register_and_submit :
    (String → Result (Unit {0}))
    → String
    → ℕ
    → String
    → List String
    → String
    → Table
    → Result (IngestionJob × Table)
unfolding queue
register_and_submit register job_id now name schemas user_id table = do
  _ ← register name
  queue job_id now name schemas user_id none none table

unfoldable pub status : (String → Result (Unit {0})) → String → Table → Result IngestionJob
unfolding latest_for_datasource
status known datasource table = do
  _ ← known datasource
  elim (latest_for_datasource datasource table) [
    | none ↦ err no_ingestion_job_error
    | some job ↦ ok job
  ]
