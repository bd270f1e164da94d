-- ===== src/Ingestion/Worker.antt =====
-- The worker that claims a job and runs it (genql/infrastructure/ingestion/worker.py). The clock of
-- the database is `now`; the thread, its waiting and its log are not modelled.
use gen_ql.Base.{
  ℕ, String, Bool, true, false, Option, none, some, List, [], ◌∷◌, keep, if◌then◌else◌, Error,
  Result, ok, err,
}
use gen_ql.Ingestion.{JobStatus, StepStatus, IngestionStep, IngestionJob}
use gen_ql.Ingestion.Jobs.{Table, get, claim_next, record_step, finish, release_stale}
use gen_ql.Ingestion.Stages.{Collaborators, Ran, run_stages}

abbrev pub is_pending : IngestionStep → Bool
is_pending s = elim s.status [ StepStatus.pending ↦ true | StepStatus.failed ↦ true | _ ↦ false ]

abbrev pub is_failed : IngestionStep → Bool
is_failed s = elim s.status [ StepStatus.failed ↦ true | _ ↦ false ]

-- `report` of `_run`.
unfoldable pub report_to : String → IngestionStep → Table → Ran Table
unfolding record_step
report_to job_id step table = elim (record_step job_id step table) [
  | ok table' ↦ (table', ok tt)
  | err e ↦ (table, err e)
]

-- The name of the first step that is recorded as failed.
unfoldable pub failed_at : List IngestionStep → Option String
failed_at [] = none
failed_at (s ∷ ss) = if is_failed s then some s.name else failed_at ss

abbrev pub failed_at_in : Result IngestionJob → Option String
failed_at_in (ok job) = failed_at job.steps
failed_at_in (err e) = none

-- A statement that was refused leaves the table as it was.
abbrev pub settled : Table → Result (Unit {0} × Table) → Ran Table
settled table (ok (_, table')) = (table', ok tt)
settled table (err e) = (table, err e)

-- `_fail`
unfoldable pub fail_job : IngestionJob → Error → ℕ → Table → Ran Table
unfolding get failed_at finish
fail_job job e now table =
    settled table
      (finish job.job_id JobStatus.failed (some e) (failed_at_in (get job.job_id table)) now table)

module _ {Overlay : Type 0} (c : ℕ → Collaborators Overlay) (elapsed_ms : ℕ → ℕ) where
  -- `_run`
  unfoldable pub run_job : IngestionJob → ℕ → Table → Ran Table
  unfolding run_stages report_to fail_job finish
  run_job job now table =
      let (table', outcome) =
        run_stages c elapsed_ms (report_to job.job_id) job.datasource_name job.schemas 0
          (keep is_pending job.steps) table in
      elim outcome [
        | err e ↦ fail_job job e now table'
        | ok _ ↦ settled table' (finish job.job_id JobStatus.succeeded none none now table')
      ]

  -- The table and the answer of `run_once`; a claim that raises is logged.
  unfoldable pub run_once : String → ℕ → ℕ → Table → Table × Result Bool
  unfolding claim_next run_job
  run_once worker_id now later table = elim (claim_next worker_id now table) [
    | err e ↦ (table, ok false)
    | ok (none, table') ↦ (table', ok false)
    | ok (some job, table') ↦
        let (table'', outcome) = run_job job later table' in
        elim outcome [ ok _ ↦ (table'', ok true) | err e ↦ (table'', err e) ]
  ]

-- `_sweep`
unfoldable pub sweep : ℕ → ℕ → Table → Table
unfolding release_stale
sweep stale_after_seconds now table = elim (release_stale stale_after_seconds now table) [
  | ok (released, table') ↦ table'
  | err e ↦ table
]
