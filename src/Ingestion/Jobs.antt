-- ===== src/Ingestion/Jobs.antt =====
-- The job table used as a durable queue (genql/repositories/semantic/ingestion_job_repository.py,
-- with the partial unique index of migrations/versions/0012_ingestion_jobs.py). A statement is one
-- step on the table, since each runs in a transaction of its own; where the table has rows of the
-- same time, the order of the table decides.
use gen_ql.Base.{
  ℕ, ◌+◌, String, Bool, true, false, not, ◌&&◌, Option, none, some, List, [], ◌∷◌, ◌++◌, map, any,
  keep, length, leb, ltb, if◌then◌else◌, ◌==◌, Error, unknown_ingestion_job_error, python_error,
  Result, ok, err,
}
use gen_ql.Ingestion.{JobStatus, IngestionStep, IngestionJob, is_terminal}

pub record Row : Type 0 where
  pub job : IngestionJob
  pub claimed_by : Option String
  pub claimed_at : Option ℕ

-- The rows, the oldest insertion first.
abbrev pub Table : Type 0
Table = List Row

abbrev pub is_queued : Row → Bool
is_queued r = elim r.job.status [ JobStatus.queued ↦ true | _ ↦ false ]

abbrev pub is_running : Row → Bool
is_running r = elim r.job.status [ JobStatus.running ↦ true | _ ↦ false ]

-- `status IN ('queued', 'running')`
abbrev pub is_active : Row → Bool
is_active r = not (is_terminal r.job.status)

abbrev pub active_for : String → Row → Bool
active_for datasource r = r.job.datasource_name == datasource && is_active r

-- `genql_ingestion_job_one_active_idx` holds: at most one active row for a datasource.
unfoldable pub one_active : Table → Bool
one_active [] = true
one_active (r ∷ rs) =
    not (is_active r && any (active_for r.job.datasource_name) rs) && one_active rs

-- A statement that the index refuses changes nothing.
unfoldable pub commit : {A : Type 0} → A → Table → Result (A × Table)
unfolding one_active
commit a table = if one_active table then ok (a, table) else err (python_error "IntegrityError")

abbrev pub has_id : String → Row → Bool
has_id job_id r = r.job.job_id == job_id

-- `UPDATE ... WHERE job_id = :job_id`
unfoldable pub update_job : String → (Row → Row) → Table → Table
update_job job_id change = map (λ r. if has_id job_id r then change r else r)

-- `ORDER BY created_at LIMIT 1`
unfoldable pub oldest : List Row → Option Row
oldest [] = none
oldest (r ∷ rs) = elim (oldest rs) [
  | none ↦ some r
  | some o ↦ if leb r.job.created_at o.job.created_at then some r else some o
]

-- `ORDER BY created_at DESC LIMIT 1`
unfoldable pub newest : List Row → Option Row
newest [] = none
newest (r ∷ rs) = elim (newest rs) [
  | none ↦ some r
  | some o ↦ if leb o.job.created_at r.job.created_at then some r else some o
]

unfoldable pub row_of : String → Table → Option Row
row_of job_id [] = none
row_of job_id (r ∷ rs) = if has_id job_id r then some r else row_of job_id rs

-- The row that `_INSERT` writes: the columns that it does not name are null.
abbrev pub inserted : IngestionJob → Row
inserted job = record {
  job = record job { error = none; error_step = none; started_at = none; finished_at = none };
  claimed_by = none;
  claimed_at = none;
}

-- The primary key and the index may refuse a new row; the foreign key to the datasource is not
-- looked at.
unfoldable pub submit : IngestionJob → Table → Result (Unit {0} × Table)
unfolding commit
submit job table =
    if any (has_id job.job_id) table
    then err (python_error "IntegrityError")
    else commit tt (table ++ inserted job ∷ [])

unfoldable pub get : String → Table → Result IngestionJob
unfolding row_of
get job_id table = elim (row_of job_id table) [
  | none ↦ err unknown_ingestion_job_error
  | some r ↦ ok r.job
]

abbrev job_of : Option Row → Option IngestionJob
job_of none = none
job_of (some r) = some r.job

unfoldable pub latest_for_datasource : String → Table → Option IngestionJob
unfolding newest
latest_for_datasource datasource table =
    job_of (newest (keep (λ r. r.job.datasource_name == datasource) table))

unfoldable pub active_for_datasource : String → Table → Option IngestionJob
unfolding newest
active_for_datasource datasource table = job_of (newest (keep (active_for datasource) table))

-- The row that a worker has taken.
abbrev pub claimed : String → ℕ → Row → Row
claimed worker_id now r = record {
  job = record r.job { status = JobStatus.running; started_at = some now };
  claimed_by = some worker_id;
  claimed_at = some now;
}

unfoldable pub claim_next : String → ℕ → Table → Result (Option IngestionJob × Table)
unfolding oldest update_job commit
claim_next worker_id now table = elim (oldest (keep is_queued table)) [
  | none ↦ ok (none, table)
  | some r ↦
      commit (some (claimed worker_id now r).job)
        (update_job r.job.job_id (claimed worker_id now) table)
]

-- One step's entry replaced, or added when there is none of its name.
unfoldable pub put_step : IngestionStep → List IngestionStep → List IngestionStep
put_step step steps =
    let replaced = map (λ (s : IngestionStep). if s.name == step.name then step else s) steps in
    if any (λ (s : IngestionStep). s.name == step.name) steps
    then replaced
    else replaced ++ step ∷ []

abbrev pub with_step : IngestionStep → Row → Row
with_step step r = record r { job = record r.job { steps = put_step step r.job.steps } }

unfoldable pub record_step : String → IngestionStep → Table → Result Table
unfolding row_of update_job
record_step job_id step table = elim (row_of job_id table) [
  | none ↦ err unknown_ingestion_job_error
  | some r ↦ ok (update_job job_id (with_step step) table)
]

abbrev pub ended : JobStatus → Option Error → Option String → ℕ → Row → Row
ended status error error_step now r = record r {
  job = record r.job {
    status = status;
    error = error;
    error_step = error_step;
    finished_at = some now;
  };
}

unfoldable pub finish :
    String → JobStatus → Option Error → Option String → ℕ → Table → Result (Unit {0} × Table)
unfolding update_job commit
finish job_id status error error_step now table =
    if any (has_id job_id) table
    then commit tt (update_job job_id (ended status error error_step now) table)
    else err unknown_ingestion_job_error

-- `claimed_at < now() - make_interval(...)`; a missing time is not less.
abbrev pub is_stale : ℕ → ℕ → Row → Bool
is_stale older_than_seconds now r =
    is_running r && elim r.claimed_at [ none ↦ false | some at ↦ ltb (at + older_than_seconds) now ]

abbrev pub released : Row → Row
released r = record {
  job = record r.job { status = JobStatus.queued; started_at = none };
  claimed_by = none;
  claimed_at = none;
}

unfoldable pub release_stale : ℕ → ℕ → Table → Result (ℕ × Table)
unfolding commit
release_stale older_than_seconds now table =
    commit (length (keep (is_stale older_than_seconds now) table))
      (map (λ r. if is_stale older_than_seconds now r then released r else r) table)
