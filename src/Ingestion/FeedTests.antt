-- ===== src/Ingestion/FeedTests.antt =====
-- A job that runs and then succeeds, watched and told, with the theorems on it.
use gen_ql.Base.{
  ℕ, true, false, none, some, List, [], ◌∷◌, ◌≡◌, refl, ok, Result, if◌then◌else◌, ltb, length, str,
}
use gen_ql.Ingestion.{JobStatus, StepStatus, IngestionJob}
use gen_ql.Ingestion.Feed.{watch, transitions, poll, change_events, fingerprint, terminal_event}
use gen_ql.Ingestion.Watching.{IsWatched, watch-IsWatched}
use gen_ql.Ingestion.Quiet.{transitions_quiet}

abbrev job_with : JobStatus → StepStatus → IngestionJob
job_with status step = record {
  job_id = "j-1";
  datasource_name = "sales";
  user_id = "ana";
  status = status;
  schemas = "public" ∷ [];
  steps =
      record {
        name = "discovery";
        status = step;
        detail = none;
        records_written = 4;
        duration_ms = 10;
      }
      ∷ [];
  error = none;
  error_step = none;
  created_at = 1;
  started_at = some 2;
  finished_at = none;
}

abbrev runs_then_succeeds : ℕ → Result IngestionJob
runs_then_succeeds i =
    if ltb i 2
    then ok (job_with JobStatus.running StepStatus.running)
    else ok (job_with JobStatus.succeeded StepStatus.succeeded)

watch-IsWatched_example : IsWatched runs_then_succeeds 5 0 (watch runs_then_succeeds 5 0 none)
watch-IsWatched_example = watch-IsWatched runs_then_succeeds 5 0 none

-- One batch for the two polls that find the job running, and one for its end.
watched_events : length (watch runs_then_succeeds 5 0 none).events ≡ 5
unfolding watch poll change_events fingerprint terminal_event str
watched_events = refl

abbrev finished_jobs : List IngestionJob
finished_jobs = job_with JobStatus.succeeded StepStatus.succeeded ∷ []

-- The datasource was ingested again, with the same end.
abbrev finished_again : List IngestionJob
finished_again = record (job_with JobStatus.succeeded StepStatus.succeeded) { job_id = "j-2" } ∷ []

transitions_quiet_example :
    ((transitions finished_jobs [] false).0 ≡ [])
    × (transitions finished_again (transitions finished_jobs [] true).1 true
        ≡ ([], (transitions finished_jobs [] true).1))
transitions_quiet_example = transitions_quiet finished_jobs finished_again [] true (refl, tt) refl
