-- ===== src/Ingestion/Feed.antt =====
-- The event streams of the ingestion: genql/api/sse/ingestion_events.py. A watcher polls the job; the
-- number of polls before its deadline is `polls`, and the job that poll `i` reads is `observe i`.
use gen_ql.Base.{
  ℕ, zero, suc, String, Bool, false, ◌&&◌, Option, none, some, List, [], ◌∷◌, ◌++◌, map,
  if◌then◌else◌, ◌==◌, Dict, lookup, insert, join, concat, str, Error, Result, ok, err,
}
use gen_ql.Ingestion.{JobStatus, StepStatus, IngestionStep, IngestionJob, terminal, progress}

abbrev pub job_status_text : JobStatus → String
job_status_text JobStatus.queued = "queued"
job_status_text JobStatus.running = "running"
job_status_text JobStatus.succeeded = "succeeded"
job_status_text JobStatus.failed = "failed"

abbrev pub step_status_text : StepStatus → String
step_status_text StepStatus.pending = "pending"
step_status_text StepStatus.running = "running"
step_status_text StepStatus.succeeded = "succeeded"
step_status_text StepStatus.skipped = "skipped"
step_status_text StepStatus.failed = "failed"

-- `f"{s.name}:{s.status.value}:{s.records_written}"`
abbrev step_print : IngestionStep → String
step_print s =
    concat s.name
      (concat ":" (concat (step_status_text s.status) (concat ":" (str s.records_written))))

unfoldable pub fingerprint : IngestionJob → String
fingerprint job =
    concat (job_status_text job.status) (concat "|" (join ";" (map step_print job.steps)))

-- An event with what it says of the job. A failed job with no error is reported as one of a
-- default name.
pub data Event : Type 0 where
  step_event : String → String → IngestionStep → Event
  progress_event : String → String → JobStatus → ℕ → Event
  done_event : IngestionJob → Event
  error_event : Option Error → Option String → IngestionJob → Event
  timeout_event : IngestionJob → Event
  ready_event failed_event : String → String → Option Error → Option String → Event

abbrev pub step_events : IngestionJob → List Event
step_events job = map (step_event job.job_id job.datasource_name) job.steps

abbrev pub progress_of : IngestionJob → Event
progress_of job = progress_event job.job_id job.datasource_name job.status (progress job)

unfoldable pub terminal_event : IngestionJob → Event
terminal_event job = elim job.status [
  | JobStatus.failed ↦ error_event job.error job.error_step job
  | _ ↦ done_event job
]

-- The events that went out, and the exception that broke the stream off, if one did.
pub record Watched : Type 0 where
  pub events : List Event
  pub broken_by : Option Error

abbrev pub before : List Event → Watched → Watched
before events w = record w { events = events ++ w.events }

abbrev pub same_print : Option String → String → Bool
same_print none print = false
same_print (some previous) print = previous == print

-- The events of a change, and nothing where there is none.
unfoldable pub change_events : Option String → IngestionJob → List Event
unfolding fingerprint
change_events previous job =
    if same_print previous (fingerprint job) then [] else step_events job ++ progress_of job ∷ []

-- The event after the deadline.
abbrev pub timed_out : Result IngestionJob → Watched
timed_out (err e) = record { events = []; broken_by = some e }
timed_out (ok job) = record { events = timeout_event job ∷ []; broken_by = none }

-- One poll, with what follows where the job is not at its end.
unfoldable pub poll : Option String → Result IngestionJob → (String → Watched) → Watched
unfolding change_events terminal_event
poll previous (err e) rest = record { events = []; broken_by = some e }
poll previous (ok job) rest = before (change_events previous job) (
    if terminal job
    then record { events = terminal_event job ∷ []; broken_by = none }
    else rest (fingerprint job))

-- `ingestion_event_stream`, from poll `i` on.
unfoldable pub watch : (ℕ → Result IngestionJob) → ℕ → ℕ → Option String → Watched
unfolding poll
watch observe zero i previous = timed_out (observe i)
watch observe (suc polls) i previous =
    poll previous (observe i) (λ print. watch observe polls (suc i) (some print))

-- `seen.get(name) == state`
abbrev pub is_seen : Dict String → IngestionJob → Bool
is_seen seen job = same_print (lookup seen job.datasource_name) (job_status_text job.status)

abbrev pub transition_event : IngestionJob → Event
transition_event job = elim job.status [
  | JobStatus.succeeded ↦ ready_event job.datasource_name job.job_id job.error job.error_step
  | _ ↦ failed_event job.datasource_name job.job_id job.error job.error_step
]

-- `transitions`: the events, and the statuses seen afterwards.
unfoldable pub transitions : List IngestionJob → Dict String → Bool → List Event × Dict String
unfolding insert
transitions [] seen seeded = ([], seen)
transitions (job ∷ jobs) seen seeded =
    let (later, seen_after) =
      transitions jobs (insert job.datasource_name (job_status_text job.status) seen) seeded in
    let (unchanged, seen_unchanged) = transitions jobs seen seeded in
    if is_seen seen job
    then (unchanged, seen_unchanged)
    else if seeded && terminal job
    then (transition_event job ∷ later, seen_after)
    else (later, seen_after)
