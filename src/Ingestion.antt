-- ===== src/Ingestion.antt =====
-- The ingestion of a datasource: jobs and their steps (genql/domain/entities/ingestion_job.py).
-- The children model the job table, the onboarding service, the discovery runner, the stages and
-- the worker.
use gen_ql.Base.{
  ℕ, ◌+◌, ◌*◌, String, Bool, true, false, ◌||◌, Option, none, some, List, [], ◌∷◌, map, is_some,
  if◌then◌else◌, ◌==◌, Error, python_error, min, contains, Result, ok, err,
}
pub mod Jobs
pub mod Onboarding
pub mod Discovery
pub mod Stages
pub mod Worker
pub mod Index
pub mod Queue
pub mod Submission
pub mod Reports
pub mod Ends
pub mod Resumption
pub mod Stale
pub mod Scopes
pub mod Tolerance
mod Tests
pub mod Feed
mod Watching
mod Quiet
mod FeedTests
mod RunTests

pub data JobStatus : Type 0 where
  queued running succeeded failed : JobStatus

pub data StepStatus : Type 0 where
  pending running succeeded skipped failed : StepStatus

-- `SCHEMA_REGISTRATION` to `DOMAIN_DISCOVERY`, in the order of `STEP_SEQUENCE`.
unfoldable pub step_sequence : List String
step_sequence =
    "schema_registration" ∷ "discovery" ∷ "semantic_overlay" ∷ "semantic_compile" ∷ "graph_analysis"
    ∷ "domain_discovery" ∷ []

-- The one line that a stage reports, as its case and the values in it.
pub data Detail : Type 0 where
  error_text : Error → Detail
  schemas_registered : ℕ → List String → Detail
  schemas_discovered : ℕ → ℕ → List String → Detail
  no_overlay_file : Detail
  overlay_applied : ℕ → ℕ → ℕ → Detail
  documents_embedded : ℕ → Detail
  graph_analyzed : ℕ → ℕ → ℕ → Detail
  domains_discovered : ℕ → ℕ → Detail

pub record IngestionStep : Type 0 where
  pub name : String
  pub status : StepStatus
  pub detail : Option Detail
  pub records_written : ℕ
  pub duration_ms : ℕ

-- Times are counted from some day on; `error` is the exception whose type and text the column has.
pub record IngestionJob : Type 0 where
  pub job_id : String
  pub datasource_name : String
  pub user_id : String
  pub status : JobStatus
  pub schemas : List String
  pub steps : List IngestionStep
  pub error : Option Error
  pub error_step : Option String
  pub created_at : ℕ
  pub started_at : Option ℕ
  pub finished_at : Option ℕ

abbrev pub is_terminal : JobStatus → Bool
is_terminal succeeded = true
is_terminal failed = true
is_terminal _ = false

-- The property `terminal`.
abbrev pub terminal : IngestionJob → Bool
terminal job = is_terminal job.status

-- What a step counts for, in halves.
abbrev pub step_halves : StepStatus → ℕ
step_halves succeeded = 2
step_halves skipped = 2
step_halves running = 1
step_halves _ = 0

unfoldable pub done_halves : List IngestionStep → ℕ
done_halves [] = 0
done_halves (s ∷ ss) = step_halves s.status + done_halves ss

-- The property `progress`, as a number of twelfths.
unfoldable pub progress : IngestionJob → ℕ
unfolding done_halves
progress job = elim job.status [ succeeded ↦ 12 | _ ↦ min (done_halves job.steps) 12 ]

-- `IngestionJob.step`: the first step of that name.
unfoldable pub step_named : String → List IngestionStep → Option IngestionStep
step_named name [] = none
step_named name (s ∷ ss) = if s.name == name then some s else step_named name ss

abbrev pub fresh_step : String → IngestionStep
fresh_step name = record {
  name = name;
  status = pending;
  detail = none;
  records_written = 0;
  duration_ms = 0;
}

-- `xs[xs.index(x):]`, with nothing when `x` is not in `xs`.
unfoldable pub from_name : String → List String → List String
from_name x [] = []
from_name x (y ∷ ys) = if y == x then y ∷ ys else from_name x ys

-- `xs[:xs.index(x)]`
unfoldable pub up_to_name : String → List String → List String
up_to_name x [] = []
up_to_name x (y ∷ ys) = let rest = up_to_name x ys in if y == x then [] else y ∷ rest

-- `tuple.index` raises a ValueError for a name that is no step.
unfoldable pub pending_steps : Option String → Result (List IngestionStep)
unfolding step_sequence from_name
pending_steps none = ok (map fresh_step step_sequence)
pending_steps (some start_from) =
    if contains step_sequence start_from
    then ok (map fresh_step (from_name start_from step_sequence))
    else err (python_error "ValueError")
