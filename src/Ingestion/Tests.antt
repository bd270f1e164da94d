-- ===== src/Ingestion/Tests.antt =====
-- Two datasources in the queue and a job that is resumed, with the theorems at them.
use gen_ql.Base.{
  String, false, some, List, [], ◌∷◌, ◌++◌, map, keep, ◌≡◌, ◌≢◌, refl, Elem, All, ok, err,
  ingestion_in_progress_error, inl, inr, ◌⊎◌,
}
use gen_ql.Ingestion.{
  JobStatus, StepStatus, IngestionStep, IngestionJob, step_sequence, from_name, up_to_name,
  step_named, fresh_step,
}
use gen_ql.Ingestion.Jobs.{Table, claim_next, one_active, is_stale, active_for_datasource}
use gen_ql.Ingestion.Onboarding.{queue, queued_job, carry_forward}
use gen_ql.Ingestion.Index.{IsValid}
use gen_ql.Ingestion.Queue.{IsClaim, claim_next-IsClaim, claims_differ, claim_next-IsValid}
use gen_ql.Ingestion.Submission.{append-IsValid, waiting_row, queue_submits}
use gen_ql.Ingestion.Resumption.{carry_forward-IsWhole}

abbrev pub sales_job : IngestionJob
sales_job =
    queued_job "j-1" "sales" ("public" ∷ []) "ann" 10
      (map fresh_step ("discovery" ∷ "semantic_compile" ∷ []))

abbrev stock_job : IngestionJob
stock_job = queued_job "j-2" "stock" ("public" ∷ []) "ben" 20 (map fresh_step ("discovery" ∷ []))

abbrev jobs : Table
jobs = waiting_row sales_job ∷ waiting_row stock_job ∷ []

pub empty-IsValid : IsValid []
unfolding one_active
empty-IsValid = ((λ r q m. absurd m), refl)

jobs-IsValid : IsValid jobs
jobs-IsValid =
    append-IsValid (waiting_row sales_job ∷ []) (waiting_row stock_job)
      (append-IsValid [] (waiting_row sales_job) empty-IsValid refl refl) refl refl

claim_next-IsClaim_example : IsClaim "w-1" 30 jobs (claim_next "w-1" 30 jobs)
claim_next-IsClaim_example = claim_next-IsClaim "w-1" 30 jobs jobs-IsValid

-- The table after one claim, and after two.
abbrev pub after_one : Table
after_one =
    record {
      job = record sales_job { status = JobStatus.running; started_at = some 30 };
      claimed_by = some "w-1";
      claimed_at = some 30;
    }
    ∷ waiting_row stock_job
    ∷ []

abbrev after_two : Table
after_two =
    record {
      job = record sales_job { status = JobStatus.running; started_at = some 30 };
      claimed_by = some "w-1";
      claimed_at = some 30;
    }
    ∷ record {
      job = record stock_job { status = JobStatus.running; started_at = some 31 };
      claimed_by = some "w-2";
      claimed_at = some 31;
    }
    ∷ []

abbrev pub taken_first : IngestionJob
taken_first = record sales_job { status = JobStatus.running; started_at = some 30 }

abbrev taken_second : IngestionJob
taken_second = record stock_job { status = JobStatus.running; started_at = some 31 }

first_claim : claim_next "w-1" 30 jobs ≡ ok (some taken_first, after_one)
unfolding claim_next
first_claim = refl

second_claim : claim_next "w-2" 31 after_one ≡ ok (some taken_second, after_two)
unfolding claim_next
second_claim = refl

claims_differ_example : taken_first.job_id ≢ taken_second.job_id
claims_differ_example =
    claims_differ "w-1" "w-2" 30 31 jobs after_one after_two taken_first taken_second jobs-IsValid
      first_claim second_claim

pub after_one-IsValid : IsValid after_one
after_one-IsValid =
    claim_next-IsValid "w-1" 30 jobs after_one (some taken_first) jobs-IsValid first_claim

is_released :
    (keep (is_stale 900 2000) after_one
      ≡ record { job = taken_first; claimed_by = some "w-1"; claimed_at = some 30 } ∷ [])
    × (is_stale 900 600
          (record { job = taken_first; claimed_by = some "w-1"; claimed_at = some 30 })
        ≡ false)
is_released = (refl, refl)

-- A retry from the graph analysis of a job that has run the earlier steps.
abbrev done_step : String → IngestionStep
done_step name = record (fresh_step name) { status = StepStatus.succeeded; records_written = 7 }

abbrev surveyed : IngestionJob
surveyed = record sales_job {
  steps =
      map done_step
        ("schema_registration" ∷ "discovery" ∷ "semantic_overlay" ∷ "semantic_compile" ∷ []);
}

carry_forward-IsWhole_example :
    (steps : List IngestionStep) × (carry_forward (some "graph_analysis") (some surveyed)
      ≡ ok steps)
    × (map (λ (s : IngestionStep). s.name) steps ≡ step_sequence)
    × All (λ n. Elem (fresh_step n) steps) (from_name "graph_analysis" step_sequence)
    × All
        (λ n. (s : IngestionStep) × (step_named n surveyed.steps ≡ some s) × Elem s steps)
        (up_to_name "graph_analysis" step_sequence)
unfolding step_sequence up_to_name step_named
carry_forward-IsWhole_example =
    carry_forward-IsWhole "graph_analysis" surveyed (inr (inr (inr (inr (inl refl)))))
      (refl, (refl, (refl, (refl, tt))))

carries :
    carry_forward (some "graph_analysis") (some surveyed)
    ≡ ok (surveyed.steps ++ map fresh_step ("graph_analysis" ∷ "domain_discovery" ∷ []))
unfolding carry_forward
carries = refl

queue_submits_example :
    ((active : IngestionJob) × (active_for_datasource "hr" jobs ≡ some active)
      × (queue "j-3" 40 "hr" ("public" ∷ []) "cy" (some "graph_analysis") (some surveyed) jobs
          ≡ err (ingestion_in_progress_error active.job_id)))
    ⊎ ((t' : Table) × (queue "j-3" 40 "hr"
            ("public" ∷ [])
            "cy"
            (some "graph_analysis")
            (some surveyed)
            jobs
          ≡ ok (
            queued_job "j-3" "hr"
                ("public" ∷ [])
                "cy"
                40
                (surveyed.steps ++ map fresh_step ("graph_analysis" ∷ "domain_discovery" ∷ [])),
            t',
          ))
        × (t'
            ≡ jobs
              ++ waiting_row (
                  queued_job "j-3" "hr"
                    ("public" ∷ [])
                    "cy"
                    40
                    (surveyed.steps ++ map fresh_step ("graph_analysis" ∷ "domain_discovery" ∷ [])))
                ∷ [])
        × IsValid t')
queue_submits_example =
    queue_submits "j-3" 40 "hr" ("public" ∷ []) "cy" (some "graph_analysis") (some surveyed) jobs
      jobs-IsValid refl carries
