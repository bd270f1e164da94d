-- ===== src/Ingestion/Quiet.antt =====
-- What the feed of all datasources reports (`transitions` of genql/api/sse/ingestion_events.py).
use gen_ql.Base.{
  String, Bool, true, false, ◌&&◌, List, [], ◌∷◌, map, ◌≡◌, refl, sym, ◌∙◌, ap, subst, arith, All,
  Bool-cases, inl, inr, Dict, lookup, insert, lookup-insert, contains, ◌==◌, eq_refl, if◌then◌else◌,
}
use gen_ql.Ingestion.{IngestionJob, JobStatus, terminal}
use gen_ql.Ingestion.Feed.{job_status_text, is_seen, same_print, transitions}

abbrev datasources : List IngestionJob → List String
datasources jobs = map (λ (j : IngestionJob). j.datasource_name) jobs

-- One job for each datasource.
abbrev pub AreApart : List IngestionJob → Type 0
AreApart [] = Unit
AreApart (job ∷ jobs) = (contains (datasources jobs) job.datasource_name ≡ false) × AreApart jobs

-- The statuses after the job: the same where it was seen, and with its own where not.
abbrev noted : Dict String → IngestionJob → Dict String
noted seen job =
    if is_seen seen job then seen else insert job.datasource_name (job_status_text job.status) seen

transitions-cons :
    (job : IngestionJob) (jobs : List IngestionJob) (seen : Dict String) (seeded : Bool)
    → (transitions (job ∷ jobs) seen seeded).1 ≡ (transitions jobs (noted seen job) seeded).1
unfolding transitions
transitions-cons job jobs seen seeded = elim (Bool-cases (is_seen seen job)) [
  | inl same ↦ rw same refl
  | inr new ↦ elim (Bool-cases (seeded && terminal job)) [
    | inl told ↦ rw (new, told) refl
    | inr untold ↦ rw (new, untold) refl
  ]
]

lookup-noted :
    (seen : Dict String) (job : IngestionJob) (name : String)
    → (job.datasource_name == name) ≡ false
    → lookup (noted seen job) name ≡ lookup seen name
lookup-noted seen job name apart = elim (Bool-cases (is_seen seen job)) [
  | inl same ↦ rw same refl
  | inr new ↦
      rw new
        (lookup-insert job.datasource_name name (job_status_text job.status) seen ∙ rw apart refl)
]

noted-seen : (seen : Dict String) (job : IngestionJob) → is_seen (noted seen job) job ≡ true
noted-seen seen job = elim (Bool-cases (is_seen seen job)) [
  | inl same ↦ rw same same
  | inr new ↦
      rw
        (
          new,
          lookup-insert job.datasource_name job.datasource_name (job_status_text job.status) seen,
          eq_refl job.datasource_name,
        )
        (eq_refl (job_status_text job.status))
]

unseeded : (jobs : List IngestionJob) (seen : Dict String) → (transitions jobs seen false).0 ≡ []
unfolding transitions
unseeded [] seen = refl
unseeded (job ∷ jobs) seen = ground (
  arith,
  unseeded jobs seen,
  unseeded jobs (insert job.datasource_name (job_status_text job.status) seen),
)

-- A datasource of none of the jobs keeps its status.
kept :
    (jobs : List IngestionJob) (seen : Dict String) (seeded : Bool) (name : String)
    → contains (datasources jobs) name ≡ false
    → lookup (transitions jobs seen seeded).1 name ≡ lookup seen name
unfolding transitions
kept [] seen seeded name h = refl
kept (job ∷ jobs) seen seeded name h =
    let apart : (job.datasource_name == name) ≡ false = ground arith in
    let absent : contains (datasources jobs) name ≡ false = ground arith in
    ap (λ d. lookup d name) (transitions-cons job jobs seen seeded)
    ∙ kept jobs (noted seen job) seeded name absent
    ∙ lookup-noted seen job name apart

is_seen-eq :
    (d e : Dict String) (job : IngestionJob)
    → lookup d job.datasource_name ≡ lookup e job.datasource_name
    → is_seen d job ≡ is_seen e job
is_seen-eq d e job h = ap (λ o. same_print o (job_status_text job.status)) h

-- A poll leaves every job seen.
All-seen :
    (jobs : List IngestionJob) (seen : Dict String) (seeded : Bool)
    → AreApart jobs
    → All (λ job. is_seen (transitions jobs seen seeded).1 job ≡ true) jobs
All-seen [] seen seeded h = tt
All-seen (job ∷ jobs) seen seeded (absent, apart) =
    let same = transitions-cons job jobs seen seeded in
    (
      is_seen-eq _ (noted seen job) job (
            ap (λ d. lookup d job.datasource_name) same
            ∙ kept jobs (noted seen job) seeded job.datasource_name absent)
          ∙ noted-seen seen job,
      subst (λ d. All (λ j. is_seen d j ≡ true) jobs) (sym same)
          (All-seen jobs (noted seen job) seeded apart),
    )

seen-quiet :
    (jobs : List IngestionJob) (seen : Dict String) (seeded : Bool)
    → All (λ job. is_seen seen job ≡ true) jobs
    → transitions jobs seen seeded ≡ ([], seen)
unfolding transitions
seen-quiet [] seen seeded h = refl
seen-quiet (job ∷ jobs) seen seeded (here, later) =
    rw (here, seen-quiet jobs seen seeded later) refl

-- The datasources of the jobs with their statuses: all that the feed keeps of them.
abbrev pub states : List IngestionJob → List (String × JobStatus)
states [] = []
states (job ∷ jobs) = (job.datasource_name, job.status) ∷ states jobs

-- A job with the datasource and the status of one that was seen is seen.
states-seen :
    (jobs later : List IngestionJob) (seen : Dict String)
    → states jobs ≡ states later
    → All (λ job. is_seen seen job ≡ true) jobs
    → All (λ job. is_seen seen job ≡ true) later
states-seen [] [] seen same h = tt
states-seen [] (k ∷ ks) seen same h = cc
states-seen (j ∷ js) [] seen same h = cc
states-seen (j ∷ js) (k ∷ ks) seen same (here, rest) =
    let name : j.datasource_name ≡ k.datasource_name = cc in
    let status : j.status ≡ k.status = cc in
    let tail : states js ≡ states ks = cc in
    (rw (← name, ← status) here, states-seen js ks seen tail rest)

-- A poll before the baseline is there tells nothing. After a poll of jobs, one for each datasource,
-- a poll of jobs of the same datasources with the same statuses, in the same order, tells nothing
-- and changes no baseline, whatever else of the jobs has changed, their ids included.
pub transitions_quiet :
    (jobs later : List IngestionJob) (seen : Dict String) (seeded : Bool)
    → AreApart jobs
    → states jobs ≡ states later
    → ((transitions jobs seen false).0 ≡ [])
      × (transitions later (transitions jobs seen seeded).1 true
          ≡ ([], (transitions jobs seen seeded).1))
transitions_quiet jobs later seen seeded apart same = (
  unseeded jobs seen,
  seen-quiet later _ true (states-seen jobs later _ same (All-seen jobs seen seeded apart)),
)
