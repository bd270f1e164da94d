-- ===== src/Ingestion/Ends.antt =====
-- How a claimed job ends (genql/infrastructure/ingestion/worker.py).
use gen_ql.Base.{
  ℕ, String, true, Option, none, some, [], ◌∷◌, any, keep, if◌then◌else◌, ◌≡◌, ◌∙◌, refl,
  Bool-cases, Result-cases, All-Elem, Result, ok, err, Error, arith, inl, inr, eq_iff,
}
use gen_ql.Ingestion.{JobStatus, IngestionStep, IngestionJob, is_terminal}
use gen_ql.Ingestion.Jobs.{
  Row, Table, has_id, update_job, row_of, get, with_step, record_step, ended, finish, commit,
}
use gen_ql.Ingestion.Stages.{Collaborators, Ran, run_stages}
use gen_ql.Ingestion.Worker.{
  is_pending, report_to, failed_at, failed_at_in, settled, fail_job, run_job,
}
use gen_ql.Ingestion.Index.{Quiet, IsValid, map-IsValid, commit-eq-ok}
use gen_ql.Ingestion.Reports.{run_stages-keeps}

-- The table keeps its keys and its index, and has a row of that id.
abbrev pub Holds : String → Table → Type 0
Holds job_id t = IsValid t × (any (has_id job_id) t ≡ true)

pub row_of-update :
    (job_id : String) (f : Row → Row) (t : Table)
    → ((r : Row) → (f r).job.job_id ≡ r.job.job_id)
    → any (has_id job_id) t ≡ true
    → (r : Row) × (row_of job_id t ≡ some r) × (row_of job_id (update_job job_id f t) ≡ some (f r))
unfolding row_of update_job
row_of-update job_id f [] ids h = cc
row_of-update job_id f (x ∷ xs) ids h = elim (Bool-cases (has_id job_id x)) [
  | inl own ↦
      let kept : has_id job_id (f x) ≡ true = (eq_iff _ _).1 (ids x ∙ (eq_iff _ _).0 own) in
      (x, rw (row_of, own) refl, rw (row_of, update_job, own, kept) refl)
  | inr other ↦
      let (r, found, changed) = row_of-update job_id f xs ids (ground arith) in
      (r, rw (row_of, other) found, rw (row_of, update_job, other, other) changed)
]

any_id-update :
    (job_id : String) (f : Row → Row) (t : Table)
    → ((r : Row) → (f r).job.job_id ≡ r.job.job_id)
    → any (has_id job_id) t ≡ true
    → any (has_id job_id) (update_job job_id f t) ≡ true
unfolding update_job
any_id-update job_id f [] ids h = cc
any_id-update job_id f (x ∷ xs) ids h = elim (Bool-cases (has_id job_id x)) [
  | inl own ↦
      let kept : has_id job_id (f x) ≡ true = (eq_iff _ _).1 (ids x ∙ (eq_iff _ _).0 own) in
      rw (update_job, own, kept) refl
  | inr other ↦
      let later : any (has_id job_id) xs ≡ true = ground arith in
      rw (update_job, other, other) (any_id-update job_id f xs ids later)
]

update-Quiet :
    (job_id : String) (f : Row → Row) (t : Table)
    → Quiet f t
    → Quiet (λ r. if has_id job_id r then f r else r) t
update-Quiet job_id f t q r m = elim (Bool-cases (has_id job_id r)) [
  | inl own ↦ rw own (q r m)
  | inr other ↦ rw other (refl, refl, λ idle. idle)
]

update-Holds :
    (job_id : String) (f : Row → Row) (t : Table)
    → Quiet f t
    → ((r : Row) → (f r).job.job_id ≡ r.job.job_id)
    → Holds job_id t
    → Holds job_id (update_job job_id f t)
unfolding update_job
update-Holds job_id f t q ids (valid, there) =
    (map-IsValid _ t (update-Quiet job_id f t q) valid, any_id-update job_id f t ids there)

report_to-Holds :
    (job_id : String) (step : IngestionStep) (t : Table)
    → Unit {0}
    → Holds job_id t
    → Holds job_id (report_to job_id step t).0
unfolding report_to record_step
report_to-Holds job_id step t _ h =
    let (r, found, _) = row_of-update job_id (with_step step) t (λ r. refl) h.1 in
    rw (report_to, record_step, found)
      (update-Holds job_id (with_step step) t (λ r m. (refl, refl, λ idle. idle)) (λ r. refl) h)

-- Writing the end of a job that the table has.
settled-finish :
    (job_id : String) (status : JobStatus) (error : Option Error) (error_step : Option String)
    (now : ℕ) (t : Table)
    → is_terminal status ≡ true
    → Holds job_id t
    → (t' : Table) × (settled t (finish job_id status error error_step now t) ≡ (t', ok tt))
      × IsValid t'
      × ((r : Row) × (row_of job_id t ≡ some r)
          × (get job_id t' ≡ ok (ended status error error_step now r).job))
unfolding finish get
settled-finish job_id status error error_step now t final h =
    let f : Row → Row = ended status error error_step now in
    let quiet : Quiet f t = λ r m. (refl, refl, λ idle. rw final refl) in
    let (valid, _) = update-Holds job_id f t quiet (λ r. refl) h in
    let (r, found, changed) = row_of-update job_id f t (λ r. refl) h.1 in
    let done : commit tt (update_job job_id f t) ≡ ok (tt, update_job job_id f t) =
      commit-eq-ok tt _ valid.1 in
    (update_job job_id f t, rw (finish, h.1, done) refl, valid, (r, found, rw (get, changed) refl))

blame :
    (job_id : String) (t : Table) (r : Row)
    → row_of job_id t ≡ some r
    → failed_at_in (get job_id t) ≡ failed_at r.job.steps
unfolding get
blame job_id t r found = rw (get, found) refl

-- How the row of a job reads once the worker has run it, where the stages came to `outcome`.
abbrev pub EndsAs : Result (Unit {0}) → IngestionJob → Type 0
EndsAs (ok _) job = (job.status ≡ JobStatus.succeeded) × (job.error ≡ none)
EndsAs (err e) job =
    (job.status ≡ JobStatus.failed) × (job.error ≡ some e) × (job.error_step ≡ failed_at job.steps)

module _ {Overlay : Type 0} (c : ℕ → Collaborators Overlay) (elapsed_ms : ℕ → ℕ) where
  -- The run of the stages that are left of a job.
  abbrev pub stages_of : IngestionJob → Table → Ran Table
  stages_of job table =
      run_stages c elapsed_ms (report_to job.job_id) job.datasource_name job.schemas 0
        (keep is_pending job.steps) table

  stages_of-Holds :
      (job : IngestionJob) (t : Table) → Holds job.job_id t → Holds job.job_id (stages_of job t).0
  stages_of-Holds job t h =
      run_stages-keeps c elapsed_ms (report_to job.job_id) job.datasource_name job.schemas
        (λ _. Unit) (Holds job.job_id) (report_to-Holds job.job_id) 0 (keep is_pending job.steps) t
        (All-Elem _ _ (λ s m. tt)) h

  -- Whatever the stages do, and whatever they raise, a job comes to an end that has a row in a
  -- table which keeps its keys and its index: the worker does not raise, the table keeps both, and
  -- the row reads succeeded when the stages returned. Otherwise it reads failed, with the exception
  -- and with the first step that is recorded as failed. Its steps are as the stages left them.
  pub run_job_ends :
      (job : IngestionJob) (now : ℕ) (t : Table)
      → Holds job.job_id t
      → (t' : Table) × (done : IngestionJob) × (run_job c elapsed_ms job now t ≡ (t', ok tt))
        × IsValid t'
        × (get job.job_id t' ≡ ok done)
        × EndsAs (stages_of job t).1 done
        × ((left : Row) × (row_of job.job_id (stages_of job t).0 ≡ some left)
            × (done.steps ≡ left.job.steps))
  unfolding run_job fail_job get
  run_job_ends job now t h = elim (Result-cases (stages_of job t).1) [
    | inl (value, returned) ↦
        let (t', done, valid, (r, found, row)) =
          settled-finish job.job_id JobStatus.succeeded none none now (stages_of job t).0 refl
            (stages_of-Holds job t h) in
        (t', _, rw (run_job, returned) done, valid, row, rw returned (refl, refl), (r, found, refl))
    | inr (e, raised) ↦
        let (t', done, valid, (r, found, row)) =
          settled-finish job.job_id JobStatus.failed (some e)
            (failed_at_in (get job.job_id (stages_of job t).0)) now (stages_of job t).0 refl
            (stages_of-Holds job t h) in
        let blamed : failed_at_in (get job.job_id (stages_of job t).0) ≡ failed_at r.job.steps =
          blame job.job_id (stages_of job t).0 r found in
        (
          t',
          _,
          rw (run_job, raised) done,
          valid,
          row,
          rw raised (refl, refl, blamed),
          (r, found, refl),
        )
  ]

pub any_row :
    (job_id : String) (t : Table) (r : Row)
    → row_of job_id t ≡ some r
    → any (has_id job_id) t ≡ true
unfolding row_of
any_row job_id [] r e = cc
any_row job_id (x ∷ xs) r e = ground (arith, any_row job_id xs r)
