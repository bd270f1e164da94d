-- ===== src/Ingestion/Stale.antt =====
-- A job that a sweep gave back to the queue, with a step that its dead worker left running
-- (genql/infrastructure/ingestion/worker.py).
use gen_ql.Base.{
  ℕ, String, some, List, [], ◌∷◌, map, any, keep, if◌then◌else◌, ◌==◌, ◌≡◌, ◌≢◌, refl, sym, subst,
  Bool-cases, Elem, Elem-append_left, All, ok, inl, inr, eq_iff,
}
use gen_ql.Ingestion.{JobStatus, IngestionStep, IngestionJob}
use gen_ql.Ingestion.Jobs.{Row, Table, row_of, get, with_step, put_step, record_step}
use gen_ql.Ingestion.Stages.{Collaborators}
use gen_ql.Ingestion.Worker.{is_pending, report_to, run_job}
use gen_ql.Ingestion.Reports.{run_stages-keeps}
use gen_ql.Ingestion.Ends.{Holds, row_of-update, stages_of, run_job_ends, any_row, EndsAs}

replace-Elem :
    (s step : IngestionStep) (steps : List IngestionStep)
    → step.name ≢ s.name
    → Elem s steps
    → Elem s (map (λ (x : IngestionStep). if x.name == step.name then step else x) steps)
replace-Elem s step [] other m = m
replace-Elem s step (x ∷ xs) other (inl same) = elim (Bool-cases (x.name == step.name)) [
  | inl own ↦
      let named : x.name ≡ step.name = (eq_iff _ _).0 own in
      let names : step.name ≡ s.name = cc in absurd (other names)
  | inr apart ↦ rw apart (inl same)
]
replace-Elem s step (x ∷ xs) other (inr later) = inr (replace-Elem s step xs other later)

put_step-Elem :
    (s step : IngestionStep) (steps : List IngestionStep)
    → step.name ≢ s.name
    → Elem s steps
    → Elem s (put_step step steps)
unfolding put_step
put_step-Elem s step steps other m =
    elim (Bool-cases (any (λ (x : IngestionStep). x.name == step.name) steps)) [
      | inl known ↦ rw (put_step, known) (replace-Elem s step steps other m)
      | inr new ↦
          rw (put_step, new) (Elem-append_left s _ (step ∷ []) (replace-Elem s step steps other m))
    ]

-- The job's row has the step `s`.
abbrev pub Shows : String → IngestionStep → Table → Type 0
Shows job_id s t = (r : Row) × (row_of job_id t ≡ some r) × Elem s r.job.steps

report_to-Shows :
    (job_id : String) (s : IngestionStep) (step : IngestionStep) (t : Table)
    → step.name ≢ s.name
    → Shows job_id s t
    → Shows job_id s (report_to job_id step t).0
unfolding report_to record_step
report_to-Shows job_id s step t other (r, found, m) =
    let (x, there, changed) =
      row_of-update job_id (with_step step) t (λ r. refl) (any_row job_id t r found) in
    let same : r ≡ x = cc in
    rw (report_to, record_step, found)
      (
        with_step step x,
        changed,
        put_step-Elem s step x.job.steps other (subst (λ (y : Row). Elem s y.job.steps) same m),
      )

module _ {Overlay : Type 0} (c : ℕ → Collaborators Overlay) (elapsed_ms : ℕ → ℕ) where
  -- A step whose entry is neither pending nor failed, and whose name no such entry has, is never
  -- run again: the worker ends the job, and the job still shows that step as it stood, running for
  -- ever if a dead worker left it so, while the row reads succeeded if the other stages returned.
  pub stale_step_stays :
      (job : IngestionJob) (now : ℕ) (t : Table) (s : IngestionStep)
      → Holds job.job_id t
      → Shows job.job_id s t
      → All (λ (p : IngestionStep). p.name ≢ s.name) (keep is_pending job.steps)
      → (t' : Table) × (done : IngestionJob) × (run_job c elapsed_ms job now t ≡ (t', ok tt))
        × (get job.job_id t' ≡ ok done)
        × Elem s done.steps
        × ((stages_of c elapsed_ms job t).1 ≡ ok tt → done.status ≡ JobStatus.succeeded)
  stale_step_stays job now t s h shows others =
      let (t', done, ends, _, row, as_outcome, (left, found, steps)) =
        run_job_ends c elapsed_ms job now t h in
      let (r, there, m) =
        run_stages-keeps c elapsed_ms (report_to job.job_id) job.datasource_name job.schemas
          (λ name. name ≢ s.name) (Shows job.job_id s) (report_to-Shows job.job_id s) 0
          (keep is_pending job.steps) t others shows in
      let same : r ≡ left = cc in
      let stands : Elem s left.job.steps = subst (λ (y : Row). Elem s y.job.steps) same m in
      (
        t',
        done,
        ends,
        row,
        subst (λ xs. Elem s xs) (sym steps) stands,
        λ returned. (subst (λ o. EndsAs o done) returned as_outcome).0,
      )
