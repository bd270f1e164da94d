-- ===== src/Ingestion/Queue.antt =====
-- What the statements on the job table promise the workers
-- (genql/repositories/semantic/ingestion_job_repository.py).
use gen_ql.Base.{
  ℕ, String, true, false, Option, none, some, map, keep, if◌then◌else◌, ◌≡◌, ◌≢◌, ◌≤◌, refl,
  Bool-cases, Option-cases, Elem, Elem-keep, keep-Elem, Result, ok, arith, inl, inr, ◌⊎◌, eq_iff,
}
use gen_ql.Ingestion.{IngestionJob}
use gen_ql.Ingestion.Jobs.{
  Row, Table, is_queued, has_id, update_job, oldest, claimed, claim_next, is_stale, released,
}
use gen_ql.Ingestion.Index.{
  IsValid, map-IsValid, commit-eq-ok, Elem-of_map, Elem-oldest, oldest-some, oldest-le,
  claim_change, claim-Quiet,
}

-- A claim that found the queue empty, or took the oldest queued row `r`.
abbrev pub IsClaim : String → ℕ → Table → Result (Option IngestionJob × Table) → Type 0
IsClaim worker_id now t outcome =
    ((outcome ≡ ok (none, t)) × ((q : Row) → Elem q t → is_queued q ≡ false))
    ⊎ ((r : Row) × Elem r t
        × (is_queued r ≡ true)
        × ((q : Row) → Elem q t → is_queued q ≡ true → r.job.created_at ≤ q.job.created_at)
        × (outcome ≡ ok (some (claimed worker_id now r).job, map (claim_change worker_id now r) t)))

-- On a table that keeps its keys and its index, the index never refuses a claim: either no job is
-- queued and the table stays, or the job is one of the queued ones of least creation time, and the
-- only change is that its row is running, for this worker and from now on.
pub claim_next-IsClaim :
    (worker_id : String) (now : ℕ) (t : Table)
    → IsValid t
    → IsClaim worker_id now t (claim_next worker_id now t)
unfolding claim_next update_job
claim_next-IsClaim worker_id now t (keyed, index) =
    elim (Option-cases (oldest (keep is_queued t))) [
      | inl empty ↦ inl (
        rw (claim_next, empty) refl,
        λ q m. elim (Bool-cases (is_queued q)) [
          | inl queued ↦
              absurd (oldest-some q (keep is_queued t) (keep-Elem is_queued q t m queued) empty)
          | inr other ↦ other
        ],
      )
      | inr (r, found) ↦
          let (m, queued) = Elem-keep is_queued r t (Elem-oldest (keep is_queued t) found) in
          let (_, index') =
            map-IsValid (claim_change worker_id now r) t
              (claim-Quiet worker_id now r t keyed m queued) (keyed, index) in
          inr (
            r,
            m,
            queued,
            (λ q mq waiting.
                oldest-le (keep is_queued t) q found (keep-Elem is_queued q t mq waiting)),
            rw (claim_next, found) (commit-eq-ok _ _ index'),
          )
    ]

pub claim_next-IsValid :
    (worker_id : String) (now : ℕ) (t t' : Table) (taken : Option IngestionJob)
    → IsValid t
    → claim_next worker_id now t ≡ ok (taken, t')
    → IsValid t'
claim_next-IsValid worker_id now t t' taken v e = elim (claim_next-IsClaim worker_id now t v) [
  | inl (same, _) ↦ let tables : t ≡ t' = cc in rw (← tables) v
  | inr (r, m, queued, _, same) ↦
      let tables : map (claim_change worker_id now r) t ≡ t' = cc in
      rw (← tables) (map-IsValid _ t (claim-Quiet worker_id now r t v.0 m queued) v)
]

-- On a table that keeps its keys and its index, two claims in a row that both take a job, of any
-- workers and at any times, never take the same one.
pub claims_differ :
    (first_worker second_worker : String) (now later : ℕ) (t t' t'' : Table) (j k : IngestionJob)
    → IsValid t
    → claim_next first_worker now t ≡ ok (some j, t')
    → claim_next second_worker later t' ≡ ok (some k, t'')
    → j.job_id ≢ k.job_id
claims_differ first_worker second_worker now later t t' t'' j k v e f same =
    elim (claim_next-IsClaim first_worker now t v) [
      | inl (none_taken, _) ↦ cc
      | inr (r, m, queued, _, taken) ↦
          elim (claim_next-IsClaim second_worker later t'
            (claim_next-IsValid first_worker now t t' (some j) v e)) [
              | inl (none_taken, _) ↦ cc
              | inr (q, mq, waiting, _, again) ↦
                  let tables : map (claim_change first_worker now r) t ≡ t' = cc in
                  let jr : (claimed first_worker now r).job ≡ j = cc in
                  let kq : (claimed second_worker later q).job ≡ k = cc in
                  let ids : q.job.job_id ≡ r.job.job_id = cc in
                  let (x, mx, ex) =
                    Elem-of_map (claim_change first_worker now r) q t (rw tables mq) in
                  elim (Bool-cases (has_id r.job.job_id x)) [
                    | inl mine ↦
                        let is_claimed : q ≡ claimed first_worker now x = ground arith in
                        absurd (ground arith)
                    | inr other ↦
                        let kept : q ≡ x = ground arith in
                        let own : has_id r.job.job_id x ≡ true = (eq_iff _ _).1 (cc) in cc
                  ]
            ]
    ]

-- The change that a sweep makes.
abbrev pub release_change : ℕ → ℕ → Row → Row
release_change older now r = if is_stale older now r then released r else r
