-- ===== src/Ingestion/Submission.antt =====
-- What a submission does (genql/services/datasource/onboarding_service.py).
use gen_ql.Base.{
  ℕ, String, Bool, true, false, ◌||◌, Option, none, some, List, [], ◌∷◌, ◌++◌, any, keep, ◌==◌, ◌≡◌,
  refl, sym, ◌∙◌, Bool-cases, Option-cases, Elem, ok, err, arith, inl, inr, ◌⊎◌, eq_iff,
  ingestion_in_progress_error,
}
use gen_ql.Ingestion.{IngestionStep, IngestionJob}
use gen_ql.Ingestion.Jobs.{
  Row, Table, is_active, active_for, one_active, commit, has_id, newest, active_for_datasource,
  submit,
}
use gen_ql.Ingestion.Onboarding.{carry_forward, queue, queued_job}
use gen_ql.Ingestion.Index.{IsValid, commit-eq-ok}

newest-nil : (rs : Table) → newest rs ≡ none → rs ≡ []
unfolding newest
newest-nil [] e = refl
newest-nil (x ∷ xs) e = elim (Option-cases (newest xs)) [
  | inl empty ↦ ground arith
  | inr (o, some_o) ↦ ground arith
]

keep-any : (p : Row → Bool) (rs : Table) → keep p rs ≡ [] → any p rs ≡ false
keep-any p [] e = refl
keep-any p (x ∷ xs) e = ground (arith, keep-any p xs)

-- Without a newest active row there is no active row.
idle-any :
    (d : String) (t : Table) → active_for_datasource d t ≡ none → any (active_for d) t ≡ false
unfolding active_for_datasource
idle-any d t e = elim (Option-cases (newest (keep (active_for d) t))) [
  | inl empty ↦ keep-any (active_for d) t (newest-nil _ empty)
  | inr (o, some_o) ↦ ground arith
]

any-append : (p : Row → Bool) (rs : Table) (r : Row) → any p (rs ++ r ∷ []) ≡ (any p rs || p r)
any-append p [] r = ground arith
any-append p (x ∷ xs) r = ground (arith, any-append p xs r)

one_active-append :
    (rs : Table) (r : Row)
    → one_active rs ≡ true
    → any (active_for r.job.datasource_name) rs ≡ false
    → one_active (rs ++ r ∷ []) ≡ true
unfolding one_active
one_active-append [] r e idle = ground arith
one_active-append (x ∷ xs) r e idle =
    elim (Bool-cases (r.job.datasource_name == x.job.datasource_name)) [
      | inl equal ↦
          let names : r.job.datasource_name ≡ x.job.datasource_name = (eq_iff _ _).0 equal in
          let own : (x.job.datasource_name == r.job.datasource_name) ≡ true =
            (eq_iff _ _).1 (sym names) in
          let later : one_active (xs ++ r ∷ []) ≡ true =
            one_active-append xs r (ground arith) (ground arith) in
          let inactive : is_active x ≡ false = ground arith in ground arith
      | inr other ↦
          let later : one_active (xs ++ r ∷ []) ≡ true =
            one_active-append xs r (ground arith) (ground arith) in
          let apart : active_for x.job.datasource_name r ≡ false = ground arith in
          let same : any (active_for x.job.datasource_name) (xs ++ r ∷ [])
              ≡ any (active_for x.job.datasource_name) xs =
            any-append (active_for x.job.datasource_name) xs r ∙ ground arith in
          ground arith
    ]

Elem-of_append : (y : Row) (rs : Table) (r : Row) → Elem y (rs ++ r ∷ []) → Elem y rs ⊎ (y ≡ r)
Elem-of_append y [] r (inl same) = inr same
Elem-of_append y [] r (inr later) = absurd later
Elem-of_append y (x ∷ xs) r (inl same) = inl (inl same)
Elem-of_append y (x ∷ xs) r (inr later) = elim (Elem-of_append y xs r later) [
  | inl m ↦ inl (inr m)
  | inr same ↦ inr same
]

any-Elem : (p : Row → Bool) (r : Row) (rs : Table) → any p rs ≡ false → Elem r rs → p r ≡ false
any-Elem p r [] h m = absurd m
any-Elem p r (x ∷ xs) h m = ground (arith, any-Elem p r xs)

pub append-IsValid :
    (t : Table) (r : Row)
    → IsValid t
    → any (has_id r.job.job_id) t ≡ false
    → any (active_for r.job.datasource_name) t ≡ false
    → IsValid (t ++ r ∷ [])
append-IsValid t r (keyed, index) fresh idle = (
  λ a b ma mb same. elim (Elem-of_append a t r ma) [
    | inl old ↦ elim (Elem-of_append b t r mb) [
      | inl both ↦ keyed a b old both same
      | inr new ↦
          let taken : has_id r.job.job_id a ≡ true = (eq_iff _ _).1 (cc) in
          let free : has_id r.job.job_id a ≡ false = any-Elem _ a t fresh old in cc
    ]
    | inr newer ↦ elim (Elem-of_append b t r mb) [
      | inl old ↦
          let taken : has_id r.job.job_id b ≡ true = (eq_iff _ _).1 (cc) in
          let free : has_id r.job.job_id b ≡ false = any-Elem _ b t fresh old in cc
      | inr new ↦ cc
    ]
  ],
  one_active-append t r index idle,
)

-- The row of a job that nobody has claimed.
abbrev pub waiting_row : IngestionJob → Row
waiting_row job = record { job = job; claimed_by = none; claimed_at = none }

-- With a fresh id and steps that could be carried forward, a submission is either refused because
-- the datasource has an active job, or it adds exactly the new queued job, the database refuses
-- nothing, and the table keeps its keys and its index.
pub queue_submits :
    (job_id : String) (now : ℕ) (datasource : String) (schemas : List String) (user_id : String)
    (start_from : Option String) (previous : Option IngestionJob) (t : Table)
    {steps : List IngestionStep}
    → IsValid t
    → any (has_id job_id) t ≡ false
    → carry_forward start_from previous ≡ ok steps
    → ((active : IngestionJob) × (active_for_datasource datasource t ≡ some active)
        × (queue job_id now datasource schemas user_id start_from previous t
            ≡ err (ingestion_in_progress_error active.job_id)))
      ⊎ ((t' : Table) × (queue job_id now datasource schemas user_id start_from previous t
            ≡ ok (queued_job job_id datasource schemas user_id now steps, t'))
          × (t' ≡ t ++ waiting_row (queued_job job_id datasource schemas user_id now steps) ∷ [])
          × IsValid t')
unfolding queue submit
queue_submits job_id now datasource schemas user_id start_from previous t {steps} v fresh carry =
    elim (Option-cases (active_for_datasource datasource t)) [
      | inr (active, found) ↦ inl (active, found, rw (queue, found) refl)
      | inl idle ↦
          let job : IngestionJob = queued_job job_id datasource schemas user_id now steps in
          let valid : IsValid (t ++ waiting_row job ∷ []) =
            append-IsValid t (waiting_row job) v fresh (idle-any datasource t idle) in
          let done : commit tt (t ++ waiting_row job ∷ []) ≡ ok (tt, t ++ waiting_row job ∷ []) =
            commit-eq-ok tt (t ++ waiting_row job ∷ []) valid.1 in
          inr (
            t ++ waiting_row job ∷ [],
            rw (queue, idle, carry, submit, fresh, done) refl,
            refl,
            valid,
          )
    ]
