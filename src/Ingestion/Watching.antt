-- ===== src/Ingestion/Watching.antt =====
-- How the stream of one job ends (genql/api/sse/ingestion_events.py).
use gen_ql.Base.{
  ℕ, zero, suc, ◌≤◌, String, true, false, Option, none, some, List, [], ◌∷◌, ◌++◌, map, ◌≡◌, ◌⊎◌,
  inl, inr, refl, arith, All, Bool-cases, Error, Result, ok, err,
}
use gen_ql.Ingestion.{IngestionStep, IngestionJob, terminal}
use gen_ql.Ingestion.Feed.{
  Event, step_event, progress_event, timeout_event, progress_of, terminal_event, Watched, before,
  change_events, timed_out, poll, watch, same_print, fingerprint,
}

-- A change of the job, before its end.
abbrev IsChange : Event → Type 0
IsChange (step_event job_id datasource step) = Unit
IsChange (progress_event job_id datasource status twelfths) = Unit
IsChange _ = ⊥

-- Changes, and then `last`, with nothing after it.
abbrev EndsIn : Event → List Event → Type 0
EndsIn last [] = ⊥
EndsIn last (x ∷ []) = x ≡ last
EndsIn last (x ∷ y ∷ ys) = IsChange x × EndsIn last (y ∷ ys)

-- Poll `i` and the `k - 1` after it find a job that is not at its end, and the next is as `P` says.
abbrev After : (ℕ → Result IngestionJob) → ℕ → ℕ → (ℕ → Type 0) → Type 0
After observe zero i P = P i
After observe (suc k) i P =
    ((job : IngestionJob) × (observe i ≡ ok job) × (terminal job ≡ false))
    × After observe k (suc i) P

abbrev Finds : (ℕ → Result IngestionJob) → Result IngestionJob → ℕ → Type 0
Finds observe found i = observe i ≡ found

-- The three ways: the first job at its end is reported with its terminal event; no poll before the
-- deadline finds one, which is reported with the job as it then stands; or the job cannot be read,
-- which breaks the stream off.
abbrev pub IsWatched : (ℕ → Result IngestionJob) → ℕ → ℕ → Watched → Type 0
IsWatched observe polls i w =
    ((k : ℕ) × (job : IngestionJob) × (suc k ≤ polls)
      × (terminal job ≡ true)
      × After observe k i (Finds observe (ok job))
      × (w.broken_by ≡ none)
      × EndsIn (terminal_event job) w.events)
    ⊎ (((job : IngestionJob) × After observe polls i (Finds observe (ok job))
          × (w.broken_by ≡ none)
          × EndsIn (timeout_event job) w.events)
        ⊎ ((k : ℕ) × (e : Error) × (k ≤ polls)
            × After observe k i (Finds observe (err e))
            × (w.broken_by ≡ some e)
            × All IsChange w.events))

changes_before :
    (steps : List IngestionStep) (job : IngestionJob) (last : Event) (es : List Event)
    → EndsIn last es
    → EndsIn last
        ((map (step_event job.job_id job.datasource_name) steps ++ progress_of job ∷ []) ++ es)
changes_before [] job last [] h = absurd h
changes_before [] job last (e ∷ es) h = (tt, h)
changes_before (s ∷ []) job last es h = (tt, changes_before [] job last es h)
changes_before (s ∷ t ∷ ts) job last es h = (tt, changes_before (t ∷ ts) job last es h)

All-changes :
    (steps : List IngestionStep) (job : IngestionJob) (es : List Event)
    → All IsChange es
    → All IsChange
        ((map (step_event job.job_id job.datasource_name) steps ++ progress_of job ∷ []) ++ es)
All-changes [] job es h = (tt, h)
All-changes (s ∷ ss) job es h = (tt, All-changes ss job es h)

change-EndsIn :
    (previous : Option String) (job : IngestionJob) (last : Event) (es : List Event)
    → EndsIn last es
    → EndsIn last (change_events previous job ++ es)
unfolding change_events
change-EndsIn previous job last es h = elim (Bool-cases (same_print previous (fingerprint job))) [
  | inl same ↦ rw same h
  | inr new ↦ rw new (changes_before job.steps job last es h)
]

IsChange-All :
    (previous : Option String) (job : IngestionJob) (es : List Event)
    → All IsChange es
    → All IsChange (change_events previous job ++ es)
unfolding change_events
IsChange-All previous job es h = elim (Bool-cases (same_print previous (fingerprint job))) [
  | inl same ↦ rw same h
  | inr new ↦ rw new (All-changes job.steps job es h)
]

module _ (observe : ℕ → Result IngestionJob) where
  -- One more job that is not at its end, before what is watched later.
  later-IsWatched :
      (polls i : ℕ) (previous : Option String) (job : IngestionJob) (w : Watched)
      → observe i ≡ ok job
      → terminal job ≡ false
      → IsWatched observe polls (suc i) w
      → IsWatched observe (suc polls) i (before (change_events previous job) w)
  later-IsWatched polls i previous job w seen open_end
        (inl (k, last, fits, end, after, whole, ends)) =
      inl (
        suc k,
        last,
        omega (arith, fits),
        end,
        ((job, seen, open_end), after),
        whole,
        change-EndsIn previous job (terminal_event last) w.events ends,
      )
  later-IsWatched polls i previous job w seen open_end (inr (inl (last, after, whole, ends))) =
      inr (
        inl (
          last,
          ((job, seen, open_end), after),
          whole,
          change-EndsIn previous job (timeout_event last) w.events ends,
        ))
  later-IsWatched polls i previous job w seen open_end
        (inr (inr (k, e, fits, after, broken, changes))) =
      inr (
        inr (
          suc k,
          e,
          omega (arith, fits),
          ((job, seen, open_end), after),
          broken,
          IsChange-All previous job w.events changes,
        ))

  timed_out-IsWatched :
      (i : ℕ) (found : Result IngestionJob)
      → observe i ≡ found
      → IsWatched observe zero i (timed_out found)
  timed_out-IsWatched i (ok job) seen = inr (inl (job, seen, refl, refl))
  timed_out-IsWatched i (err e) seen = inr (inr (0, e, omega arith, seen, refl, tt))

  poll-IsWatched :
      (polls i : ℕ) (previous : Option String) (found : Result IngestionJob)
      (rest : String → Watched)
      → observe i ≡ found
      → ((print : String) → IsWatched observe polls (suc i) (rest print))
      → IsWatched observe (suc polls) i (poll previous found rest)
  unfolding poll
  poll-IsWatched polls i previous (err e) rest seen later =
      inr (inr (0, e, omega arith, seen, refl, tt))
  poll-IsWatched polls i previous (ok job) rest seen later = elim (Bool-cases (terminal job)) [
    | inl end ↦ rw end (
        inl (
          0,
          job,
          omega arith,
          end,
          seen,
          refl,
          change-EndsIn previous job (terminal_event job) (terminal_event job ∷ []) refl,
        ))
    | inr open_end ↦ rw open_end (
        later-IsWatched polls i previous job (rest (fingerprint job)) seen open_end
          (later (fingerprint job)))
  ]

  -- Whatever the job does while it is watched: the stream ends with exactly one terminal event, which
  -- comes after changes only and has nothing after it, and which is that of the first poll that
  -- finds the job at its end, or, where no poll before the deadline does, the one that says so. The
  -- exception is a job that cannot be read: it breaks the stream off with no terminal event.
  pub watch-IsWatched :
      (polls i : ℕ) (previous : Option String)
      → IsWatched observe polls i (watch observe polls i previous)
  unfolding watch
  watch-IsWatched zero i previous = timed_out-IsWatched i (observe i) refl
  watch-IsWatched (suc polls) i previous =
      poll-IsWatched polls i previous (observe i) _ refl
        (λ print. watch-IsWatched polls (suc i) (some print))
