-- ===== src/Ingestion/Scopes.antt =====
-- What the discovery of a scope returns (genql/discovery/runner.py).
use gen_ql.Base.{
  ℕ, String, true, false, Option, none, some, List, [], ◌∷◌, if◌then◌else◌, ◌==◌, ◌≡◌, refl,
  Bool-cases, Result-cases, All, ok, err, Error, is_genql_error, arith, inl, inr, ◌⊎◌,
}
use gen_ql.Ingestion.Discovery.{
  SchemaRef, StepResult, DiscoveryStep, ScopeRunResult, all_succeeded, failed_result, result_of,
  run_steps, steps_from, select_steps, run_discovery, run_ref, run_refs, run_scope,
}

-- No step raises anything but a GenqlError.
abbrev pub Contained : ℕ → List DiscoveryStep → Type 0
Contained limit = All (λ (step : DiscoveryStep).
    (ref : SchemaRef) (e : Error) → step.run ref limit ≡ err e → is_genql_error e ≡ true)

-- The results of a run at a schema: each is what its step returned there, or the failure for what
-- it raised; and every step succeeded, or all before the last did, and the last did not.
abbrev pub IsRun : SchemaRef → ℕ → List DiscoveryStep → List StepResult → Type 0
IsRun ref limit [] [] = Unit
IsRun ref limit [] (r ∷ rs) = ⊥
IsRun ref limit (step ∷ steps) [] = ⊥
IsRun ref limit (step ∷ steps) (r ∷ rs) =
    (result_of step.name (step.run ref limit) ≡ ok r)
    × (((r.succeeded ≡ true) × IsRun ref limit steps rs) ⊎ ((r.succeeded ≡ false) × (rs ≡ [])))

result_of-ok :
    (limit : ℕ) (step : DiscoveryStep) (ref : SchemaRef)
    → ((e : Error) → step.run ref limit ≡ err e → is_genql_error e ≡ true)
    → (r : StepResult) × (result_of step.name (step.run ref limit) ≡ ok r)
result_of-ok limit step ref h = elim (Result-cases (step.run ref limit)) [
  | inl (r, ran) ↦ (r, rw ran refl)
  | inr (e, raised) ↦
      let genql : is_genql_error e ≡ true = h e raised in
      (failed_result step.name e, rw (raised, genql) refl)
]

run_steps-passed :
    (ref : SchemaRef) (limit : ℕ) (step : DiscoveryStep) (steps : List DiscoveryStep)
    (r : StepResult) (rs : List StepResult)
    → result_of step.name (step.run ref limit) ≡ ok r
    → r.succeeded ≡ true
    → run_steps ref limit steps ≡ ok rs
    → run_steps ref limit (step ∷ steps) ≡ ok (r ∷ rs)
unfolding run_steps
run_steps-passed ref limit step steps r rs ran passed rest = ground arith

run_steps-failed :
    (ref : SchemaRef) (limit : ℕ) (step : DiscoveryStep) (steps : List DiscoveryStep)
    (r : StepResult)
    → result_of step.name (step.run ref limit) ≡ ok r
    → r.succeeded ≡ false
    → run_steps ref limit (step ∷ steps) ≡ ok (r ∷ [])
unfolding run_steps
run_steps-failed ref limit step steps r ran failed = ground arith

run_steps-IsRun :
    (ref : SchemaRef) (limit : ℕ) (steps : List DiscoveryStep)
    → Contained limit steps
    → (rs : List StepResult) × (run_steps ref limit steps ≡ ok rs) × IsRun ref limit steps rs
unfolding run_steps
run_steps-IsRun ref limit [] h = ([], refl, tt)
run_steps-IsRun ref limit (step ∷ steps) (h, hs) =
    let (r, ran) = result_of-ok limit step ref (h ref) in
    elim (Bool-cases r.succeeded) [
      | inr failed ↦
          (r ∷ [], run_steps-failed ref limit step steps r ran failed, (ran, inr (failed, refl)))
      | inl passed ↦
          let (rs, rest, is_run) = run_steps-IsRun ref limit steps hs in
          (
            r ∷ rs,
            run_steps-passed ref limit step steps r rs ran passed rest,
            (ran, inl (passed, is_run)),
          )
    ]

steps_from-Contained :
    (limit : ℕ) (name : String) (steps : List DiscoveryStep)
    → Contained limit steps
    → Contained limit (steps_from name steps)
unfolding steps_from
steps_from-Contained limit name [] h = h
steps_from-Contained limit name (s ∷ ss) (h, hs) = elim (Bool-cases (s.name == name)) [
  | inl own ↦ rw own (h, hs)
  | inr other ↦ rw other (steps_from-Contained limit name ss hs)
]

select_steps-Contained :
    (limit : ℕ) (start_from : Option String) (steps selected : List DiscoveryStep)
    → Contained limit steps
    → select_steps start_from steps ≡ ok selected
    → Contained limit selected
unfolding select_steps
select_steps-Contained limit none steps selected h e =
    let same : steps ≡ selected = cc in rw (← same) h
select_steps-Contained limit (some name) steps selected h e =
    let same : steps_from name steps ≡ selected = ground arith in
    rw (← same) (steps_from-Contained limit name steps h)

-- The outcome for one schema: a run of the selected steps, stamped as discovered when all of them
-- succeeded and there was one.
abbrev pub IsOutcome :
    ℕ → List DiscoveryStep → SchemaRef → ScopeRunResult × Option SchemaRef → Type 0
IsOutcome limit selected ref (o, stamp) =
    (o.ref ≡ ref)
    × IsRun ref limit selected o.results
    × (stamp ≡ (if all_succeeded o.results then some ref else none))

abbrev pub AreOutcomes :
    ℕ → List DiscoveryStep → List SchemaRef → List (ScopeRunResult × Option SchemaRef) → Type 0
AreOutcomes limit selected [] [] = Unit
AreOutcomes limit selected [] (o ∷ os) = ⊥
AreOutcomes limit selected (ref ∷ refs) [] = ⊥
AreOutcomes limit selected (ref ∷ refs) (o ∷ os) =
    IsOutcome limit selected ref o × AreOutcomes limit selected refs os

run_refs-AreOutcomes :
    (limit : ℕ) (start_from : Option String) (steps selected : List DiscoveryStep)
    (refs : List SchemaRef)
    → select_steps start_from steps ≡ ok selected
    → Contained limit selected
    → (os : List (ScopeRunResult × Option SchemaRef)) × (run_refs steps limit start_from refs
        ≡ ok os)
      × AreOutcomes limit selected refs os
unfolding run_refs run_ref run_discovery
run_refs-AreOutcomes limit start_from steps selected [] e h = ([], refl, tt)
run_refs-AreOutcomes limit start_from steps selected (ref ∷ refs) e h =
    let (rs, ran, is_run) = run_steps-IsRun ref limit selected h in
    let (os, rest, outcomes) = run_refs-AreOutcomes limit start_from steps selected refs e h in
    let outcome : ScopeRunResult × Option SchemaRef =
      (record { ref = ref; results = rs }, if all_succeeded rs then some ref else none) in
    let one : run_ref steps limit start_from ref ≡ ok outcome =
      rw (run_ref, run_discovery, e, ran) refl in
    (outcome ∷ os, rw (run_refs, one, rest) refl, ((refl, is_run, refl), outcomes))

-- One schema's failure does not abandon the rest of the scope: where no step raises anything but a
-- GenqlError and the first step is known, every schema of the scope has its outcome, in order. The
-- results of an outcome are what the selected steps returned at this schema, or the failures for
-- what they raised, in order, for all of them or up to the first that did not succeed. The schema is stamped as discovered exactly when all of them ran and succeeded, and
-- there was at least one.
pub run_scope-AreOutcomes :
    (limit : ℕ) (start_from : Option String) (steps selected : List DiscoveryStep)
    (refs : List SchemaRef)
    → Contained limit steps
    → select_steps start_from steps ≡ ok selected
    → (os : List (ScopeRunResult × Option SchemaRef)) × (run_scope steps limit start_from refs
        ≡ ok os)
      × AreOutcomes limit selected refs os
unfolding run_scope
run_scope-AreOutcomes limit start_from steps selected refs h e =
    let (os, ran, outcomes) =
      run_refs-AreOutcomes limit start_from steps selected refs e
        (select_steps-Contained limit start_from steps selected h e) in
    (os, rw (run_scope, e, ran) refl, outcomes)
