-- ===== src/Ingestion/Resumption.antt =====
-- The steps of a resumed job (genql/domain/entities/ingestion_job.py,
-- genql/services/datasource/onboarding_service.py).
use gen_ql.Base.{
  String, true, some, List, [], ◌∷◌, ◌++◌, map, ◌==◌, contains, Elem-contains, ◌≡◌, refl, sym, ap,
  ◌∙◌, Bool-cases, Option-cases, Elem, All, All-Elem, Elem-All, Elem-append_left, Elem-append_right,
  ok, arith, inl, inr, eq_iff, is_some,
}
use gen_ql.Ingestion.{
  IngestionStep, IngestionJob, step_sequence, pending_steps, from_name, up_to_name, step_named,
  fresh_step,
}
use gen_ql.Ingestion.Onboarding.{carry_forward, carried}

abbrev names_of : List IngestionStep → List String
names_of steps = map (λ (s : IngestionStep). s.name) steps

from_up_to : (x : String) (xs : List String) → up_to_name x xs ++ from_name x xs ≡ xs
unfolding up_to_name from_name
from_up_to x [] = refl
from_up_to x (y ∷ ys) = ground (arith, from_up_to x ys)

step_named-name :
    (name : String) (ss : List IngestionStep) (s : IngestionStep)
    → step_named name ss ≡ some s
    → s.name ≡ name
unfolding step_named
step_named-name name [] s e = cc
step_named-name name (x ∷ xs) s e = elim (Bool-cases (x.name == name)) [
  | inl own ↦
      let named : x.name ≡ name = (eq_iff _ _).0 own in let same : x ≡ s = ground arith in cc
  | inr other ↦ step_named-name name xs s (ground arith)
]

-- The previous job has an entry for every one of these steps.
abbrev pub Recorded : IngestionJob → List String → Type 0
Recorded job = All (λ name. is_some (step_named name job.steps) ≡ true)

names-carried :
    (names : List String) (job : IngestionJob)
    → Recorded job names
    → names_of (carried names job) ≡ names
unfolding carried
names-carried [] job h = refl
names-carried (n ∷ ns) job (here, later) = elim (Option-cases (step_named n job.steps)) [
  | inl missing ↦ ground arith
  | inr (s, found) ↦
      let named : s.name ≡ n = step_named-name n job.steps s found in
      let rest : names_of (carried ns job) ≡ ns = names-carried ns job later in ground arith
]

names-fresh : (names : List String) → names_of (map fresh_step names) ≡ names
names-fresh [] = refl
names-fresh (n ∷ ns) = rw (names-fresh ns) refl

fresh-Elem :
    (n : String) (names : List String) → Elem n names → Elem (fresh_step n) (map fresh_step names)
fresh-Elem n [] m = m
fresh-Elem n (x ∷ xs) (inl same) = inl (ap fresh_step same)
fresh-Elem n (x ∷ xs) (inr later) = inr (fresh-Elem n xs later)

names-append : (xs ys : List IngestionStep) → names_of (xs ++ ys) ≡ names_of xs ++ names_of ys
names-append [] ys = refl
names-append (x ∷ xs) ys = ap (λ ns. x.name ∷ ns) (names-append xs ys)

carried-Elem :
    (names : List String) (job : IngestionJob) (n : String) (s : IngestionStep)
    → Elem n names
    → step_named n job.steps ≡ some s
    → Elem s (carried names job)
unfolding carried
carried-Elem [] job n s m found = m
carried-Elem (x ∷ xs) job n s (inl same) found =
    let there : step_named x job.steps ≡ some s =
      ap (λ k. step_named k job.steps) (sym same) ∙ found in
    rw (carried, there) (inl refl)
carried-Elem (x ∷ xs) job n s (inr later) found = elim (Option-cases (step_named x job.steps)) [
  | inl missing ↦ rw (carried, missing) (carried-Elem xs job n s later found)
  | inr (other, there) ↦ rw (carried, there) (inr (carried-Elem xs job n s later found))
]

fresh-All :
    (names : List String) (front : List IngestionStep)
    → All (λ n. Elem (fresh_step n) (front ++ map fresh_step names)) names
fresh-All names front =
    All-Elem _ names (λ n m. Elem-append_right (fresh_step n) front _ (fresh-Elem n names m))

resumed-names :
    (name : String) (job : IngestionJob) (xs : List String)
    → Recorded job (up_to_name name xs)
    → names_of (carried (up_to_name name xs) job ++ map fresh_step (from_name name xs)) ≡ xs
resumed-names name job xs recorded =
    names-append _ _
    ∙ ap (λ ns. ns ++ names_of (map fresh_step (from_name name xs))) (names-carried _ job recorded)
    ∙ ap (λ ns. up_to_name name xs ++ ns) (names-fresh _)
    ∙ from_up_to name xs

Recorded-carried :
    (names : List String) (job : IngestionJob) (ys : List IngestionStep)
    → Recorded job names
    → All
        (λ n.
          (s : IngestionStep) × (step_named n job.steps ≡ some s)
          × Elem s (carried names job ++ ys))
        names
Recorded-carried names job ys recorded = All-Elem _ names (λ n m.
    elim (Option-cases (step_named n job.steps)) [
      | inl missing ↦ absurd (
          let h : is_some (step_named n job.steps) ≡ true = Elem-All _ n names m recorded in
          ground arith)
      | inr (s, found) ↦
          (s, found, Elem-append_left s (carried names job) ys (carried-Elem names job n s m found))
    ])

-- A retry from a step of the sequence, where the previous job has an entry for every earlier step,
-- starts with one entry for each of the six steps, in the order of the sequence: the earlier ones
-- as the previous job recorded them, and the others fresh.
pub carry_forward-IsWhole :
    (name : String) (job : IngestionJob)
    → Elem name step_sequence
    → Recorded job (up_to_name name step_sequence)
    → (steps : List IngestionStep) × (carry_forward (some name) (some job) ≡ ok steps)
      × (map (λ (s : IngestionStep). s.name) steps ≡ step_sequence)
      × All (λ n. Elem (fresh_step n) steps) (from_name name step_sequence)
      × All
          (λ n. (s : IngestionStep) × (step_named n job.steps ≡ some s) × Elem s steps)
          (up_to_name name step_sequence)
unfolding carry_forward pending_steps
carry_forward-IsWhole name job m recorded =
    let known : contains step_sequence name ≡ true = Elem-contains step_sequence name m in
    let fresh : List IngestionStep = map fresh_step (from_name name step_sequence) in
    let front : List IngestionStep = carried (up_to_name name step_sequence) job in
    (
      front ++ fresh,
      rw (carry_forward, pending_steps, known) refl,
      resumed-names name job step_sequence recorded,
      fresh-All (from_name name step_sequence) front,
      Recorded-carried (up_to_name name step_sequence) job fresh recorded,
    )
