-- ===== src/Ingestion/Index.antt =====
-- The unique index of the job table: which statements it lets through
-- (genql/repositories/semantic/ingestion_job_repository.py).
use gen_ql.Base.{
  ℕ, String, true, false, none, some, [], ◌∷◌, map, any, if◌then◌else◌, ◌≡◌, ◌≢◌, ◌≤◌, refl, leb,
  Bool-cases, Option-cases, Elem, ok, arith, inl, inr, eq_iff,
}
use gen_ql.Ingestion.Jobs.{
  Row, Table, is_queued, is_active, active_for, one_active, commit, has_id, oldest, claimed,
}

-- A change that keeps the job's id and its datasource, and makes no row of the table active.
abbrev pub Quiet : (Row → Row) → Table → Type 0
Quiet f rs =
    (r : Row)
    → Elem r rs
    → ((f r).job.datasource_name ≡ r.job.datasource_name)
      × ((f r).job.job_id ≡ r.job.job_id)
      × (is_active r ≡ false → is_active (f r) ≡ false)

any_active-map :
    (f : Row → Row) (d : String) (rs : Table)
    → Quiet f rs
    → any (active_for d) rs ≡ false
    → any (active_for d) (map f rs) ≡ false
any_active-map f d [] q h = refl
any_active-map f d (r ∷ rs) q h =
    ground (arith, any_active-map f d rs (λ x m. q x (inr m)), q r (inl refl))

one_active-map :
    (f : Row → Row) (rs : Table) → Quiet f rs → one_active rs ≡ true → one_active (map f rs) ≡ true
unfolding one_active
one_active-map f [] q h = refl
one_active-map f (r ∷ rs) q h = ground (
  arith,
  one_active-map f rs (λ x m. q x (inr m)),
  any_active-map f r.job.datasource_name rs (λ x m. q x (inr m)),
  q r (inl refl),
)

-- The primary key.
abbrev pub IsKeyed : Table → Type 0
IsKeyed rs = (r q : Row) → Elem r rs → Elem q rs → r.job.job_id ≡ q.job.job_id → r ≡ q

-- What the database keeps of the job table: the primary key and the unique index.
abbrev pub IsValid : Table → Type 0
IsValid rs = IsKeyed rs × (one_active rs ≡ true)

pub Elem-of_map :
    (f : Row → Row) (y : Row) (rs : Table) → Elem y (map f rs) → (r : Row) × Elem r rs × (y ≡ f r)
Elem-of_map f y [] m = absurd m
Elem-of_map f y (r ∷ rs) (inl same) = (r, inl refl, same)
Elem-of_map f y (r ∷ rs) (inr later) = let (x, m, e) = Elem-of_map f y rs later in (x, inr m, e)

pub map-IsValid : (f : Row → Row) (rs : Table) → Quiet f rs → IsValid rs → IsValid (map f rs)
map-IsValid f rs q (keyed, index) = (
  λ a b ma mb same.
      let (x, mx, ex) = Elem-of_map f a rs ma in
      let (y, my, ey) = Elem-of_map f b rs mb in
      let (_, idx, _) = q x mx in
      let (_, idy, _) = q y my in
      let ids : x.job.job_id ≡ y.job.job_id = cc in let rows : x ≡ y = keyed x y mx my ids in cc,
  one_active-map f rs q index,
)

pub commit-eq-ok : {A : Type 0} (a : A) (t : Table) → one_active t ≡ true → commit a t ≡ ok (a, t)
unfolding commit
commit-eq-ok a t h = rw h refl

pub Elem-oldest : (rs : Table) {r : Row} → oldest rs ≡ some r → Elem r rs
unfolding oldest
Elem-oldest [] e = cc
Elem-oldest (x ∷ xs) {r} e = elim (Option-cases (oldest xs)) [
  | inl empty ↦ ground arith
  | inr (o, some_o) ↦ let found : Elem o xs = Elem-oldest xs some_o in ground arith
]

pub oldest-some : (q : Row) (rs : Table) → Elem q rs → oldest rs ≢ none
unfolding oldest
oldest-some q [] m e = m
oldest-some q (x ∷ xs) m e = elim (Option-cases (oldest xs)) [
  | inl empty ↦ ground arith
  | inr (o, some_o) ↦ elim (Bool-cases (leb x.job.created_at o.job.created_at)) [
    | inl first ↦ ground arith
    | inr later ↦ ground arith
  ]
]

pub oldest-le :
    (rs : Table) (q : Row) {r : Row}
    → oldest rs ≡ some r
    → Elem q rs
    → r.job.created_at ≤ q.job.created_at
unfolding oldest
oldest-le [] q e m = absurd m
oldest-le (x ∷ xs) q {r} e m = elim (Option-cases (oldest xs)) [
  | inl empty ↦ elim m [
    | inl same ↦ ground arith
    | inr later ↦ absurd (oldest-some q xs later empty)
  ]
  | inr (o, some_o) ↦ elim m [
    | inl same ↦ ground arith
    | inr later ↦ ground (arith, oldest-le xs q some_o later)
  ]
]

-- The change that a claim of `r` makes.
abbrev pub claim_change : String → ℕ → Row → Row → Row
claim_change worker_id now r x = if has_id r.job.job_id x then claimed worker_id now x else x

pub claim-Quiet :
    (worker_id : String) (now : ℕ) (r : Row) (t : Table)
    → IsKeyed t
    → Elem r t
    → is_queued r ≡ true
    → Quiet (claim_change worker_id now r) t
claim-Quiet worker_id now r t keyed m queued x mx = elim (Bool-cases (has_id r.job.job_id x)) [
  | inr other ↦ rw other (refl, refl, λ idle. idle)
  | inl same ↦
      let ids : x.job.job_id ≡ r.job.job_id = (eq_iff _ _).0 same in
      let rows : x ≡ r = keyed x r mx m ids in rw same (refl, refl, λ idle. absurd (ground arith))
]
