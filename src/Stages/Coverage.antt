-- ===== src/Stages/Coverage.antt =====
-- What the critique covers, and the selection after it (genql/services/query/critique_service.py and
-- candidate_selection_service.py).
use gen_ql.Base.{
  ℕ, suc, ◌+◌, ◌≤◌, ◌<◌, String, Option, none, some, List, [], ◌∷◌, ◌≡◌, refl, ap, arith, map,
  length, get_elem?, All, Elem, Elem-append_left, FloatOps, Result, ok, ◌>>=◌,
}
use gen_ql.Entities.{
  SchemaLink, QueryPlan, SqlCandidate, Defect, CritiqueReport, CandidateSelection,
}
use gen_ql.Selection.{select}
use gen_ql.Selection.Choice.{get_elem?-lt, select_total}
use gen_ql.Stages.Critique.{
  CandidateCritique, Critic, deterministic_defects, or_missing, defects_at, report_at, report_of,
  reports_from, critique,
}

pub length-map : {A B : Type 0} (f : A → B) (xs : List A) → length (map f xs) ≡ length xs
length-map f [] = refl
length-map f (x ∷ xs) = omega (arith, length-map f xs)

seq-ok :
    {A B : Type 0} (call : Result A) (next : A → Result B) (a : A) (b : B)
    → call ≡ ok a
    → next a ≡ ok b
    → (call >>= next) ≡ ok b
seq-ok call next a b h e = rw h e

defects_at-ok :
    (found : List (List Defect)) (i : ℕ) (defects : List Defect)
    → get_elem? found i ≡ some defects
    → defects_at found i ≡ ok defects
defects_at-ok found i defects h = ap or_missing h

module _ {F : Type 0} ⦃ops : FloatOps F⦄ where
  -- One report for each candidate, in order and with its index, which holds whatever was found in
  -- the candidate's statement.
  abbrev pub Covers : ℕ → List (List Defect) → List SqlCandidate → List (CritiqueReport F) → Type 0
  Covers i found [] [] = Unit
  Covers i found (c ∷ cs) (r ∷ rs) =
      (r.candidate_index ≡ i)
      × ((defects : List Defect) × (get_elem? found i ≡ some defects)
          × ((d : Defect) → Elem d defects → Elem d r.defects))
      × Covers (suc i) found cs rs
  Covers i found _ _ = ⊥

  report_of-index :
      (i : ℕ) (found : List Defect) (judged : Option (CandidateCritique F))
      → (report_of i found judged).candidate_index ≡ i
  report_of-index i found none = refl
  report_of-index i found (some r) = refl

  report_of-defects :
      (i : ℕ) (found : List Defect) (judged : Option (CandidateCritique F)) (d : Defect)
      → Elem d found
      → Elem d (report_of i found judged).defects
  report_of-defects i found none d m = Elem-append_left d found [] m
  report_of-defects i found (some r) d m = Elem-append_left d found r.defects m

  reports_from-Covers :
      (i : ℕ) (cs : List SqlCandidate) (found : List (List Defect))
      (judged : List (CandidateCritique F))
      → i + length cs ≤ length found
      → (rs : List (CritiqueReport F)) × (reports_from i cs found judged ≡ ok rs)
        × Covers i found cs rs
  reports_from-Covers i [] found judged h = ([], refl, tt)
  reports_from-Covers i (c ∷ cs) found judged h =
      let (defects, there) = get_elem?-lt found i (omega arith) in
      let (rs, rest, covers) = reports_from-Covers (suc i) cs found judged (omega arith) in
      (
        report_of i defects (report_at i judged) ∷ rs,
        seq-ok (defects_at found i) _ defects _ (defects_at-ok found i defects there)
            (seq-ok (reports_from (suc i) cs found judged) _ rs _ rest refl),
        (
          report_of-index i defects (report_at i judged),
          (defects, there, report_of-defects i defects (report_at i judged)),
          covers,
        ),
      )

  Covers-within :
      (i n : ℕ) (found : List (List Defect)) (cs : List SqlCandidate) (rs : List (CritiqueReport F))
      → i + length cs ≤ n
      → Covers i found cs rs
      → All (λ (r : CritiqueReport F). r.candidate_index < n) rs
  Covers-within i n found [] [] h covers = tt
  Covers-within i n found [] (r ∷ rs) h covers = absurd covers
  Covers-within i n found (c ∷ cs) [] h covers = absurd covers
  Covers-within i n found (c ∷ cs) (r ∷ rs) h (same, _, covers) =
      (omega (arith, same), Covers-within (suc i) n found cs rs (omega arith) covers)

  module _ (k : Critic F) (plan : QueryPlan) (candidates : List SqlCandidate) (sqls : List String)
      (links : List SchemaLink) (judged : List (CandidateCritique F)) where
    -- With a statement for each candidate, and whichever candidates the model judged, in whatever
    -- order and how often: the critique has one report for each candidate, in order, and what was
    -- found in a candidate's statement is in its report.
    pub critique-Covers :
        length sqls ≡ length candidates
        → k.complete plan candidates sqls (map (deterministic_defects k links) sqls) ≡ ok judged
        → (reports : List (CritiqueReport F)) × (critique k plan candidates sqls links ≡ ok reports)
          × Covers 0 (map (deterministic_defects k links) sqls) candidates reports
    unfolding critique
    critique-Covers same answered =
        let found = map (deterministic_defects k links) sqls in
        let (reports, made, covers) =
          reports_from-Covers 0 candidates found judged
            (omega (arith, length-map (deterministic_defects k links) sqls)) in
        (reports, rw (answered, made) refl, covers)

    -- The critique and the selection together: with at least one candidate and a statement for each,
    -- whatever the model judged, and with no probe, a candidate is selected.
    pub critiqued_selection_total :
        0 < length candidates
        → length sqls ≡ length candidates
        → k.complete plan candidates sqls (map (deterministic_defects k links) sqls) ≡ ok judged
        → (s : CandidateSelection) × ((critique k plan candidates sqls links
              >>= (λ reports. select candidates sqls reports []))
            ≡ ok s)
    critiqued_selection_total some_left same answered =
        let found = map (deterministic_defects k links) sqls in
        let (reports, made, covers) = critique-Covers same answered in
        let (s, selected, _) =
          select_total candidates sqls reports some_left same
            (Covers-within 0 (length candidates) found candidates reports (omega arith) covers) in
        (s, rw made selected)
