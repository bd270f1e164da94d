-- ===== src/Selection/Tests.antt =====
-- Two candidates, their critiques and probes, and the theorems on them.
use gen_ql.Base.{
  ℕ, ℤ, pos, true, false, none, some, List, [], ◌∷◌, ◌≡◌, refl, ok, err, python_error, milli,
  milli-IsOrdered, Elem,
}
use gen_ql.Entities.{
  SqlCandidate, QueryPlan, CritiqueReport, Defect, fatal, AmbiguityProbe, ProbeResult,
  CandidateSelection, is_fatal, probe_resolved, critique_ranked, resolved_in_favor_of,
  highest_score,
}
use gen_ql.Selection.{select, critique_ranked_report}
use gen_ql.Selection.Ranking.{AtLeast, critique_ranked_best}
use gen_ql.Selection.Choice.{
  Aligned, select-Aligned, select_probe_resolved, select_probe_index_error,
}

abbrev plan : QueryPlan
plan = record { question = "q"; plan_text = "p"; referenced_objects = [] }

abbrev first : SqlCandidate
first = record { sql = "a"; plan = plan }

abbrev second : SqlCandidate
second = record { sql = "b"; plan = plan }

abbrev candidates : List SqlCandidate
candidates = first ∷ second ∷ []

abbrev report : ℕ → ℕ → List Defect → CritiqueReport ℕ
report i score defects = record { candidate_index = i; defects = defects; score = score }

abbrev dead : Defect
dead = record { dimension = none; severity = fatal; message = "" }

-- The first candidate scores higher and is fatal; the second wins.
abbrev critiques : List (CritiqueReport ℕ)
critiques = report 0 900 (dead ∷ []) ∷ report 1 500 [] ∷ []

abbrev probe : AmbiguityProbe
probe = record {
  dimension = "grain";
  probe_sql = "select 1";
  candidate_predictions = (pos 0, "12") ∷ (pos 1, "7") ∷ [];
}

abbrev resolved_to : ℤ → ProbeResult
resolved_to k = record { probe = probe; actual_result = "12"; resolved_candidate_index = some k }

abbrev by_critique : CandidateSelection
by_critique = record {
  selected = second;
  selected_sql = "B";
  method = critique_ranked;
  rationale = highest_score 1;
}

select_run : select candidates ("A" ∷ "B" ∷ []) critiques [] ≡ ok by_critique
unfolding select
select_run = refl

ranked : critique_ranked_report critiques ≡ some (report 1 500 [])
unfolding critique_ranked_report
ranked = refl

critique_ranked_best_example :
    Elem (report 1 500 []) critiques
    × ((c : CritiqueReport ℕ)
        → Elem c critiques
        → is_fatal c ≡ false
        → (is_fatal (report 1 500 []) ≡ false) × AtLeast milli-IsOrdered (report 1 500 []) c)
    × ((c : CritiqueReport ℕ)
        → Elem c critiques
        → is_fatal (report 1 500 []) ≡ true
        → AtLeast milli-IsOrdered (report 1 500 []) c)
critique_ranked_best_example = critique_ranked_best milli-IsOrdered critiques ranked

select-Aligned_example : Aligned candidates ("A" ∷ "B" ∷ []) by_critique
select-Aligned_example = select-Aligned candidates ("A" ∷ "B" ∷ []) critiques [] select_run

select_probe_resolved_example :
    select candidates ("A" ∷ "B" ∷ []) critiques (resolved_to (pos 0) ∷ [])
    ≡ ok (record {
      selected = first;
      selected_sql = "A";
      method = probe_resolved;
      rationale = resolved_in_favor_of (pos 0);
    })
select_probe_resolved_example =
    select_probe_resolved candidates ("A" ∷ "B" ∷ []) critiques (resolved_to (pos 0) ∷ []) (pos 0)
      refl (refl, tt) refl refl

select_probe_index_error_example :
    select candidates ("A" ∷ "B" ∷ []) critiques (resolved_to (pos 2) ∷ [])
    ≡ err (python_error "IndexError")
select_probe_index_error_example =
    select_probe_index_error candidates ("A" ∷ "B" ∷ []) critiques (resolved_to (pos 2) ∷ [])
      (pos 2) refl (refl, tt) refl
