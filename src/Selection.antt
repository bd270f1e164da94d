-- ===== src/Selection.antt =====
-- Choosing among the surviving candidates: candidate_selection_service.py, the prediction match of
-- ambiguity_probing_service.py, and the margin test of AmbiguityProbingNode
-- (genql/api/query_ambiguity_nodes.py).
pub mod Ranking
pub mod Probes
pub mod Choice
mod Tests
use gen_ql.Base.{
  ℕ, suc, ℤ, eqb_ℤ, index, String, Bool, true, false, not, ◌&&◌, ◌||◌, Option, none, some, List, [],
  ◌∷◌, map, keep, is_nonempty, any, eqb, ltb, length, if◌then◌else◌, ◌==◌, Error, python_error,
  Result, ok, err, ◌>>=◌, FloatOps, le_float,
}
use gen_ql.Entities.{
  AmbiguityProbe, ProbeResult, CritiqueReport, is_fatal, SqlCandidate, CandidateSelection,
  probe_resolved, critique_ranked, no_report, resolved_in_favor_of, highest_score,
}

-- `_uniquely_predicted_by`
pub matches : List (ℤ × String) → String → List ℤ
matches [] actual = []
matches ((idx, prediction) ∷ rest) actual =
    let others = matches rest actual in if prediction == actual then idx ∷ others else others

abbrev only : List ℤ → Option ℤ
only (i ∷ []) = some i
only _ = none

pub uniquely_predicted_by : AmbiguityProbe → String → Option ℤ
unfolding matches
uniquely_predicted_by probe actual = only (matches probe.candidate_predictions actual)

-- A set of probe outcomes, as a list with no outcome twice.
abbrev same_outcome : Option ℤ → Option ℤ → Bool
same_outcome none none = true
same_outcome (some a) (some b) = eqb_ℤ a b
same_outcome _ _ = false

pub set_of : List (Option ℤ) → List (Option ℤ)
set_of [] = []
set_of (o ∷ os) = let rest = set_of os in if any (same_outcome o) rest then rest else o ∷ rest

-- The test for a single element that is not None, and that element.
abbrev sole_index : List (Option ℤ) → Option ℤ
sole_index (o ∷ []) = o
sole_index _ = none

-- `_probe_resolved_index`
pub probe_resolved_index : List ProbeResult → Option ℤ
unfolding set_of
probe_resolved_index results =
    sole_index (set_of (map (λ (r : ProbeResult). r.resolved_candidate_index) results))

module _ {F : Type 0} ⦃ops : FloatOps F⦄ where
  -- The keys `(score, -candidate_index)` in order: is the key of `c` greater than that of `b`?
  pub outranks : CritiqueReport F → CritiqueReport F → Bool
  outranks c b =
      ops.lt b.score c.score
      || not (ops.lt c.score b.score) && ltb c.candidate_index b.candidate_index

  -- `max(pool, key=...)` after its first element: the first of the greatest.
  pub best_of : CritiqueReport F → List (CritiqueReport F) → CritiqueReport F
  unfolding outranks
  best_of b [] = b
  best_of b (c ∷ cs) = best_of (if outranks c b then c else b) cs

  -- `non_fatal or list(critiques)`
  abbrev pub pool_of : List (CritiqueReport F) → List (CritiqueReport F)
  pool_of critiques =
      let non_fatal = keep (λ (c : CritiqueReport F). not (is_fatal c)) critiques in
      if is_nonempty non_fatal then non_fatal else critiques

  abbrev best_in : List (CritiqueReport F) → Option (CritiqueReport F)
  best_in [] = none
  best_in (b ∷ cs) = some (best_of b cs)

  -- `_critique_ranked_index`, as the report whose index it returns.
  pub critique_ranked_report : List (CritiqueReport F) → Option (CritiqueReport F)
  unfolding best_of
  critique_ranked_report critiques = best_in (pool_of critiques)

  -- Descending order of scores.
  pub insert_score : F → List F → List F
  insert_score x [] = x ∷ []
  insert_score x (y ∷ ys) = if ops.lt x y then y ∷ insert_score x ys else x ∷ y ∷ ys

  pub sort_scores : List F → List F
  unfolding insert_score
  sort_scores [] = []
  sort_scores (x ∷ xs) = insert_score x (sort_scores xs)

  abbrev leads_by : F → List F → Bool
  leads_by margin (first ∷ second ∷ _) = le_float margin (ops.sub first second)
  leads_by margin _ = false

  -- `_critique_already_decisive`
  pub critique_already_decisive : Option F → List (CritiqueReport F) → Bool
  unfolding sort_scores
  critique_already_decisive none reports = false
  critique_already_decisive (some margin) reports =
      if eqb (length (keep (λ (c : CritiqueReport F). not (is_fatal c)) reports)) 1
      then true
      else leads_by margin (sort_scores (map (λ (r : CritiqueReport F). r.score) (pool_of reports)))

-- `CandidateSelection(selected=candidates[i], selected_sql=validated_sqls[i], ...)`
abbrev pub or_index_error {ℓ} : {A : Type ℓ} → Option A → Result A
or_index_error none = err (python_error "IndexError")
or_index_error (some a) = ok a

module _ {F : Type 0} ⦃ops : FloatOps F⦄ where
  -- `select`
  pub select :
      List SqlCandidate
      → List String
      → List (CritiqueReport F)
      → List ProbeResult
      → Result CandidateSelection
  unfolding probe_resolved_index critique_ranked_report
  select candidates validated_sqls critiques probe_results =
      elim (probe_resolved_index probe_results) [
        | some resolved ↦ do
          selected ← or_index_error (index candidates resolved)
          selected_sql ← or_index_error (index validated_sqls resolved)
          ok (record {
            selected = selected;
            selected_sql = selected_sql;
            method = probe_resolved;
            rationale = resolved_in_favor_of resolved;
          })
        | none ↦ elim (critique_ranked_report critiques) [
          | none ↦ do
            selected ← or_index_error (index candidates (ℤ.pos 0))
            selected_sql ← or_index_error (index validated_sqls (ℤ.pos 0))
            ok (record {
              selected = selected;
              selected_sql = selected_sql;
              method = critique_ranked;
              rationale = no_report;
            })
          | some winner ↦ do
            selected ← or_index_error (index candidates (ℤ.pos winner.candidate_index))
            selected_sql ← or_index_error (index validated_sqls (ℤ.pos winner.candidate_index))
            ok (record {
              selected = selected;
              selected_sql = selected_sql;
              method = critique_ranked;
              rationale = highest_score winner.candidate_index;
            })
        ]
      ]
