-- ===== src/Selection/Choice.antt =====
-- What `select` returns, and when it raises.
use gen_ql.Base.{
  ℕ, ℤ, index, String, true, none, some, List, [], ◌∷◌, ◌≡◌, refl, is_nonempty, length, zero, suc,
  ◌<◌, get_elem?, Elem-All, All, arith, inl, inr, python_error, ok, err, FloatOps, Option-cases,
}
use gen_ql.Entities.{
  ProbeResult, CritiqueReport, SqlCandidate, CandidateSelection, probe_resolved, critique_ranked,
  no_report, highest_score, resolved_in_favor_of,
}
use gen_ql.Selection.{probe_resolved_index, critique_ranked_report, select, set_of}
use gen_ql.Selection.Ranking.{critique_ranked-Elem}
use gen_ql.Selection.Probes.{probe_resolved_iff}

none_decided : probe_resolved_index [] ≡ none
unfolding probe_resolved_index set_of
none_decided = refl

-- The candidate and the statement stand at one index.
abbrev pub Aligned : List SqlCandidate → List String → CandidateSelection → Type 0
Aligned candidates sqls s =
    (i : ℤ) × (index candidates i ≡ some s.selected) × (index sqls i ≡ some s.selected_sql)

pub get_elem?-lt :
    {A : Type 0} (xs : List A) (i : ℕ) → i < length xs → (x : A) × (get_elem? xs i ≡ some x)
get_elem?-lt [] i h = absurd (omega arith)
get_elem?-lt (x ∷ xs) zero h = (x, refl)
get_elem?-lt (x ∷ xs) (suc i) h = get_elem?-lt xs i (omega arith)

module _ {F : Type 0} ⦃ops : FloatOps F⦄ where
  -- The index that `select` reads.
  pub chosen_index : List (CritiqueReport F) → List ProbeResult → ℤ
  chosen_index critiques probes = elim (probe_resolved_index probes) [
    | some k ↦ k
    | none ↦ elim (critique_ranked_report critiques) [
      | none ↦ ℤ.pos 0
      | some w ↦ ℤ.pos w.candidate_index
    ]
  ]

  -- The selected candidate and the selected statement stand at the same index, whichever way the
  -- selection was made.
  pub select-Aligned :
      (candidates : List SqlCandidate) (sqls : List String) (critiques : List (CritiqueReport F))
      (probes : List ProbeResult) {s : CandidateSelection}
      → select candidates sqls critiques probes ≡ ok s
      → Aligned candidates sqls s
  unfolding select
  select-Aligned candidates sqls critiques probes {s} e = (
    chosen_index critiques probes,
    unfold chosen_index in ground arith,
    unfold chosen_index in ground arith,
  )

  -- When every probe, of one or more, resolves to `k`, the critiques have no say: candidate `k` is
  -- selected with its statement.
  pub select_probe_resolved :
      (candidates : List SqlCandidate) (sqls : List String) (critiques : List (CritiqueReport F))
      (probes : List ProbeResult) (k : ℤ) {c : SqlCandidate} {sql : String}
      → is_nonempty probes ≡ true
      → All (λ r. r.resolved_candidate_index ≡ some k) probes
      → index candidates k ≡ some c
      → index sqls k ≡ some sql
      → select candidates sqls critiques probes
        ≡ ok (record {
          selected = c;
          selected_sql = sql;
          method = probe_resolved;
          rationale = resolved_in_favor_of k;
        })
  unfolding select
  select_probe_resolved candidates sqls critiques probes k n unanimous hc hs =
      let decided = (probe_resolved_iff probes k).1 (n, unanimous) in ground arith

  -- The index comes from the model's predictions and is not checked: when every probe resolves to
  -- an index that no candidate has, the selection raises an IndexError, which is no GenqlError.
  pub select_probe_index_error :
      (candidates : List SqlCandidate) (sqls : List String) (critiques : List (CritiqueReport F))
      (probes : List ProbeResult) (k : ℤ)
      → is_nonempty probes ≡ true
      → All (λ r. r.resolved_candidate_index ≡ some k) probes
      → index candidates k ≡ none
      → select candidates sqls critiques probes ≡ err (python_error "IndexError")
  unfolding select
  select_probe_index_error candidates sqls critiques probes k n unanimous missing =
      let decided = (probe_resolved_iff probes k).1 (n, unanimous) in ground arith

  -- With no probe result, at least one candidate, a statement for each candidate and critiques of
  -- candidates that are there, the selection always succeeds, by the critique ranking.
  pub select_total :
      (candidates : List SqlCandidate) (sqls : List String) (critiques : List (CritiqueReport F))
      → 0 < length candidates
      → length sqls ≡ length candidates
      → All (λ (c : CritiqueReport F). c.candidate_index < length candidates) critiques
      → (s : CandidateSelection) × (select candidates sqls critiques [] ≡ ok s)
        × (s.method ≡ critique_ranked)
  unfolding select
  select_total candidates sqls critiques h e within =
      elim (Option-cases (critique_ranked_report critiques)) [
        | inl unranked ↦
            let (c, hc) = get_elem?-lt candidates 0 h in
            let (sql, hs) = get_elem?-lt sqls 0 (omega arith) in
            (
              record {
                selected = c;
                selected_sql = sql;
                method = critique_ranked;
                rationale = no_report;
              },
              ground (arith, none_decided),
              refl,
            )
        | inr (w, ranked) ↦
            let fits : w.candidate_index < length candidates =
              Elem-All (λ (c : CritiqueReport F). c.candidate_index < length candidates) w critiques
                (critique_ranked-Elem critiques ranked) within in
            let (c, hc) = get_elem?-lt candidates w.candidate_index fits in
            let (sql, hs) = get_elem?-lt sqls w.candidate_index (omega arith) in
            (
              record {
                selected = c;
                selected_sql = sql;
                method = critique_ranked;
                rationale = highest_score w.candidate_index;
              },
              ground (arith, none_decided),
              refl,
            )
      ]
