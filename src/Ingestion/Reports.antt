-- ===== src/Ingestion/Reports.antt =====
-- The reports of the stages, and what a run keeps of the store that it reports to
-- (genql/services/datasource/ingestion_service.py).
use gen_ql.Base.{
  ℕ, suc, String, List, [], ◌∷◌, map, if◌then◌else◌, ◌≡◌, sym, subst, Bool-cases, Option-cases,
  Result-cases, All, ok, err, arith, inl, inr, eq_iff, ◌>>=◌, >>=-eq-ok, is_nonempty,
}
use gen_ql.Ingestion.{IngestionStep}
use gen_ql.Ingestion.Discovery.{ScopeRunResult}
use gen_ql.Ingestion.Stages.{
  Collaborators, ref_of, Ran, and_then, raise_with, as_running, as_failed, stage, run_stage,
  run_stages, register_all, register_schemas, enabled_names, overlay_step, discover,
  conclude_discovery, overlay_stage, compile_stage, analyze_graph, domains_stage,
}

module _ {Overlay : Type 0} (c : Collaborators Overlay) (datasource : String)
    (schemas : List String) where
  conclude_discovery-name :
      (outcomes : List ScopeRunResult) (done : IngestionStep)
      → conclude_discovery c datasource outcomes ≡ ok done
      → done.name ≡ "discovery"
  unfolding conclude_discovery
  conclude_discovery-name outcomes done e = ground arith

  register_schemas-name :
      (done : IngestionStep)
      → register_schemas c datasource schemas ≡ ok done
      → done.name ≡ "schema_registration"
  unfolding register_schemas
  register_schemas-name done e =
      let (names, _, ran) = >>=-eq-ok (register_all c datasource schemas) _ e in ground arith

  discover-name :
      (done : IngestionStep) → discover c datasource schemas ≡ ok done → done.name ≡ "discovery"
  unfolding discover
  discover-name done e =
      let (rows, _, ran) = >>=-eq-ok (c.list_registered datasource) _ e in
      let names : List String =
        if is_nonempty (enabled_names rows) then enabled_names rows else schemas in
      elim (Bool-cases (is_nonempty names)) [
        | inl some_name ↦
            let scoped : (c.run_scope (map (ref_of datasource) names)
                  >>= conclude_discovery c datasource)
                ≡ ok done =
              ground arith in
            let (outcomes, _, concluded) =
              >>=-eq-ok (c.run_scope (map (ref_of datasource) names))
                (conclude_discovery c datasource) scoped in
            conclude_discovery-name outcomes done concluded
        | inr no_name ↦ ground arith
      ]

  overlay_stage-name :
      (done : IngestionStep) → overlay_stage c datasource ≡ ok done → done.name ≡ "semantic_overlay"
  unfolding overlay_stage
  overlay_stage-name done e =
      let (loaded, _, ran) = >>=-eq-ok (c.load_overlay datasource) _ e in
      elim (Option-cases loaded) [
        | inl absent ↦ ground arith
        | inr (overlay, there) ↦
            let applies : (c.apply_overlay overlay >>= λ r. ok (overlay_step c datasource r))
                ≡ ok done =
              ground arith in
            let (r, _, applied) =
              >>=-eq-ok (c.apply_overlay overlay) (λ r. ok (overlay_step c datasource r)) applies in
            ground arith
      ]

  later_stage-name :
      (done : IngestionStep)
      → (compile_stage c datasource ≡ ok done → done.name ≡ "semantic_compile")
        × (analyze_graph c datasource ≡ ok done → done.name ≡ "graph_analysis")
        × (domains_stage c datasource ≡ ok done → done.name ≡ "domain_discovery")
  unfolding compile_stage analyze_graph domains_stage
  later_stage-name done = (
    (λ e. let (n, _, ran) = >>=-eq-ok (c.compile datasource) _ e in ground arith),
    (λ e. let (n, _, ran) = >>=-eq-ok (c.analyze datasource) _ e in ground arith),
    (λ e. let (n, _, ran) = >>=-eq-ok (c.discover_domains datasource) _ e in ground arith),
  )

  -- A stage reports under its own name.
  pub stage-name :
      (name : String) (done : IngestionStep)
      → stage c datasource name schemas ≡ ok done
      → done.name ≡ name
  unfolding stage
  stage-name name done e = ground (
    arith,
    eq_iff name "schema_registration",
    eq_iff name "discovery",
    eq_iff name "semantic_overlay",
    eq_iff name "semantic_compile",
    eq_iff name "graph_analysis",
    eq_iff name "domain_discovery",
    register_schemas-name done,
    discover-name done,
    overlay_stage-name done,
    later_stage-name done,
  )

and_then-keeps :
    {S : Type 0} (P : S → Type 0) (r : Ran S) (next : S → Ran S)
    → P r.0
    → ((s : S) → P s → P (next s).0)
    → P (and_then r next).0
and_then-keeps P (s, ok _) next h k = k s h
and_then-keeps P (s, err e) next h k = h

-- What every report about the steps of these names keeps, the run keeps.
module _ {Overlay S : Type 0} (c : ℕ → Collaborators Overlay) (elapsed_ms : ℕ → ℕ)
    (report : IngestionStep → S → Ran S) (datasource : String) (schemas : List String)
    (Q : String → Type 0) (P : S → Type 0)
    (keeps : (step : IngestionStep) (s : S) → Q step.name → P s → P (report step s).0) where
  run_stage-keeps :
      (t : ℕ) (step : IngestionStep) (s : S)
      → Q step.name
      → P s
      → P (run_stage c elapsed_ms report datasource schemas t step s).0
  unfolding run_stage
  run_stage-keeps t step s q h =
      and_then-keeps P (report (as_running step) s) _ (keeps (as_running step) s q h) (λ s' h'.
        elim (Result-cases (stage (c t) datasource step.name schemas)) [
          | inr (e, failed) ↦ rw failed (
              and_then-keeps P (report (as_failed step e (elapsed_ms t)) s') (raise_with e)
                (keeps (as_failed step e (elapsed_ms t)) s' q h') (λ s'' h''. h''))
          | inl (done, ran) ↦ rw ran (
              keeps (record done { duration_ms = elapsed_ms t }) s'
                (subst Q (sym (stage-name (c t) datasource schemas step.name done ran)) q) h')
        ])

  pub run_stages-keeps :
      (t : ℕ) (steps : List IngestionStep) (s : S)
      → All (λ (step : IngestionStep). Q step.name) steps
      → P s
      → P (run_stages c elapsed_ms report datasource schemas t steps s).0
  unfolding run_stages
  run_stages-keeps t [] s q h = h
  run_stages-keeps t (step ∷ steps) s (q, qs) h =
      and_then-keeps P (run_stage c elapsed_ms report datasource schemas t step s) _
        (run_stage-keeps t step s q h) (λ s' h'. run_stages-keeps (suc t) steps s' qs h')
