-- ===== src/Pipeline/Served.antt =====
-- What a turn runs and returns, over every reachable configuration (genql/api/query_graph.py).
use gen_ql.Base.{
  ℕ, String, true, some, ◌≡◌, inl, inr, refl, sym, subst, ◌∙◌, Result, ok, FloatOps, is_some,
}
use gen_ql.Entities.{OptimizationResult, ExecutionResult}
use gen_ql.Pipeline.State.{QueryState, Services}
use gen_ql.Pipeline.Nodes.{guarded_execution_node, record_actuals}
use gen_ql.Pipeline.Graph.{guarded_execution, Config, at, ended, run_node, step}
use gen_ql.Pipeline.Ready.{IsAnalytical, IsSound}
use gen_ql.Pipeline.Runs.{Reach, Reach-IsSound}
use gen_ql.Pipeline.Provenance.{Costed, some-eq}
use gen_ql.Pipeline.Traces.{Reach-IsTraced}
use gen_ql.Pipeline.Executed.{IsExecuted, Reach-IsExecuted}

module _ {F : Type 0} ⦃ops : FloatOps F⦄ (sv : Services F) where
  -- Whatever the services answer, and whenever: after the classification a turn is analytical; until
  -- a statement is selected nothing is chosen, costed or run; where the turn asks, its question was
  -- found ambiguous; after the planning there is a plan; after the validation and until the
  -- selection there are candidates, with as many statements; before the cost gate there is a
  -- selection; before the execution the statement at hand was judged within budget. There are no
  -- rows before END. At END the turn is of another intent with nothing run, or over budget with no
  -- rows, or served within budget with rows, which are what the warehouse answered for the statement
  -- at hand.
  pub Reach-IsServed : {c : Config F} → Reach sv c → IsSound c × IsExecuted sv c
  Reach-IsServed r = (Reach-IsSound sv r, Reach-IsExecuted sv r)

  -- Rows are returned only for a question classified as analytical, and they are what the warehouse
  -- answered for the statement that the cost gate returned, within budget, for a statement that the
  -- static validation returned for this datasource.
  pub served_within_budget :
      (s : QueryState F)
      → Reach sv (ended s)
      → is_some s.result ≡ true
      → IsAnalytical s
        × ((o : OptimizationResult F) × (t : ℕ) × (rows : ExecutionResult) × (s.optimization
              ≡ some o)
            × (o.within_budget ≡ true)
            × (s.validated_sql ≡ some o.sql)
            × Costed sv s.datasource_name o
            × (s.result ≡ some rows)
            × (sv.execute t o.sql s.datasource_name ≡ ok rows))
  served_within_budget s r served = elim (Reach-IsExecuted sv r) [
    | inl no_rows ↦ absurd (cc (rw no_rows at served))
    | inr (t, sql, rows, at_hand, has, ran) ↦ elim (Reach-IsSound sv r) [
      | inl (other, (_, _, none_run)) ↦ absurd (cc served)
      | inr more ↦ elim more [
        | inl (_, none_run, _) ↦ absurd (cc served)
        | inr (analytical, _, (o, costed, within, judged)) ↦
            let (_, _, traced) = Reach-IsTraced sv r in
            let same : sql ≡ o.sql = some-eq (sym at_hand ∙ judged) in
            (
              analytical,
              (
                o,
                t,
                rows,
                costed,
                within,
                judged,
                traced o costed,
                has,
                subst (λ x. sv.execute t x s.datasource_name ≡ ok rows) same ran,
              ),
            )
      ]
    ]
  ]

  execution-Agrees :
      (execute : ℕ → String → String → Result ExecutionResult) (t : ℕ) (s : QueryState F)
      (sql : String)
      → s.validated_sql ≡ some sql
      → execute t sql s.datasource_name ≡ sv.execute t sql s.datasource_name
      → guarded_execution_node (record sv { execute = execute }) t s ≡ guarded_execution_node sv t s
  unfolding guarded_execution_node record_actuals
  execution-Agrees execute t s sql at_hand agrees = rw (at_hand, agrees) refl

  -- A turn that is about to run a statement runs the one that the cost gate returned, within budget,
  -- for a statement that the static validation returned for this datasource, and no other: with any
  -- other warehouse that answers alike on this statement the step comes out the same.
  pub runs_validated :
      (s : QueryState F) (t : ℕ) (execute : ℕ → String → String → Result ExecutionResult)
      → Reach sv (at guarded_execution s t)
      → ((sql : String)
          → s.validated_sql ≡ some sql
          → execute t sql s.datasource_name ≡ sv.execute t sql s.datasource_name)
      → (o : OptimizationResult F) × (s.validated_sql ≡ some o.sql)
        × (o.within_budget ≡ true)
        × Costed sv s.datasource_name o
        × (step (record sv { execute = execute }) (at guarded_execution s t)
            ≡ step sv (at guarded_execution s t))
  unfolding step run_node
  runs_validated s t execute r agrees =
      let (_, _, _, judged) = Reach-IsSound sv r in
      let (o, costed, within, at_hand) = judged in
      let (_, _, traced) = Reach-IsTraced sv r in
      (
        o,
        at_hand,
        within,
        traced o costed,
        rw (execution-Agrees execute t s o.sql at_hand (agrees o.sql at_hand)) refl,
      )
