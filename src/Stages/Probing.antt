-- ===== src/Stages/Probing.antt =====
-- The probes that tell candidates apart: genql/services/query/ambiguity_probing_service.py. `str` of
-- several rows is a parameter.
use gen_ql.Base.{ℕ, String, true, false, List, [], ◌∷◌, take, Result, ok, ◌>>=◌}
use gen_ql.Entities.{
  QueryPlan, SqlCandidate, CritiqueReport, AmbiguityProbe, ProbeResult, ExecutionResult, Value,
  null, boolean, number, text,
}
use gen_ql.Selection.{uniquely_predicted_by}

-- `str(cell)`
abbrev pub cell_text : Value → String
cell_text null = "None"
cell_text (boolean true) = "True"
cell_text (boolean false) = "False"
cell_text (number n) = n
cell_text (text t) = t

-- `_render_scalar`
unfoldable pub render_scalar : (List (List Value) → String) → ExecutionResult → String
render_scalar rows_text r = elim r.rows [
  | [] ↦ rows_text r.rows
  | ◌∷◌ row rest ↦ elim rest [
    | ◌∷◌ another more ↦ rows_text r.rows
    | [] ↦ elim row [
      | [] ↦ rows_text r.rows
      | ◌∷◌ cell cells ↦ elim cells [ [] ↦ cell_text cell | ◌∷◌ c cs ↦ rows_text r.rows ]
    ]
  ]
]

pub record Prober (F : Type 0) : Type 0 where
  pub design :
      QueryPlan
      → List SqlCandidate
      → List String
      → List (CritiqueReport F)
      → Result (List AmbiguityProbe)
  pub validate : SqlCandidate → String → Result String
  pub execute : String → String → Result ExecutionResult
  pub rows_text : List (List Value) → String
  pub max_probes : ℕ

module _ {F : Type 0} (p : Prober F) (plan : QueryPlan) (datasource_name : String) where
  -- One pass of the loop.
  unfoldable pub run_probe : AmbiguityProbe → Result ProbeResult
  unfolding render_scalar
  run_probe probe = do
    sql ← p.validate (record { sql = probe.probe_sql; plan = plan }) datasource_name
    result ← p.execute sql datasource_name
    let actual = render_scalar p.rows_text result
    ok (record {
      probe = probe;
      actual_result = actual;
      resolved_candidate_index = uniquely_predicted_by probe actual;
    })

  abbrev pub run_probes : List AmbiguityProbe → Result (List ProbeResult)
  run_probes [] = ok []
  run_probes (probe ∷ probes) = do
    result ← run_probe probe
    results ← run_probes probes
    ok (result ∷ results)

-- `AmbiguityProbingService.probe`
unfoldable pub run_probing :
    {F : Type 0}
    → Prober F
    → QueryPlan
    → List SqlCandidate
    → List String
    → List (CritiqueReport F)
    → String
    → Result (List ProbeResult)
unfolding run_probe
run_probing p plan candidates validated_sqls critiques datasource_name = do
  probes ← p.design plan candidates validated_sqls critiques
  run_probes p plan datasource_name (take p.max_probes probes)
