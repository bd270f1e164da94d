-- ===== src/Stages/Safety.antt =====
-- What a probe result rests on (genql/services/query/ambiguity_probing_service.py).
use gen_ql.Base.{ℤ, String, some, ◌≡◌, ◌↔◌, Result, ok}
use gen_ql.Entities.{QueryPlan, AmbiguityProbe, ProbeResult, ExecutionResult}
use gen_ql.Selection.Probes.{OneMatch}
use gen_ql.Stages.Probing.{Prober, render_scalar}

module _ {F : Type 0} (p : Prober F) (plan : QueryPlan) (datasource_name : String) where
  -- A validated form of the probe's statement was run, the result is what the warehouse answered,
  -- and the probe is won by an index exactly when one of the predictions alone, that of this index,
  -- agrees with it.
  abbrev pub IsGrounded : ProbeResult → Type 0
  IsGrounded r =
      ((sql : String) × (result : ExecutionResult) × (p.validate
            (record { sql = r.probe.probe_sql; plan = plan }) datasource_name
          ≡ ok sql)
        × (p.execute sql datasource_name ≡ ok result)
        × (r.actual_result ≡ render_scalar p.rows_text result))
      × ((i : ℤ)
          → (r.resolved_candidate_index ≡ some i)
            ↔ OneMatch r.probe.candidate_predictions r.actual_result i)

  -- The warehouse and another one answer alike on the validated forms of a probe.
  abbrev pub Agrees : (String → String → Result ExecutionResult) → AmbiguityProbe → Type 0
  Agrees execute probe =
      (sql : String)
      → p.validate (record { sql = probe.probe_sql; plan = plan }) datasource_name ≡ ok sql
      → execute sql datasource_name ≡ p.execute sql datasource_name
