-- ===== src/Semantic/Hints.antt =====
-- The metrics and the join hints of an overlay as rows (SemanticOverlayService.apply).
use gen_ql.Base.{String, List, [], ◌∷◌, Result, ok, ◌>>=◌}
use gen_ql.Semantic.Merge.{yaml, MetricOverlay, JoinHintOverlay, Metric, JoinPath, parts}

module _ (datasource : String) where
  abbrev pub metric_of : MetricOverlay → Metric
  metric_of m = record {
    datasource_name = datasource;
    name = m.name;
    sql_expression = m.sql_expression;
    grain = m.grain;
    unit = m.unit;
    default_filters = m.default_filters;
    provenance = yaml;
  }

abbrev path_parts : List String → Result (List String)
path_parts [] = ok []
path_parts (p ∷ ps) = do names ← parts "IndexError" p; rest ← path_parts ps; ok (names.1 ∷ rest)

module _ {F : Type 0} (datasource : String) where
  abbrev hint_of : JoinHintOverlay F → Result (JoinPath F)
  hint_of h = do
    source ← parts "IndexError" h.source_object
    target ← parts "IndexError" h.target_object
    path ← path_parts h.path
    ok (record {
      datasource_name = datasource;
      schema_name = source.0;
      source_object = source.1;
      target_object = target.1;
      path = path;
      weight = h.weight;
      provenance = yaml;
    })

  abbrev pub hints_of : List (JoinHintOverlay F) → Result (List (JoinPath F))
  hints_of [] = ok []
  hints_of (h ∷ hs) = do hint ← hint_of h; rest ← hints_of hs; ok (hint ∷ rest)
