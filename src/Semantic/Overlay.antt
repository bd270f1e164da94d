-- ===== src/Semantic/Overlay.antt =====
-- SemanticOverlayService.apply, with the calls that it makes of its writers. Each schema's columns are
-- read before any of them is written and kept, so a read is one function of the schema.
use gen_ql.Base.{ℕ, ◌+◌, String, Option, none, some, List, [], ◌∷◌, map, if◌then◌else◌, is_nonempty}
use gen_ql.Semantic.Merge.{
  ObjectOverlay, SemanticOverlay, ObjectEnrichment, OverlayReport, Stores, parts, find_object,
  object_row, column_rows,
}
use gen_ql.Semantic.Hints.{metric_of, hints_of}
use gen_ql.Semantic.Calls.{
  Call, write_object_enrichment, write_column_enrichments, write_metrics, write_rules,
  write_join_paths, Run, perform, pure, lift, ◌>>=◌,
}

module _ {F : Type 0} (stores : Stores F) where
  -- Nothing to write, nothing called.
  abbrev pub written_if : {A : Type 0} → List A → Call F → Run F ℕ
  written_if rows c = if is_nonempty rows then perform stores c else pure 0

  abbrev pub write_row : Option (ObjectEnrichment F) → Run F ℕ
  write_row none = pure 0
  write_row (some row) = perform stores (write_object_enrichment row)

module _ {F : Type 0} (stores : Stores F) (datasource : String) where
  -- One pass of the loop over the objects, with its part of the two counters.
  unfoldable pub overlay_object : List (ObjectEnrichment F) → String → ObjectOverlay → Run F (ℕ × ℕ)
  unfolding object_row
  overlay_object existing key o = do
    names ← lift (parts "ValueError" key)
    updated ←
        write_row stores
          (object_row stores datasource names.0 names.1 (find_object names.0 names.1 existing) o)
    columns ← lift (stores.read_column_enrichments datasource names.0)
    let rows = column_rows stores datasource names.0 names.1 columns o.columns
    count ← written_if stores rows (write_column_enrichments rows)
    pure (updated, count)

  unfoldable pub overlay_objects :
      List (ObjectEnrichment F) → List (String × ObjectOverlay) → Run F (ℕ × ℕ)
  unfolding overlay_object
  overlay_objects existing [] = pure (0, 0)
  overlay_objects existing ((key, o) ∷ rest) = do
    here ← overlay_object existing key o
    later ← overlay_objects existing rest
    pure (here.0 + later.0, here.1 + later.1)

-- `apply`
unfoldable pub apply : {F : Type 0} → Stores F → SemanticOverlay F → Run F OverlayReport
unfolding overlay_objects
apply stores overlay = do
  existing ← lift (stores.read_object_enrichments overlay.datasource)
  counts ← overlay_objects stores overlay.datasource existing overlay.objects
  let metrics = map (metric_of overlay.datasource) overlay.metrics
  metrics_written ← written_if stores metrics (write_metrics metrics)
  rules_written ← written_if stores overlay.rules (write_rules overlay.datasource overlay.rules)
  hints ← lift (hints_of overlay.datasource overlay.join_hints)
  join_hints_written ← written_if stores hints (write_join_paths hints)
  pure (record {
    objects_updated = counts.0;
    columns_updated = counts.1;
    metrics_written = metrics_written;
    rules_written = rules_written;
    join_hints_written = join_hints_written;
  })
