-- ===== src/Semantic/Tests.antt =====
-- An overlay that renames a table which a model has described, and gives one column its unit.
use gen_ql.Base.{ℕ, none, some, [], ◌∷◌, ◌≡◌, refl, inl, Elem, ap, ok, length, List}
use gen_ql.Semantic.Merge.{
  llm, yaml, ObjectOverlay, ColumnOverlay, SemanticOverlay, ObjectEnrichment, ColumnEnrichment,
  OverlayReport, Stores, find_object, find_column, column_rows, split_dot,
}
use gen_ql.Semantic.Overlay.{apply}
use gen_ql.Semantic.Calls.{Call, write_object_enrichment, write_column_enrichments}
use gen_ql.Semantic.Rows.{IsObjectRow, IsColumnRow}
use gen_ql.Semantic.Wins.{apply_writes_object, apply_writes_column}

abbrev found : ObjectEnrichment ℕ
found = record {
  datasource_name = "local";
  schema_name = "shop";
  object_name = "orders";
  description = "Rows of orders.";
  business_alias = some "orders";
  provenance = llm;
  confidence = 700;
  embedding = none;
}

abbrev stores : Stores ℕ
stores = record {
  read_object_enrichments = λ datasource. ok (found ∷ []);
  read_column_enrichments = λ datasource schema. ok [];
  write_object_enrichment = λ row. ok tt;
  write_column_enrichments = λ rows. ok (length rows);
  write_metrics = λ rows. ok (length rows);
  write_rules = λ datasource rows. ok (length rows);
  write_join_paths = λ rows. ok (length rows);
  one = 1000;
}

abbrev amount : ColumnOverlay
amount = record { description = some "What was paid."; business_alias = none; unit = some "EUR" }

abbrev orders : ObjectOverlay
orders = record {
  description = some "Paid orders.";
  business_alias = some "sales";
  columns = ("amount", amount) ∷ [];
}

abbrev overlay : SemanticOverlay ℕ
overlay = record {
  datasource = "local";
  objects = ("shop.orders", orders) ∷ [];
  metrics = [];
  rules = [];
  join_hints = [];
}

abbrev orders_row : ObjectEnrichment ℕ
orders_row = record found {
  description = "Paid orders.";
  business_alias = some "sales";
  provenance = yaml;
}

abbrev amount_row : ColumnEnrichment ℕ
amount_row = record {
  datasource_name = "local";
  schema_name = "shop";
  object_name = "orders";
  column_name = "amount";
  description = "What was paid.";
  business_alias = none;
  unit = some "EUR";
  provenance = yaml;
  confidence = 1000;
}

abbrev report : OverlayReport
report = record {
  objects_updated = 1;
  columns_updated = 1;
  metrics_written = 0;
  rules_written = 0;
  join_hints_written = 0;
}

abbrev calls : List (Call ℕ)
calls = write_object_enrichment orders_row ∷ write_column_enrichments (amount_row ∷ []) ∷ []

applies : apply stores overlay ≡ (calls, ok report)
unfolding apply column_rows split_dot find_object find_column
applies = refl

apply_writes_object_example :
    (row : ObjectEnrichment ℕ) × Elem (write_object_enrichment row) (apply stores overlay).0
    × (stores.write_object_enrichment row ≡ ok tt)
    × IsObjectRow "local" "shop.orders" "Paid orders." orders row
apply_writes_object_example =
    apply_writes_object stores overlay report (ap (λ r. r.1) applies) "shop.orders" orders
      "Paid orders." (inl refl) refl

apply_writes_column_example :
    (rows : List (ColumnEnrichment ℕ)) × (row : ColumnEnrichment ℕ) × (count : ℕ) × Elem
      (write_column_enrichments rows)
      (apply stores overlay).0
    × (stores.write_column_enrichments rows ≡ ok count)
    × Elem row rows
    × IsColumnRow "local" "shop.orders" "amount" "What was paid." amount row
apply_writes_column_example =
    apply_writes_column stores overlay report (ap (λ r. r.1) applies) "shop.orders" orders "amount"
      amount "What was paid." (inl refl) (inl refl) refl
