-- ===== src/Semantic/Merge.antt =====
-- The entities of the semantic layer (genql/domain/entities), the merge of the overlay with what was
-- found (genql/repositories/semantic/enricher_repository.py), and the rows it makes.
use gen_ql.Base.{
  ℕ, String, ◌&&◌, Option, none, some, List, [], ◌∷◌, Result, ok, err, python_error, Dict,
  if◌then◌else◌, eqb, ◌==◌, concat,
}
use gen_ql.Entities.{Rule}
use Prim.Native.Char.{code}

pub data Provenance : Type 0 where
  discovered llm yaml : Provenance

pub record ColumnOverlay : Type 0 where
  pub description : Option String
  pub business_alias : Option String
  pub unit : Option String

pub record ObjectOverlay : Type 0 where
  pub description : Option String
  pub business_alias : Option String
  pub columns : Dict ColumnOverlay

pub record MetricOverlay : Type 0 where
  pub name : String
  pub sql_expression : String
  pub grain : String
  pub unit : Option String
  pub default_filters : Dict String

pub record JoinHintOverlay (F : Type 0) : Type 0 where
  pub source_object : String
  pub target_object : String
  pub path : List String
  pub weight : F

pub record SemanticOverlay (F : Type 0) : Type 0 where
  pub datasource : String
  pub objects : Dict ObjectOverlay
  pub metrics : List MetricOverlay
  pub rules : List Rule
  pub join_hints : List (JoinHintOverlay F)

pub record ObjectEnrichment (F : Type 0) : Type 0 where
  pub datasource_name : String
  pub schema_name : String
  pub object_name : String
  pub description : String
  pub business_alias : Option String
  pub provenance : Provenance
  pub confidence : F
  pub embedding : Option (List F)

pub record ColumnEnrichment (F : Type 0) : Type 0 where
  pub datasource_name : String
  pub schema_name : String
  pub object_name : String
  pub column_name : String
  pub description : String
  pub business_alias : Option String
  pub unit : Option String
  pub provenance : Provenance
  pub confidence : F

pub record Metric : Type 0 where
  pub datasource_name : String
  pub name : String
  pub sql_expression : String
  pub grain : String
  pub unit : Option String
  pub default_filters : Dict String
  pub provenance : Provenance

pub record JoinPath (F : Type 0) : Type 0 where
  pub datasource_name : String
  pub schema_name : String
  pub source_object : String
  pub target_object : String
  pub path : List String
  pub weight : F
  pub provenance : Provenance

pub record EnrichmentField : Type 0 where
  pub kind : String
  pub qualified_name : String
  pub value : String
  pub provenance : Provenance

pub record OverlayReport : Type 0 where
  pub objects_updated : ℕ
  pub columns_updated : ℕ
  pub metrics_written : ℕ
  pub rules_written : ℕ
  pub join_hints_written : ℕ

-- The repositories that the service reads and writes; a writer answers how many rows it wrote.
-- `one` is the literal 1.0.
pub record Stores (F : Type 0) : Type 0 where
  pub read_object_enrichments : String → Result (List (ObjectEnrichment F))
  pub read_column_enrichments : String → String → Result (List (ColumnEnrichment F))
  pub write_object_enrichment : ObjectEnrichment F → Result (Unit {0})
  pub write_column_enrichments : List (ColumnEnrichment F) → Result ℕ
  pub write_metrics : List Metric → Result ℕ
  pub write_rules : String → List Rule → Result ℕ
  pub write_join_paths : List (JoinPath F) → Result ℕ
  pub one : F

abbrev dot : ℕ
dot = 46

-- `s.split(".", 1)` where there is a dot
unfoldable pub split_dot : String → Option (String × String)
split_dot String.[] = none
split_dot (String.◌∷◌ c s) =
    let rest = split_dot s in
    if eqb (code c) dot
    then some ("", s)
    else elim rest [ none ↦ none | some r ↦ some (String.◌∷◌ c r.0, r.1) ]

-- The parts of a qualified name; the error is of the unpacking or of the index.
abbrev pub parts : String → String → Result (String × String)
parts error s = elim (split_dot s) [ none ↦ err (python_error error) | some p ↦ ok p ]

-- `merge` of DescriptionEnricher, AliasEnricher and UnitEnricher, which is one rule.
abbrev pub enrich : Option EnrichmentField → Option EnrichmentField → Option EnrichmentField
enrich found none = found
enrich found (some o) = some o

abbrev or_llm : Option Provenance → Provenance
or_llm none = llm
or_llm (some p) = p

abbrev field_of : String → String → Provenance → Option String → Option EnrichmentField
field_of kind qualified_name provenance none = none
field_of kind qualified_name provenance (some value) = some (record {
  kind = kind;
  qualified_name = qualified_name;
  value = value;
  provenance = provenance;
})

-- `_merge`
unfoldable pub merge_field :
    String → String → Option String → Option Provenance → Option String → Option EnrichmentField
merge_field kind qualified_name found provenance overlay =
    enrich (field_of kind qualified_name (or_llm provenance) found)
      (field_of kind qualified_name yaml overlay)

abbrev pub value_of : Option EnrichmentField → Option String
value_of none = none
value_of (some f) = some f.value

-- `current.x if current else None`, where `x` may be None itself
abbrev pub read_off : {A B : Type 0} → Option A → (A → Option B) → Option B
read_off none f = none
read_off (some a) f = f a

module _ {F : Type 0} where
  -- `existing_objects.get((schema_name, object_name))`: of equal keys the last row counts.
  unfoldable pub find_object :
      String → String → List (ObjectEnrichment F) → Option (ObjectEnrichment F)
  find_object schema name [] = none
  find_object schema name (e ∷ es) = elim (find_object schema name es) [
    | some later ↦ some later
    | none ↦ if e.schema_name == schema && e.object_name == name then some e else none
  ]

  -- `existing_columns.get((object_name, column_name))`
  unfoldable pub find_column :
      String → String → List (ColumnEnrichment F) → Option (ColumnEnrichment F)
  find_column object column [] = none
  find_column object column (e ∷ es) = elim (find_column object column es) [
    | some later ↦ some later
    | none ↦ if e.object_name == object && e.column_name == column then some e else none
  ]

module _ {F : Type 0} (stores : Stores F) (datasource schema name : String) where
  abbrev qualified : String
  qualified = concat datasource (concat "." (concat schema (concat "." name)))

  -- The row of one object, where it has a description.
  unfoldable pub object_row :
      Option (ObjectEnrichment F) → ObjectOverlay → Option (ObjectEnrichment F)
  unfolding merge_field
  object_row current o =
      let provenance = read_off current (λ c. some c.provenance) in
      let description =
        merge_field "description" qualified (read_off current (λ c. some c.description)) provenance
          o.description in
      let alias =
        merge_field "alias" qualified (read_off current (λ c. c.business_alias)) provenance
          o.business_alias in
      elim description [
        | none ↦ none
        | some d ↦ some (record {
          datasource_name = datasource;
          schema_name = schema;
          object_name = name;
          description = d.value;
          business_alias = value_of alias;
          provenance = d.provenance;
          confidence = elim current [ none ↦ stores.one | some c ↦ c.confidence ];
          embedding = read_off current (λ c. c.embedding);
        })
      ]

  -- The row of one column, where it has a description.
  unfoldable pub column_row :
      Option (ColumnEnrichment F) → String → ColumnOverlay → Option (ColumnEnrichment F)
  unfolding merge_field
  column_row current column o =
      let col_qn = concat qualified (concat "." column) in
      let provenance = read_off current (λ c. some c.provenance) in
      let description =
        merge_field "description" col_qn (read_off current (λ c. some c.description)) provenance
          o.description in
      let unit = merge_field "unit" col_qn (read_off current (λ c. c.unit)) provenance o.unit in
      let alias =
        merge_field "alias" col_qn (read_off current (λ c. c.business_alias)) provenance
          o.business_alias in
      elim description [
        | none ↦ none
        | some d ↦ some (record {
          datasource_name = datasource;
          schema_name = schema;
          object_name = name;
          column_name = column;
          description = d.value;
          business_alias = value_of alias;
          unit = value_of unit;
          provenance = d.provenance;
          confidence = stores.one;
        })
      ]

  -- The loop over the columns of an object.
  unfoldable pub column_rows :
      List (ColumnEnrichment F) → List (String × ColumnOverlay) → List (ColumnEnrichment F)
  unfolding column_row
  column_rows existing [] = []
  column_rows existing ((column, o) ∷ rest) =
      let later = column_rows existing rest in
      elim (column_row (find_column name column existing) column o) [
        | none ↦ later
        | some row ↦ row ∷ later
      ]
