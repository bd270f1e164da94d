-- ===== src/Semantic/Rows.antt =====
-- The row of an object or a column that the overlay describes (SemanticOverlayService._merge).
use gen_ql.Base.{
  String, Option, none, some, List, [], ◌∷◌, ◌≡◌, refl, sym, subst, inl, inr, Elem, ok, arith,
}
use gen_ql.Semantic.Merge.{
  Provenance, yaml, ObjectOverlay, ColumnOverlay, ObjectEnrichment, ColumnEnrichment, Stores, parts,
  find_column, object_row, column_row, column_rows, split_dot, merge_field, value_of, read_off,
}

-- A value that the overlay gives is the one that is written.
abbrev pub Prefers : Option String → Option String → Type 0
Prefers none written = Unit
Prefers (some given) written = written ≡ some given

module _ {F : Type 0} where
  -- The row of the object, as the overlay describes it.
  abbrev pub IsObjectRow : String → String → String → ObjectOverlay → ObjectEnrichment F → Type 0
  IsObjectRow datasource key d o row =
      (row.datasource_name ≡ datasource)
      × (split_dot key ≡ some (row.schema_name, row.object_name))
      × (row.description ≡ d)
      × (row.provenance ≡ yaml)
      × Prefers o.business_alias row.business_alias

  -- The row of the column, as the overlay describes it.
  abbrev pub IsColumnRow :
      String → String → String → String → ColumnOverlay → ColumnEnrichment F → Type 0
  IsColumnRow datasource key column d o row =
      (row.datasource_name ≡ datasource)
      × (split_dot key ≡ some (row.schema_name, row.object_name))
      × (row.column_name ≡ column)
      × (row.description ≡ d)
      × (row.provenance ≡ yaml)
      × Prefers o.business_alias row.business_alias
      × Prefers o.unit row.unit

merge_field-Prefers :
    (kind qualified_name : String) (found : Option String) (provenance : Option Provenance)
    (overlay : Option String)
    → Prefers overlay (value_of (merge_field kind qualified_name found provenance overlay))
unfolding merge_field
merge_field-Prefers kind qualified_name found provenance none = tt
merge_field-Prefers kind qualified_name found provenance (some given) = refl

pub parts-eq :
    (error key : String) (names : String × String)
    → parts error key ≡ ok names
    → split_dot key ≡ some names
parts-eq error key names h = ground arith

first :
    {A : Type 0} (here : Option A) (row : A) (rows : List A)
    → here ≡ some row
    → Elem row (elim here [ none ↦ rows | some x ↦ x ∷ rows ])
first none row rows h = absurd (cc)
first (some x) row rows h = inl (cc)

-- The step of the loop over the columns keeps the rows of the later ones.
kept :
    {A : Type 0} (here : Option A) (row : A) (rows : List A)
    → Elem row rows
    → Elem row (elim here [ none ↦ rows | some x ↦ x ∷ rows ])
kept none row rows m = m
kept (some x) row rows m = inr m

module _ {F : Type 0} (stores : Stores F) (datasource key schema name : String) where
  pub object_row-IsObjectRow :
      (current : Option (ObjectEnrichment F)) (o : ObjectOverlay) (d : String)
      → split_dot key ≡ some (schema, name)
      → o.description ≡ some d
      → (row : ObjectEnrichment F) × (object_row stores datasource schema name current o ≡ some row)
        × IsObjectRow datasource key d o row
  unfolding object_row merge_field
  object_row-IsObjectRow current o d named given =
      subst
        (λ x.
          (row : ObjectEnrichment F) × (object_row stores datasource schema name current
              (record o { description = x })
            ≡ some row)
          × IsObjectRow datasource key d (record o { description = x }) row)
        (sym given)
        (
          _,
          refl,
          (
            refl,
            named,
            refl,
            refl,
            merge_field-Prefers _ _ _ (read_off current (λ c. some c.provenance)) o.business_alias,
          ),
        )

  pub column_row-IsColumnRow :
      (current : Option (ColumnEnrichment F)) (column : String) (o : ColumnOverlay) (d : String)
      → split_dot key ≡ some (schema, name)
      → o.description ≡ some d
      → (row : ColumnEnrichment F) × (column_row stores datasource schema name current column o
          ≡ some row)
        × IsColumnRow datasource key column d o row
  unfolding column_row merge_field
  column_row-IsColumnRow current column o d named given =
      subst
        (λ x.
          (row : ColumnEnrichment F) × (column_row stores datasource schema name current column
              (record o { description = x })
            ≡ some row)
          × IsColumnRow datasource key column d (record o { description = x }) row)
        (sym given)
        (
          _,
          refl,
          (
            refl,
            named,
            refl,
            refl,
            refl,
            merge_field-Prefers _ _ _ (read_off current (λ c. some c.provenance)) o.business_alias,
            merge_field-Prefers _ _ _ (read_off current (λ c. some c.provenance)) o.unit,
          ),
        )

  pub column_rows-Elem :
      (existing : List (ColumnEnrichment F)) (cs : List (String × ColumnOverlay)) (column : String)
      (o : ColumnOverlay) (row : ColumnEnrichment F)
      → Elem (column, o) cs
      → column_row stores datasource schema name (find_column name column existing) column o
        ≡ some row
      → Elem row (column_rows stores datasource schema name existing cs)
  unfolding column_rows
  column_rows-Elem existing [] column o row m h = absurd m
  column_rows-Elem existing ((k, c) ∷ cs) column o row (inl same) h =
      let here : column_row stores datasource schema name (find_column name k existing) k c
          ≡ some row =
        subst
          (λ p.
            column_row stores datasource schema name (find_column name p.0 existing) p.0 p.1
            ≡ some row)
          same h in
      first _ row _ here
  column_rows-Elem existing ((k, c) ∷ cs) column o row (inr later) h =
      kept (column_row stores datasource schema name (find_column name k existing) k c) row _
        (column_rows-Elem existing cs column o row later h)
