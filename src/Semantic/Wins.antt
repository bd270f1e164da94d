-- ===== src/Semantic/Wins.antt =====
-- What a person writes in the overlay reaches the writers (SemanticOverlayService.apply).
use gen_ql.Base.{
  ℕ, String, Option, none, some, List, [], ◌∷◌, ◌≡◌, refl, sym, ◌∙◌, subst, ap, inl, inr, Elem, ok,
}
use gen_ql.Semantic.Merge.{
  ObjectOverlay, ColumnOverlay, SemanticOverlay, ObjectEnrichment, ColumnEnrichment, OverlayReport,
  Stores, parts, find_object, find_column, object_row, column_rows,
}
use gen_ql.Semantic.Calls.{
  Call, write_object_enrichment, write_column_enrichments, answer, one_row-eq, lift, >>=-returns,
}
use gen_ql.Semantic.Overlay.{written_if, write_row, overlay_object, overlay_objects, apply}
use gen_ql.Semantic.Rows.{
  IsObjectRow, IsColumnRow, parts-eq, object_row-IsObjectRow, column_row-IsColumnRow,
  column_rows-Elem,
}

module _ {F : Type 0} (stores : Stores F) where
  written_if-Elem :
      {A : Type 0} (rows : List A) (row : A) (c : Call F)
      → Elem row rows
      → Elem c (written_if stores rows c).0 × ((written_if stores rows c).1 ≡ answer stores c)
  written_if-Elem [] row c m = absurd m
  written_if-Elem (x ∷ xs) row c m = (inl refl, refl)

  write_row-Elem :
      (made : Option (ObjectEnrichment F)) (row : ObjectEnrichment F) (n : ℕ)
      → made ≡ some row
      → (write_row stores made).1 ≡ ok n
      → Elem (write_object_enrichment row) (write_row stores made).0
        × (stores.write_object_enrichment row ≡ ok tt)
  write_row-Elem none row n e h = absurd (cc)
  write_row-Elem (some x) row n e h =
      let same : x ≡ row = cc in
      (
        inl (ap write_object_enrichment (sym same)),
        subst (λ r. stores.write_object_enrichment r ≡ ok tt) same (one_row-eq _ n h),
      )

module _ {F : Type 0} (stores : Stores F) (datasource : String)
    (existing : List (ObjectEnrichment F)) where
  -- What the loop calls for one object, it has called at the end.
  overlay_objects-Elem :
      (objects : List (String × ObjectOverlay)) (key : String) (o : ObjectOverlay) (n : ℕ × ℕ)
      → Elem (key, o) objects
      → (overlay_objects stores datasource existing objects).1 ≡ ok n
      → (m : ℕ × ℕ) × ((overlay_object stores datasource existing key o).1 ≡ ok m)
        × ((c : Call F)
            → Elem c (overlay_object stores datasource existing key o).0
            → Elem c (overlay_objects stores datasource existing objects).0)
  unfolding overlay_objects
  overlay_objects-Elem [] key o n m h = absurd m
  overlay_objects-Elem ((k, x) ∷ rest) key o n m h =
      let (here, made, h1, first, after) =
        >>=-returns (overlay_object stores datasource existing k x) _ h in
      let (later, went_on, _, inner, _) =
        >>=-returns (overlay_objects stores datasource existing rest) _ h1 in
      elim m [
        | inl same ↦
            subst
              (λ p.
                (y : ℕ × ℕ) × ((overlay_object stores datasource existing p.0 p.1).1 ≡ ok y)
                × ((c : Call F)
                    → Elem c (overlay_object stores datasource existing p.0 p.1).0
                    → Elem c (overlay_objects stores datasource existing ((k, x) ∷ rest)).0))
              (sym same) (here, made, first)
        | inr deeper ↦
            let (y, made_y, grows) = overlay_objects-Elem rest key o later deeper went_on in
            (y, made_y, λ c e. after c (inner c (grows c e)))
      ]

  module _ (key : String) (o : ObjectOverlay) (n : ℕ × ℕ)
      (h : (overlay_object stores datasource existing key o).1 ≡ ok n) where
    overlay_object-IsObjectRow :
        (d : String)
        → o.description ≡ some d
        → (row : ObjectEnrichment F) × Elem
            (write_object_enrichment row)
            (overlay_object stores datasource existing key o).0
          × (stores.write_object_enrichment row ≡ ok tt)
          × IsObjectRow datasource key d o row
    unfolding overlay_object
    overlay_object-IsObjectRow d given =
        let (names, named, h1, _, after) =
          >>=-returns {F = F} (lift (parts "ValueError" key)) _ h in
        let row_of =
          object_row stores datasource names.0 names.1 (find_object names.0 names.1 existing) o in
        let (count, wrote, _, first, _) = >>=-returns (write_row stores row_of) _ h1 in
        let (row, made, is_row) =
          object_row-IsObjectRow stores datasource key names.0 names.1
            (find_object names.0 names.1 existing) o d (parts-eq "ValueError" key names named)
            given in
        let (called, answered) = write_row-Elem stores row_of row count made wrote in
        (row, after _ (first _ called), answered, is_row)

    overlay_object-IsColumnRow :
        (column : String) (c : ColumnOverlay) (d : String)
        → Elem (column, c) o.columns
        → c.description ≡ some d
        → (rows : List (ColumnEnrichment F)) × (row : ColumnEnrichment F) × (count : ℕ) × Elem
            (write_column_enrichments rows)
            (overlay_object stores datasource existing key o).0
          × (stores.write_column_enrichments rows ≡ ok count)
          × Elem row rows
          × IsColumnRow datasource key column d c row
    unfolding overlay_object
    overlay_object-IsColumnRow column c d m given =
        let (names, named, h1, _, after) =
          >>=-returns {F = F} (lift (parts "ValueError" key)) _ h in
        let row_of =
          object_row stores datasource names.0 names.1 (find_object names.0 names.1 existing) o in
        let (_, _, h2, _, after_row) = >>=-returns (write_row stores row_of) _ h1 in
        let (columns, _, h3, _, after_read) =
          >>=-returns (lift (stores.read_column_enrichments datasource names.0)) _ h2 in
        let rows = column_rows stores datasource names.0 names.1 columns o.columns in
        let (count, wrote, _, first, _) =
          >>=-returns (written_if stores rows (write_column_enrichments rows)) _ h3 in
        let (row, made, is_row) =
          column_row-IsColumnRow stores datasource key names.0 names.1
            (find_column names.1 column columns) column c d (parts-eq "ValueError" key names named)
            given in
        let there : Elem row rows =
          column_rows-Elem stores datasource key names.0 names.1 columns o.columns column c row m
            made in
        let (called, answered) =
          written_if-Elem stores rows row (write_column_enrichments rows) there in
        (
          rows,
          row,
          count,
          after _ (after_row _ (after_read _ (first _ called))),
          sym answered ∙ wrote,
          there,
          is_row,
        )

module _ {F : Type 0} (stores : Stores F) (overlay : SemanticOverlay F) (report : OverlayReport)
    (h : (apply stores overlay).1 ≡ ok report) where
  apply-Elem :
      (existing : List (ObjectEnrichment F)) × (n : ℕ × ℕ) × ((overlay_objects stores
          overlay.datasource existing overlay.objects).1
        ≡ ok n)
      × ((c : Call F)
          → Elem c (overlay_objects stores overlay.datasource existing overlay.objects).0
          → Elem c (apply stores overlay).0)
  unfolding apply
  apply-Elem =
      let (existing, _, h1, _, after) =
        >>=-returns {F = F} (lift (stores.read_object_enrichments overlay.datasource)) _ h in
      let (n, made, _, first, _) =
        >>=-returns (overlay_objects stores overlay.datasource existing overlay.objects) _ h1 in
      (existing, n, made, λ c e. after c (first c e))

  -- When the overlay describes an object, a run that returns has called the writer with a row for
  -- that object with this description, marked as YAML, and with the alias of the overlay if it gives
  -- one, whatever was found before, and the writer has returned.
  pub apply_writes_object :
      (key : String) (o : ObjectOverlay) (d : String)
      → Elem (key, o) overlay.objects
      → o.description ≡ some d
      → (row : ObjectEnrichment F) × Elem (write_object_enrichment row) (apply stores overlay).0
        × (stores.write_object_enrichment row ≡ ok tt)
        × IsObjectRow overlay.datasource key d o row
  apply_writes_object key o d m given =
      let (existing, n, ran, grows) = apply-Elem in
      let (k, made, inner) =
        overlay_objects-Elem stores overlay.datasource existing overlay.objects key o n m ran in
      let (row, there, answered, is_row) =
        overlay_object-IsObjectRow stores overlay.datasource existing key o k made d given in
      (row, grows _ (inner _ there), answered, is_row)

  -- When the overlay describes a column of an object, a run that returns has called the writer with
  -- rows among which there is one for that column with this description, marked as YAML, and with
  -- the alias and the unit of the overlay if it gives them, whatever was found before, and the writer
  -- has returned.
  pub apply_writes_column :
      (key : String) (o : ObjectOverlay) (column : String) (c : ColumnOverlay) (d : String)
      → Elem (key, o) overlay.objects
      → Elem (column, c) o.columns
      → c.description ≡ some d
      → (rows : List (ColumnEnrichment F)) × (row : ColumnEnrichment F) × (count : ℕ) × Elem
          (write_column_enrichments rows)
          (apply stores overlay).0
        × (stores.write_column_enrichments rows ≡ ok count)
        × Elem row rows
        × IsColumnRow overlay.datasource key column d c row
  apply_writes_column key o column c d m m' given =
      let (existing, n, ran, grows) = apply-Elem in
      let (k, made, inner) =
        overlay_objects-Elem stores overlay.datasource existing overlay.objects key o n m ran in
      let (rows, row, count, called, answered, there, is_row) =
        overlay_object-IsColumnRow stores overlay.datasource existing key o k made column c d m'
          given in
      (rows, row, count, grows _ (inner _ called), answered, there, is_row)
