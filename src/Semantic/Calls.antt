-- ===== src/Semantic/Calls.antt =====
-- The calls that the overlay service makes of its writers, in order: a run is the calls that it has
-- made and what it returns or raises. A call is made by `perform` and by nothing else.
use gen_ql.Base.{
  ℕ, String, List, [], ◌∷◌, ◌++◌, ◌≡◌, refl, Elem, Elem-append_left, Elem-append_right, Result, ok,
  err,
}
use gen_ql.Entities.{Rule}
use gen_ql.Semantic.Merge.{ObjectEnrichment, ColumnEnrichment, Metric, JoinPath, Stores}

pub data Call (F : Type 0) : Type 0 where
  write_object_enrichment : ObjectEnrichment F → Call F
  write_column_enrichments : List (ColumnEnrichment F) → Call F
  write_metrics : List Metric → Call F
  write_rules : String → List Rule → Call F
  write_join_paths : List (JoinPath F) → Call F

abbrev pub Run : Type 0 → Type 0 → Type 0
Run F A = List (Call F) × Result A

abbrev one_row : Result (Unit {0}) → Result ℕ
one_row (ok _) = ok 1
one_row (err e) = err e

pub one_row-eq : (r : Result (Unit {0})) (n : ℕ) → one_row r ≡ ok n → r ≡ ok tt
one_row-eq (ok tt) n h = refl
one_row-eq (err e) n h = absurd (cc)

module _ {F : Type 0} where
  -- What the writer answers: how many rows it wrote.
  abbrev pub answer : Stores F → Call F → Result ℕ
  answer stores (write_object_enrichment row) = one_row (stores.write_object_enrichment row)
  answer stores (write_column_enrichments rows) = stores.write_column_enrichments rows
  answer stores (write_metrics rows) = stores.write_metrics rows
  answer stores (write_rules datasource rows) = stores.write_rules datasource rows
  answer stores (write_join_paths rows) = stores.write_join_paths rows

  abbrev pub perform : Stores F → Call F → Run F ℕ
  perform stores c = (c ∷ [], answer stores c)

  abbrev pub pure : {A : Type 0} → A → Run F A
  pure a = ([], ok a)

  -- What calls no writer.
  abbrev pub lift : {A : Type 0} → Result A → Run F A
  lift r = ([], r)

infixl 5 ◌>>=◌
abbrev pub ◌>>=◌ : {F A B : Type 0} → Run F A → (A → Run F B) → Run F B
(calls, ok a) >>= f = let (later, r) = f a in (calls ++ later, r)
(calls, err e) >>= f = (calls, err e)

-- A run that returns: its parts return, and what they have called it has called.
pub >>=-returns :
    {F A B : Type 0} (m : Run F A) (f : A → Run F B) {b : B}
    → (m >>= f).1 ≡ ok b
    → (a : A) × (m.1 ≡ ok a)
      × ((f a).1 ≡ ok b)
      × ((c : Call F) → Elem c m.0 → Elem c (m >>= f).0)
      × ((c : Call F) → Elem c (f a).0 → Elem c (m >>= f).0)
>>=-returns (calls, ok a) f h =
    (a, refl, h, λ c. Elem-append_left c calls (f a).0, λ c. Elem-append_right c calls (f a).0)
>>=-returns (calls, err e) f h = absurd (cc)
