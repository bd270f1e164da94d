-- ===== src/Evaluation/Rows.antt =====
-- The comparison returns where the rows are whole (genql/services/eval/result_comparator.py).
use gen_ql.Base.{
  ℕ, zero, suc, ◌<◌, String, Bool, true, false, not, ◌||◌, Option, some, List, [], ◌∷◌, ◌≡◌, inl,
  inr, refl, arith, map, length, is_some, is_nonempty, Bool-cases, Result, ok, >>=-eq-ok, All, Elem,
  Elem-All, lower,
}
use gen_ql.Entities.{Value, ExecutionResult}
use gen_ql.Evaluation.Comparator.{
  Key, Mismatch, column_mismatch, compare, generated_rows, reference_rows, verdict, names_missing,
  lower_columns, has_name, index_of, cell, permuted, map_result, same_name, key_of,
}
use gen_ql.Evaluation.Bags.{missing-nil, Elem-has_name}

-- Every call returns, with a value of which `P` holds.
pub map_result-ok :
    {A B : Type 0} (f : A → Result B) (P : B → Type 0) (xs : List A)
    → ((x : A) → Elem x xs → (y : B) × (f x ≡ ok y) × P y)
    → (ys : List B) × (map_result f xs ≡ ok ys) × All P ys
map_result-ok f P [] h = ([], refl, tt)
map_result-ok f P (x ∷ xs) h =
    let (y, made, holds) = h x (inl refl) in
    let (ys, rest, all_hold) = map_result-ok f P xs (λ z later. h z (inr later)) in
    (y ∷ ys, rw (made, rest) refl, (holds, all_hold))

index_of-ok :
    (names : List (List ℕ)) (name : List ℕ)
    → has_name names name ≡ true
    → (i : ℕ) × (index_of names name ≡ ok i) × (i < length names)
index_of-ok [] name h = absurd (ground arith)
index_of-ok (other ∷ names) name h = elim (Bool-cases (same_name other name)) [
  | inl same ↦ (0, rw same refl, omega arith)
  | inr apart ↦
      let (i, found, inside) = index_of-ok names name (rw apart at h) in
      (suc i, rw (apart, found) refl, omega arith)
]

cell-ok : (row : List Value) (i : ℕ) → i < length row → (v : Value) × (cell row i ≡ ok v)
cell-ok [] i h = absurd (omega arith)
cell-ok (v ∷ row) zero h = (v, refl)
cell-ok (v ∷ row) (suc i) h = cell-ok row i (omega arith)

length-lower : (names : List String) → length (map lower names) ≡ length names
length-lower [] = refl
length-lower (n ∷ ns) = omega (arith, length-lower ns)

-- Every row has a cell for each column.
abbrev pub IsRectangular : ExecutionResult → Type 0
IsRectangular r = All (λ row. length row ≡ length r.columns) r.rows

permuted-ok :
    (float_key : String → Option String) (row : List Value) (order : List ℕ)
    → All (λ i. i < length row) order
    → (keys : List Key) × (permuted float_key order row ≡ ok keys) × Unit {0}
permuted-ok float_key row order inside =
    let (cells, made, _) =
      map_result-ok (cell row) (λ v. Unit {0}) order
        (λ i m.
          let (v, found) = cell-ok row i (Elem-All (λ j. j < length row) i order m inside) in
          (v, found, tt)) in
    (map (key_of float_key) cells, rw made refl, tt)

-- The comparison returns where the rows of the generated result are whole.
pub compare-ok :
    (float_key : String → Option String) (reference generated : ExecutionResult)
    → IsRectangular generated
    → (answer : Bool × Option Mismatch) × (compare float_key reference generated ≡ ok answer)
unfolding compare generated_rows
compare-ok float_key reference generated whole =
    let missing = names_missing (lower_columns reference) (lower_columns generated) in
    let extra = names_missing (lower_columns generated) (lower_columns reference) in
    elim (Bool-cases (is_nonempty missing || is_nonempty extra)) [
      | inl differ ↦ ((false, some (column_mismatch missing extra)), rw differ refl)
      | inr agree ↦
          let sub =
            missing-nil (lower_columns reference) (lower_columns generated) (ground arith) in
          let (order, ordered, inside) =
            map_result-ok (index_of (lower_columns generated)) (λ i. i < length generated.columns)
              (lower_columns reference)
              (λ name m.
                let (i, found, below) =
                  index_of-ok (lower_columns generated) name
                    (Elem-has_name (lower_columns generated) name (sub name m)) in
                (i, found, omega (arith, length-lower generated.columns))) in
          let (rows, made, _) =
            map_result-ok (permuted float_key order) (λ keys. Unit {0}) generated.rows
              (λ row m. permuted-ok float_key row order (
                rw (Elem-All (λ r. length r ≡ length generated.columns) row generated.rows m whole)
                  inside)) in
          (
            verdict reference generated (reference_rows float_key reference) rows,
            rw (agree, ordered, made) refl,
          )
    ]

verdict-told :
    (reference generated : ExecutionResult) (xs ys : List (List Key)) (b : Bool)
    (m : Option Mismatch)
    → verdict reference generated xs ys ≡ (b, m)
    → is_some m ≡ not b
verdict-told reference generated xs ys b m h = ground arith

ok-told :
    (missing extra : List (List ℕ)) (b : Bool) (m : Option Mismatch)
    → ◌≡◌ {A = Result (Bool × Option Mismatch)}
        (ok (false, some (column_mismatch missing extra)))
        (ok (b, m))
    → is_some m ≡ not b
ok-told missing extra b m h = ground arith

-- A mismatch is told exactly where the results do not match.
pub compare-told :
    (float_key : String → Option String) (reference generated : ExecutionResult) (b : Bool)
    (m : Option Mismatch)
    → compare float_key reference generated ≡ ok (b, m)
    → is_some m ≡ not b
unfolding compare
compare-told float_key reference generated b m h =
    let missing = names_missing (lower_columns reference) (lower_columns generated) in
    let extra = names_missing (lower_columns generated) (lower_columns reference) in
    elim (Bool-cases (is_nonempty missing || is_nonempty extra)) [
      | inl differ ↦ ok-told missing extra b m (rw differ at h)
      | inr agree ↦
          let (rows, made, judged) =
            >>=-eq-ok (generated_rows float_key reference generated) _ (rw agree at h) in
          verdict-told reference generated (reference_rows float_key reference) rows b m (cc)
    ]
