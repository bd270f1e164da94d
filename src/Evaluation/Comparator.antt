-- ===== src/Evaluation/Comparator.antt =====
-- The comparison of two results: genql/services/eval/result_comparator.py. `float_key` names the float
-- that `_key` returns for a number: `none` is NaN, and two other floats have one name when they are
-- equal, so that 0.0 and -0.0 do. The names of True and False are those of 1.0 and 0.0.
use gen_ql.Base.{
  ℕ, suc, ◌+◌, String, Bool, true, false, ◌&&◌, ◌||◌, not, Option, none, some, List, [], ◌∷◌, map,
  all, any, keep, length, eqb, is_nonempty, if◌then◌else◌, ◌==◌, lower, get_elem?, python_error,
  Result, ok, err, ◌>>=◌,
}
use gen_ql.Entities.{Value, null, boolean, number, text, ExecutionResult}

-- `_key`; Python's True and False are equal to 1.0 and 0.0.
pub data Key : Type 0 where
  no_key : Key
  float_of : String → Key
  nan_key : Key
  text_of : String → Key

abbrev number_key : Option String → Key
number_key none = nan_key
number_key (some name) = float_of name

unfoldable pub key_of : (String → Option String) → Value → Key
key_of float_key null = no_key
key_of float_key (boolean true) = float_of "1.0"
key_of float_key (boolean false) = float_of "0.0"
key_of float_key (number n) = number_key (float_key n)
key_of float_key (text t) = text_of t

abbrev pub same_key : Key → Key → Bool
same_key no_key no_key = true
same_key (float_of s) (float_of t) = s == t
same_key (text_of s) (text_of t) = s == t
same_key _ _ = false

-- A NaN is a key of its own, which no other result has: the two results share no float object.
abbrev pub is_nan : Key → Bool
is_nan nan_key = true
is_nan _ = false

abbrev pub has_nan : List Key → Bool
has_nan ks = any is_nan ks

-- `==` on tuples of keys.
abbrev pub same_row : List Key → List Key → Bool
same_row [] [] = true
same_row (k ∷ ks) (j ∷ js) = same_key k j && same_row ks js
same_row _ _ = false

-- `==` on lower-cased names, as their code points.
abbrev pub same_name : List ℕ → List ℕ → Bool
same_name [] [] = true
same_name (c ∷ cs) (d ∷ ds) = eqb c d && same_name cs ds
same_name _ _ = false

-- `name in names`
abbrev pub has_name : List (List ℕ) → List ℕ → Bool
has_name names name = any (λ other. same_name other name) names

-- `names.index(name)`; a ValueError where there is none.
abbrev pub index_of : List (List ℕ) → List ℕ → Result ℕ
index_of [] name = err (python_error "ValueError")
index_of (other ∷ names) name =
    if same_name other name then ok 0 else (do i ← index_of names name; ok (suc i))

abbrev pub map_result : {A B : Type 0} → (A → Result B) → List A → Result (List B)
map_result f [] = ok []
map_result f (x ∷ xs) = do y ← f x; ys ← map_result f xs; ok (y ∷ ys)

-- `row[i]`
abbrev pub cell : List Value → ℕ → Result Value
cell row i = elim (get_elem? row i) [ none ↦ err (python_error "IndexError") | some v ↦ ok v ]

-- `tuple(_key(row[i]) for i in order)`
abbrev pub permuted : (String → Option String) → List ℕ → List Value → Result (List Key)
permuted float_key order row = do
  cells ← map_result (cell row) order
  ok (map (key_of float_key) cells)

-- `counter[row]`
abbrev pub count : List Key → List (List Key) → ℕ
count row [] = 0
count row (other ∷ rows) = (if same_row other row then 1 else 0) + count row rows

-- `Counter(a) == Counter(b)`: the counts agree for every row of either. The other counter has no row
-- with a NaN.
unfoldable pub same_counter : List (List Key) → List (List Key) → Bool
same_counter xs ys =
    not (any has_nan xs || any has_nan ys)
    && all (λ row. eqb (count row xs) (count row ys)) xs
    && all (λ row. eqb (count row xs) (count row ys)) ys

pub data Mismatch : Type 0 where
  column_mismatch : List (List ℕ) → List (List ℕ) → Mismatch
  result_mismatch : ℕ → ℕ → Mismatch

abbrev pub lower_columns : ExecutionResult → List (List ℕ)
lower_columns r = map lower r.columns

-- The names of the first list that the second does not have.
abbrev pub names_missing : List (List ℕ) → List (List ℕ) → List (List ℕ)
names_missing names others = keep (λ name. not (has_name others name)) names

abbrev pub reference_rows : (String → Option String) → ExecutionResult → List (List Key)
reference_rows float_key r = map (map (key_of float_key)) r.rows

-- The rows of the generated result, in the order of the reference's columns.
unfoldable pub generated_rows :
    (String → Option String) → ExecutionResult → ExecutionResult → Result (List (List Key))
generated_rows float_key reference generated = do
  order ← map_result (index_of (lower_columns generated)) (lower_columns reference)
  map_result (permuted float_key order) generated.rows

-- The verdict once both lists of rows are there.
abbrev pub verdict :
    ExecutionResult → ExecutionResult → List (List Key) → List (List Key) → Bool × Option Mismatch
verdict reference generated xs ys =
    if same_counter xs ys
    then (true, none)
    else (false, some (result_mismatch (length reference.rows) (length generated.rows)))

unfoldable pub compare :
    (String → Option String) → ExecutionResult → ExecutionResult → Result (Bool × Option Mismatch)
unfolding generated_rows
compare float_key reference generated =
    let missing = names_missing (lower_columns reference) (lower_columns generated) in
    let extra = names_missing (lower_columns generated) (lower_columns reference) in
    if is_nonempty missing || is_nonempty extra
    then ok (false, some (column_mismatch missing extra))
    else (do
      rows ← generated_rows float_key reference generated
      ok (verdict reference generated (reference_rows float_key reference) rows))
