-- ===== src/Evaluation/Bags.antt =====
-- What the comparison decides (genql/services/eval/result_comparator.py).
use gen_ql.Base.{
  ℕ, String, Bool, true, false, ◌||◌, not, Option, any, none, List, [], ◌∷◌, ◌≡◌, ◌↔◌, ◌⊎◌, inl,
  inr, refl, sym, ap, all, is_nonempty, eqb, arith, eq_iff, Elem, Bool-cases, ok, >>=-eq-ok,
  keep-none, keep-Elem,
}
use mathlib.Core.Path.{fun_ext}
use gen_ql.Entities.{ExecutionResult}
use gen_ql.Evaluation.Comparator.{
  Key, no_key, float_of, nan_key, text_of, has_nan, same_key, same_row, same_name, has_name, count,
  same_counter, names_missing, lower_columns, reference_rows, generated_rows, verdict, compare,
}

-- The bag of a list of rows, which forgets their order: how often each row occurs.
abbrev pub bag : List (List Key) → List Key → ℕ
bag rows = λ row. count row rows

same_key-eq : (k j : Key) → same_key k j ≡ true → k ≡ j
same_key-eq no_key no_key h = refl
same_key-eq (float_of s) (float_of t) h = ap float_of ((eq_iff s t).0 h)
same_key-eq (text_of s) (text_of t) h = ap text_of ((eq_iff s t).0 h)
same_key-eq nan_key j h = cc
same_key-eq no_key nan_key h = cc
same_key-eq (float_of s) nan_key h = cc
same_key-eq (text_of s) nan_key h = cc
same_key-eq no_key (float_of t) h = cc
same_key-eq no_key (text_of t) h = cc
same_key-eq (float_of s) no_key h = cc
same_key-eq (float_of s) (text_of t) h = cc
same_key-eq (text_of s) no_key h = cc
same_key-eq (text_of s) (float_of t) h = cc

same_row-eq : (ks js : List Key) → same_row ks js ≡ true → ks ≡ js
same_row-eq [] [] h = refl
same_row-eq [] (j ∷ js) h = cc
same_row-eq (k ∷ ks) [] h = cc
same_row-eq (k ∷ ks) (j ∷ js) h =
    let first : k ≡ j = same_key-eq k j (ground arith) in
    let rest : ks ≡ js = same_row-eq ks js (ground arith) in cc

same_name-eq : (cs ds : List ℕ) → same_name cs ds ≡ true → cs ≡ ds
same_name-eq [] [] h = refl
same_name-eq [] (d ∷ ds) h = cc
same_name-eq (c ∷ cs) [] h = cc
same_name-eq (c ∷ cs) (d ∷ ds) h =
    let first : c ≡ d = ground arith in let rest : cs ≡ ds = same_name-eq cs ds (ground arith) in cc

same_name_refl : (cs : List ℕ) → same_name cs cs ≡ true
same_name_refl [] = refl
same_name_refl (c ∷ cs) = ground (arith, same_name_refl cs)

has_name-Elem :
    (names : List (List ℕ)) (name : List ℕ) → has_name names name ≡ true → Elem name names
has_name-Elem [] name h = ground arith
has_name-Elem (x ∷ xs) name h = elim (Bool-cases (same_name x name)) [
  | inl same ↦ inl (sym (same_name-eq x name same))
  | inr other ↦ inr (has_name-Elem xs name (rw other at h))
]

pub Elem-has_name :
    (names : List (List ℕ)) (name : List ℕ) → Elem name names → has_name names name ≡ true
Elem-has_name [] name h = absurd h
Elem-has_name (x ∷ xs) name (inl same) = rw (same, same_name_refl x) refl
Elem-has_name (x ∷ xs) name (inr later) = ground (arith, Elem-has_name xs name later)

count_cases : (row : List Key) (rows : List (List Key)) → (count row rows ≡ 0) ⊎ Elem row rows
count_cases row [] = inl refl
count_cases row (x ∷ xs) = elim (Bool-cases (same_row x row)) [
  | inl same ↦ inr (inl (sym (same_row-eq x row same)))
  | inr other ↦ elim (count_cases row xs) [
    | inl none_left ↦ inl (rw other (omega (arith, none_left)))
    | inr later ↦ inr (inr later)
  ]
]

all-Elem :
    {A : Type 0} (p : A → Bool) (xs : List A) (x : A) → all p xs ≡ true → Elem x xs → p x ≡ true
all-Elem p [] x h m = absurd m
all-Elem p (y ∷ ys) x h (inl same) = rw same (ground arith)
all-Elem p (y ∷ ys) x h (inr later) = all-Elem p ys x (ground arith) later

Elem-all : {A : Type 0} (p : A → Bool) (xs : List A) → ((x : A) → p x ≡ true) → all p xs ≡ true
Elem-all p [] h = refl
Elem-all p (x ∷ xs) h = ground (arith, h x, Elem-all p xs h)

eqb-eq : (m n : ℕ) → eqb m n ≡ true → m ≡ n
eqb-eq m n h = ground arith

eqb_refl : (m n : ℕ) → m ≡ n → eqb m n ≡ true
eqb_refl m n h = ground arith

same_counter-counts :
    (xs ys : List (List Key)) (row : List Key)
    → same_counter xs ys ≡ true
    → count row xs ≡ count row ys
unfolding same_counter
same_counter-counts xs ys row h =
    let test : List Key → Bool = λ other. eqb (count other xs) (count other ys) in
    elim (count_cases row xs) [
      | inr here ↦ eqb-eq _ _ (all-Elem test xs row (ground arith) here)
      | inl no_x ↦ elim (count_cases row ys) [
        | inr there ↦ eqb-eq _ _ (all-Elem test ys row (ground arith) there)
        | inl no_y ↦ cc
      ]
    ]

same_counter-AreWhole :
    (xs ys : List (List Key))
    → same_counter xs ys ≡ true
    → (any has_nan xs ≡ false) × (any has_nan ys ≡ false)
unfolding same_counter
same_counter-AreWhole xs ys h = ground arith

counts-same_counter :
    (xs ys : List (List Key))
    → any has_nan xs ≡ false
    → any has_nan ys ≡ false
    → ((row : List Key) → count row xs ≡ count row ys)
    → same_counter xs ys ≡ true
unfolding same_counter
counts-same_counter xs ys no_x no_y h =
    let test : List Key → Bool = λ other. eqb (count other xs) (count other ys) in
    rw
      (
        no_x,
        no_y,
        Elem-all test xs (λ row. eqb_refl _ _ (h row)),
        Elem-all test ys (λ row. eqb_refl _ _ (h row)),
      )
      refl

nonempty-absurd : {A : Type 0} (xs : List A) (x : A) → Elem x xs → is_nonempty xs ≡ false → ⊥
nonempty-absurd [] x m h = m
nonempty-absurd (y ∷ ys) x m h = cc

pub missing-nil :
    (names others : List (List ℕ))
    → is_nonempty (names_missing names others) ≡ false
    → (name : List ℕ) → Elem name names
    → Elem name others
missing-nil names others none_missing name here = elim (Bool-cases (has_name others name)) [
  | inl there ↦ has_name-Elem others name there
  | inr gone ↦ absurd (
      nonempty-absurd _ name
        (keep-Elem (λ n. not (has_name others n)) name names here (rw gone refl)) none_missing)
]

nil-missing :
    (names others : List (List ℕ))
    → ((name : List ℕ) → Elem name names → Elem name others)
    → names_missing names others ≡ []
nil-missing names others sub =
    keep-none (λ n. not (has_name others n)) names
      (λ name here. rw (Elem-has_name others name (sub name here)) refl)

-- The two results have the same names of columns, but for their case and their order.
abbrev pub SameColumns : ExecutionResult → ExecutionResult → Type 0
SameColumns reference generated =
    ((name : List ℕ) → Elem name (lower_columns reference) → Elem name (lower_columns generated))
    × ((name : List ℕ) → Elem name (lower_columns generated) → Elem name (lower_columns reference))

-- The rows of both, as keys in the order of the reference's columns, are the same bag, and there is
-- no NaN among them.
abbrev pub SameBag : (String → Option String) → ExecutionResult → ExecutionResult → Type 0
SameBag float_key reference generated =
    (rows : List (List Key)) × (generated_rows float_key reference generated ≡ ok rows)
    × (any has_nan (reference_rows float_key reference) ≡ false)
    × (any has_nan rows ≡ false)
    × (bag (reference_rows float_key reference) ≡ bag rows)

verdict-true :
    (reference generated : ExecutionResult) (xs ys : List (List Key))
    → verdict reference generated xs ys ≡ (true, none)
    → same_counter xs ys ≡ true
verdict-true reference generated xs ys h = ground arith

matched :
    (float_key : String → Option String) (reference generated : ExecutionResult)
    → compare float_key reference generated ≡ ok (true, none)
    → SameColumns reference generated × SameBag float_key reference generated
unfolding compare
matched float_key reference generated h =
    let missing = names_missing (lower_columns reference) (lower_columns generated) in
    let extra = names_missing (lower_columns generated) (lower_columns reference) in
    elim (Bool-cases (is_nonempty missing || is_nonempty extra)) [
      | inl differ ↦ absurd (cc (rw differ at h))
      | inr agree ↦
          let (rows, made, judged) =
            >>=-eq-ok (generated_rows float_key reference generated) _ (rw agree at h) in
          let no_missing : is_nonempty missing ≡ false = ground arith in
          let no_extra : is_nonempty extra ≡ false = ground arith in
          let same =
            verdict-true reference generated (reference_rows float_key reference) rows (cc) in
          (
            (missing-nil _ _ no_missing, missing-nil _ _ no_extra),
            (
              rows,
              made,
              (same_counter-AreWhole _ rows same).0,
              (same_counter-AreWhole _ rows same).1,
              fun_ext (λ row. same_counter-counts _ rows row same),
            ),
          )
    ]

matches :
    (float_key : String → Option String) (reference generated : ExecutionResult)
    → SameColumns reference generated
    → SameBag float_key reference generated
    → compare float_key reference generated ≡ ok (true, none)
unfolding compare
matches float_key reference generated (sub, sup) (rows, made, no_x, no_y, bags) =
    rw
      (
        nil-missing _ _ sub,
        nil-missing _ _ sup,
        made,
        counts-same_counter (reference_rows float_key reference) rows no_x no_y
            (λ row. ap (λ b. b row) bags),
      )
      refl

pub compare_iff :
    (float_key : String → Option String) (reference generated : ExecutionResult)
    → (compare float_key reference generated ≡ ok (true, none))
      ↔ (SameColumns reference generated × SameBag float_key reference generated)
compare_iff float_key reference generated =
    (matched float_key reference generated, λ h. matches float_key reference generated h.0 h.1)
