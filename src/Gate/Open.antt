-- ===== src/Gate/Open.antt =====
-- The open dimensions: which they are, and that an answer closes the one it is recorded against.
use mathlib.Core.List.{map-append}
use gen_ql.Base.{
  String, false, ◌||◌, List, [], ◌∷◌, ◌++◌, map, ◌≡◌, ◌≤◌, ◌<◌, contains, contains-append, ◌==◌,
  eq_refl, Elem, Elem-keep, length, length-keep-lt, length-keep-le, Dict, has_key, arith,
}
use gen_ql.Entities.{SchemaLink, Rule}
use gen_ql.Gate.{dimensions, is_open, open_dimensions, schema_excludes}

abbrev pub answered : List (String × String) → List String
answered answers = map (λ (a : String × String). a.0) answers

module _ (defaults : Dict Rule) (answers : List (String × String)) (links : List SchemaLink)
    (d : String) where
  -- An open dimension is one of the six, with no rule, no answer, and no missing date column.
  pub open-Elem :
      Elem d (open_dimensions defaults answers links)
      → Elem d dimensions
        × (has_key defaults d ≡ false)
        × (contains (answered answers) d ≡ false)
        × (schema_excludes links d ≡ false)
  unfolding open_dimensions is_open
  open-Elem h =
      let (among, test) = Elem-keep (is_open defaults answers links) d dimensions h in
      (among, ground arith, ground arith, ground arith)

  answered-append :
      (answer : String) (k : String)
      → contains (answered (answers ++ (d, answer) ∷ [])) k
        ≡ (contains (answered answers) k || (d == k || false))
  answered-append answer k = rw (map-append, contains-append)

  -- An answer about an open dimension leaves strictly fewer dimensions open.
  pub open-answer-lt :
      (answer : String)
      → Elem d (open_dimensions defaults answers links)
      → length (open_dimensions defaults (answers ++ (d, answer) ∷ []) links)
        < length (open_dimensions defaults answers links)
  unfolding open_dimensions is_open
  open-answer-lt answer h =
      let (among, test) = Elem-keep (is_open defaults answers links) d dimensions h in
      length-keep-lt (is_open defaults answers links)
        (is_open defaults (answers ++ (d, answer) ∷ []) links) d dimensions
        (λ k. ground (arith, answered-append answer k)) among test
        (ground (arith, answered-append answer d, eq_refl d))

pub length-open-le :
    (defaults : Dict Rule) (answers : List (String × String)) (links : List SchemaLink)
    → length (open_dimensions defaults answers links) ≤ 6
unfolding open_dimensions dimensions
length-open-le defaults answers links = length-keep-le (is_open defaults answers links) dimensions
