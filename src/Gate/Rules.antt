-- ===== src/Gate/Rules.antt =====
-- The rules of a datasource, as `_defaults` and the two comprehensions over them read them.
use gen_ql.Base.{
  String, Bool, true, false, Option, none, some, List, [], ◌∷◌, ◌≡◌, refl, if◌then◌else◌, ◌==◌,
  eq_iff, contains, Dict, lookup, lookup-insert, lookup-nil, arith, Bool-cases, eq_refl, ◌∙◌, ap,
  inl, inr,
}
use gen_ql.Entities.{Rule}
use gen_ql.Gate.{dimensions, add_default, defaults_from, defaults_of}

-- The first rule that names a dimension.
abbrev pub first_rule : String → List Rule → Option Rule
first_rule d [] = none
first_rule d (r ∷ rs) = if r.dimension == d then some r else first_rule d rs

abbrev or_else : Option Rule → Option Rule → Option Rule
or_else none o = o
or_else (some r) _ = some r

lookup-add_default :
    (acc : Dict Rule) (r : Rule) (d : String)
    → contains dimensions d ≡ true
    → lookup (add_default acc r) d
      ≡ or_else (lookup acc d) (if r.dimension == d then some r else none)
unfolding add_default
lookup-add_default acc r d known = elim (Bool-cases (r.dimension == d)) [
  | inl same ↦
      let e : r.dimension ≡ d = (eq_iff r.dimension d).0 same in
      rw (e, known, eq_refl d) ground (arith, lookup-insert d d r acc, eq_refl d)
  | inr other ↦ ground (arith, lookup-insert r.dimension d r acc)
]

or_else_step :
    (o : Option Rule) (r : Rule) (b : Bool) (p : Option Rule)
    → or_else (or_else o (if b then some r else none)) p ≡ or_else o (if b then some r else p)
or_else_step o r b p = ground arith

lookup-defaults_from :
    (acc : Dict Rule) (rules : List Rule) (d : String)
    → contains dimensions d ≡ true
    → lookup (defaults_from acc rules) d ≡ or_else (lookup acc d) (first_rule d rules)
unfolding defaults_from
lookup-defaults_from acc [] d known = ground arith
lookup-defaults_from acc (r ∷ rs) d known =
    rw (lookup-defaults_from (add_default acc r) rs d known, lookup-add_default acc r d known)
      (or_else_step (lookup acc d) r (r.dimension == d) (first_rule d rs))

lookup-add_default_other :
    (acc : Dict Rule) (r : Rule) (d : String)
    → contains dimensions d ≡ false
    → lookup (add_default acc r) d ≡ lookup acc d
unfolding add_default
lookup-add_default_other acc r d unknown = ground (
  arith,
  lookup-insert r.dimension d r acc,
  eq_iff r.dimension d,
  ap (contains dimensions) {x = r.dimension} {y = d},
)

lookup-defaults_from_other :
    (acc : Dict Rule) (rules : List Rule) (d : String)
    → contains dimensions d ≡ false
    → lookup (defaults_from acc rules) d ≡ lookup acc d
unfolding defaults_from
lookup-defaults_from_other acc [] d unknown = refl
lookup-defaults_from_other acc (r ∷ rs) d unknown =
    lookup-defaults_from_other (add_default acc r) rs d unknown
    ∙ lookup-add_default_other acc r d unknown

-- A dimension's default is the first rule that names it, in the reader's order; a name outside the
-- six dimensions has none.
pub lookup-defaults_of :
    (rules : List Rule) (d : String)
    → lookup (defaults_of rules) d ≡ (if contains dimensions d then first_rule d rules else none)
unfolding defaults_of
lookup-defaults_of rules d = elim (Bool-cases (contains dimensions d)) [
  | inl known ↦ rw (known, lookup-defaults_from [] rules d known, lookup-nil {V = Rule} d)
  | inr unknown ↦
      rw (unknown, lookup-defaults_from_other [] rules d unknown, lookup-nil {V = Rule} d)
]
