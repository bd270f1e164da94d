-- ===== src/Stages/Critique.antt =====
-- The critique of the candidates: genql/services/query/critique_service.py. `identifiers` is what
-- sqlglot finds in a statement: the names of its columns, sorted and each once, and the names that
-- it gives itself; `none` where the statement does not parse.
use gen_ql.Base.{
  ℕ, suc, ℤ, pos, eqb_ℤ, String, not, ◌&&◌, Option, none, some, List, [], ◌∷◌, ◌++◌, map, keep,
  is_nonempty, contains, concat, get_elem?, if◌then◌else◌, FloatOps, python_error, Result, ok, err,
  ◌>>=◌,
}
use gen_ql.Entities.{SchemaLink, QueryPlan, SqlCandidate, Defect, repairable, CritiqueReport}

-- The model's judgement of one candidate.
pub record CandidateCritique (F : Type 0) : Type 0 where
  pub candidate_index : ℤ
  pub defects : List Defect
  pub score : F

pub record Critic (F : Type 0) : Type 0 where
  pub identifiers : String → Option (List String × List String)
  pub repr : String → String
  pub complete :
      QueryPlan
      → List SqlCandidate
      → List String
      → List (List Defect)
      → Result (List (CandidateCritique F))

abbrev pub known_columns : List SchemaLink → List String
known_columns [] = []
known_columns (l ∷ ls) = l.column_names ++ known_columns ls

abbrev pub unknown_column : (String → String) → String → Defect
unknown_column repr column = record {
  dimension = none;
  severity = repairable;
  message = concat "references unknown column " (repr column);
}

-- `referenced - known_columns - aliases`
abbrev pub unknown_in : List String → List String × List String → List String
unknown_in known (referenced, aliases) =
    keep (λ column. not (contains known column) && not (contains aliases column)) referenced

module _ {F : Type 0} (k : Critic F) where
  -- `_deterministic_defects`
  unfoldable pub deterministic_defects : List SchemaLink → String → List Defect
  deterministic_defects links sql =
      if is_nonempty (known_columns links)
      then elim (k.identifiers sql) [
        | none ↦ []
        | some found ↦ map (unknown_column k.repr) (unknown_in (known_columns links) found)
      ]
      else []

-- `by_index.get(i)`: a later report of the same index takes the place of an earlier one.
abbrev pub report_at : {F : Type 0} → ℕ → List (CandidateCritique F) → Option (CandidateCritique F)
report_at i [] = none
report_at i (r ∷ rs) = elim (report_at i rs) [
  | some later ↦ some later
  | none ↦ if eqb_ℤ r.candidate_index (pos i) then some r else none
]

abbrev pub or_missing : Option (List Defect) → Result (List Defect)
or_missing none = err (python_error "IndexError")
or_missing (some defects) = ok defects

-- `deterministic[i]`
abbrev pub defects_at : List (List Defect) → ℕ → Result (List Defect)
defects_at deterministic i = or_missing (get_elem? deterministic i)

module _ {F : Type 0} ⦃ops : FloatOps F⦄ where
  abbrev pub report_of : ℕ → List Defect → Option (CandidateCritique F) → CritiqueReport F
  report_of i found none = record {
    candidate_index = i;
    defects = found ++ [];
    score = ops.zero_float;
  }
  report_of i found (some r) = record {
    candidate_index = i;
    defects = found ++ r.defects;
    score = r.score;
  }

  -- The loop over `range(len(candidates))`, from `i` on.
  abbrev pub reports_from :
      ℕ
      → List SqlCandidate
      → List (List Defect)
      → List (CandidateCritique F)
      → Result (List (CritiqueReport F))
  reports_from i [] deterministic judged = ok []
  reports_from i (c ∷ cs) deterministic judged = do
    found ← defects_at deterministic i
    rest ← reports_from (suc i) cs deterministic judged
    ok (report_of i found (report_at i judged) ∷ rest)

  unfoldable pub critique :
      Critic F
      → QueryPlan
      → List SqlCandidate
      → List String
      → List SchemaLink
      → Result (List (CritiqueReport F))
  unfolding deterministic_defects
  critique k plan candidates validated_sqls links = do
    let deterministic = map (deterministic_defects k links) validated_sqls
    judged ← k.complete plan candidates validated_sqls deterministic
    reports_from 0 candidates deterministic judged
