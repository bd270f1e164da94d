-- ===== src/Validation.antt =====
-- Static validation: genql/services/query/static_validation_service.py. A guardrail is a record of
-- its two methods, which may raise; sqlglot's `qualify` is the field `qualify`.
pub mod Clean
mod Tests
use gen_ql.Base.{
  String, Bool, true, false, not, Option, none, some, List, [], ◌∷◌, keep, is_nonempty,
  if◌then◌else◌, GuardrailViolation, Error, static_validation_error, Result, ok, err, ◌>>=◌,
}
use gen_ql.Entities.{SqlCandidate}

pub record Guardrail : Type 0 where
  pub check : String → Result (List GuardrailViolation)
  pub repair : String → GuardrailViolation → Result String

-- `parse_and_qualify` is sqlglot's parser and `qualify`, with `none` for its ParseError or
-- OptimizeError.
pub record ValidationService : Type 0 where
  pub for_datasource : String → Result (List Guardrail)
  pub parse_and_qualify : String → Option String

abbrev pub unrepairable : List GuardrailViolation → List GuardrailViolation
unrepairable = keep (λ v. not v.repairable)

-- `for violation in violations: sql = rule.repair(sql, violation)`
pub repair_all : Guardrail → String → List GuardrailViolation → Result String
repair_all rule sql [] = ok sql
repair_all rule sql (v ∷ vs) = rule.repair sql v >>= λ sql'. repair_all rule sql' vs

-- The re-check of a repaired statement.
pub recheck : Guardrail → String → Result String
recheck rule sql = do
  remaining ← rule.check sql
  if is_nonempty remaining then err (static_validation_error remaining) else ok sql

-- `_apply` once the rule has found `violations`.
pub enforce : Guardrail → String → List GuardrailViolation → Result String
unfolding repair_all recheck
enforce rule sql violations =
    if is_nonempty violations
    then if is_nonempty (unrepairable violations)
      then err (static_validation_error (unrepairable violations))
      else (repair_all rule sql violations >>= recheck rule)
    else ok sql

-- `_apply`
pub apply_rule : Guardrail → String → Result String
unfolding enforce
apply_rule rule sql = rule.check sql >>= enforce rule sql

pub apply_rules : List Guardrail → String → Result String
apply_rules [] sql = ok sql
apply_rules (rule ∷ rules) sql = apply_rule rule sql >>= apply_rules rules

abbrev qualify_violation : GuardrailViolation
qualify_violation = record {
  rule_name = "qualify";
  message = "the statement could not be parsed or qualified";
  repairable = false;
}

-- `_qualify`
pub qualify : ValidationService → String → Result String
qualify s sql = elim (s.parse_and_qualify sql) [
  | none ↦ err (static_validation_error (qualify_violation ∷ []))
  | some qualified ↦ ok qualified
]

pub validate : ValidationService → SqlCandidate → String → Result String
unfolding apply_rules qualify
validate s candidate datasource = do
  rules ← s.for_datasource datasource
  sql ← apply_rules rules candidate.sql
  qualify s sql
