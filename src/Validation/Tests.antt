-- ===== src/Validation/Tests.antt =====
-- A datasource with two guardrails, and the theorems on it.
use gen_ql.Base.{
  String, Bool, true, false, some, [], ◌∷◌, ◌≡◌, refl, ok, err, ◌==◌, eq_iff, if◌then◌else◌, arith,
  GuardrailViolation, static_validation_error, inl, inr, ap, Bool-cases, All,
}
use gen_ql.Entities.{SqlCandidate, QueryPlan}
use gen_ql.Validation.{Guardrail, ValidationService, validate, apply_rule, apply_rules}
use gen_ql.Validation.Clean.{IsClean, Survives, validate-IsClean}

abbrev violation : Bool → GuardrailViolation
violation repairable = record { rule_name = "rule"; message = ""; repairable = repairable }

-- Only a SELECT passes.
abbrev statement_kind : Guardrail
statement_kind = record {
  check = λ sql. ok (if sql == "delete" then violation false ∷ [] else []);
  repair = λ sql v. err (static_validation_error (v ∷ []));
}

-- A missing limit is injected.
abbrev limit_injection : Guardrail
limit_injection = record {
  check = λ sql. ok (if sql == "select" then violation true ∷ [] else []);
  repair = λ sql v. ok "select limit";
}

abbrev service : ValidationService
service = record {
  for_datasource = λ datasource. ok (statement_kind ∷ limit_injection ∷ []);
  parse_and_qualify = λ sql. some sql;
}

abbrev plan : QueryPlan
plan = record { question = "q"; plan_text = "p"; referenced_objects = [] }

abbrev candidate : String → SqlCandidate
candidate sql = record { sql = sql; plan = plan }

validate_repairs : validate service (candidate "select") "local" ≡ ok "select limit"
unfolding validate apply_rule
validate_repairs = refl

limit_bare : apply_rule limit_injection "select" ≡ ok "select limit"
unfolding apply_rule
limit_bare = refl

limit_other : (sql : String) → (sql == "select") ≡ false → apply_rule limit_injection sql ≡ ok sql
unfolding apply_rule
limit_other sql h = ground arith

limit-Survives : Survives limit_injection statement_kind
limit-Survives sql out clean e = elim (Bool-cases (sql == "select")) [
  | inl bare ↦
      let same : ok out ≡ ok "select limit" =
        cc (e, limit_bare, ap (apply_rule limit_injection) ((eq_iff sql "select").0 bare)) in
      let injected : out ≡ "select limit" = cc in rw injected
  | inr limited ↦
      let same : ok out ≡ ok sql = cc (e, limit_other sql limited) in
      let kept : out ≡ sql = cc in rw kept clean
]

validate-IsClean_example :
    (sql : String) × All
      (λ (rule : Guardrail). IsClean rule sql)
      (statement_kind ∷ limit_injection ∷ [])
    × (apply_rules (statement_kind ∷ limit_injection ∷ []) sql ≡ ok sql)
    × (service.parse_and_qualify sql ≡ some "select limit")
validate-IsClean_example =
    validate-IsClean service (candidate "select") "local" refl ((limit-Survives, tt), (tt, tt))
      validate_repairs
