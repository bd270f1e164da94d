-- ===== src/Validation/Clean.antt =====
-- What an accepted statement has passed, and what a rejected one is told.
use gen_ql.Base.{
  String, true, false, some, List, [], ◌∷◌, ◌≡◌, refl, is_nonempty, GuardrailViolation,
  static_validation_error, ok, err, >>=-eq-ok, arith, not, inl, inr, Elem, Bool-cases, All,
  nonempty-keep,
}
use gen_ql.Entities.{SqlCandidate}
use gen_ql.Validation.{
  Guardrail, ValidationService, unrepairable, repair_all, recheck, enforce, apply_rule, apply_rules,
  qualify, validate,
}

-- The statements that a rule lets pass with no violation.
abbrev pub IsClean : Guardrail → String → Type 0
IsClean rule sql = rule.check sql ≡ ok []

recheck-IsClean :
    (rule : Guardrail) (sql : String) {out : String} → recheck rule sql ≡ ok out → IsClean rule out
unfolding recheck
recheck-IsClean rule sql e =
    let (remaining, found, rest) = >>=-eq-ok (rule.check sql) _ e in ground arith

enforce-IsClean :
    (rule : Guardrail) (sql : String) (violations : List GuardrailViolation) {out : String}
    → rule.check sql ≡ ok violations
    → enforce rule sql violations ≡ ok out
    → IsClean rule out
unfolding enforce
enforce-IsClean rule sql [] found e = ground arith
enforce-IsClean rule sql (v ∷ vs) found e =
    elim (Bool-cases (is_nonempty (unrepairable (v ∷ vs)))) [
      | inl bad ↦ absurd (cc (rw bad at e))
      | inr fixable ↦
          let (repaired, _, checked) =
            >>=-eq-ok (repair_all rule sql (v ∷ vs)) _ (rw fixable at e) in
          recheck-IsClean rule repaired checked
    ]

-- A rule that lets a statement through, repaired or as it was, finds nothing in it any more.
pub apply_rule-IsClean :
    (rule : Guardrail) (sql : String) {out : String}
    → apply_rule rule sql ≡ ok out
    → IsClean rule out
unfolding apply_rule
apply_rule-IsClean rule sql e =
    let (violations, found, enforced) = >>=-eq-ok (rule.check sql) _ e in
    enforce-IsClean rule sql violations found enforced

apply_rule_clean :
    (rule : Guardrail) (sql : String) → IsClean rule sql → apply_rule rule sql ≡ ok sql
unfolding apply_rule enforce
apply_rule_clean rule sql h = rw h

-- A rule that a repair by `later` does not break.
abbrev pub Survives : Guardrail → Guardrail → Type 0
Survives later rule =
    (sql out : String) → IsClean rule sql → apply_rule later sql ≡ ok out → IsClean rule out

-- Every later rule's repair leaves the earlier rules' work alone.
abbrev pub IsStable : List Guardrail → Type 0
IsStable [] = Unit
IsStable (rule ∷ rules) = All (λ later. Survives later rule) rules × IsStable rules

apply_rules_survive :
    (rule : Guardrail) (rules : List Guardrail) (sql : String) {out : String}
    → All (λ later. Survives later rule) rules
    → IsClean rule sql
    → apply_rules rules sql ≡ ok out
    → IsClean rule out
unfolding apply_rules
apply_rules_survive rule [] sql stable clean e = ground arith
apply_rules_survive rule (later ∷ rules) sql stable clean e =
    let (sql', applied, rest) = >>=-eq-ok (apply_rule later sql) _ e in
    apply_rules_survive rule rules sql' stable.1 (stable.0 sql sql' clean applied) rest

pub apply_rules-IsClean :
    (rules : List Guardrail) (sql : String) {out : String}
    → IsStable rules
    → apply_rules rules sql ≡ ok out
    → All (λ rule. IsClean rule out) rules
unfolding apply_rules
apply_rules-IsClean [] sql stable e = tt
apply_rules-IsClean (rule ∷ rules) sql stable e =
    let (sql', applied, rest) = >>=-eq-ok (apply_rule rule sql) _ e in
    (
      apply_rules_survive rule rules sql' stable.0 (apply_rule-IsClean rule sql applied) rest,
      apply_rules-IsClean rules sql' stable.1 rest,
    )

pub apply_rules_clean :
    (rules : List Guardrail) (sql : String)
    → All (λ rule. IsClean rule sql) rules
    → apply_rules rules sql ≡ ok sql
unfolding apply_rules
apply_rules_clean [] sql h = refl
apply_rules_clean (rule ∷ rules) sql h =
    rw (apply_rule_clean rule sql h.0) (apply_rules_clean rules sql h.1)

-- A validated statement is the qualified form of one that every rule of the datasource passes with
-- no violation, and that the rules would leave alone, given that no later rule's repair breaks an
-- earlier rule.
pub validate-IsClean :
    (s : ValidationService) (candidate : SqlCandidate) (datasource : String) {out : String}
    {rules : List Guardrail}
    → s.for_datasource datasource ≡ ok rules
    → IsStable rules
    → validate s candidate datasource ≡ ok out
    → (sql : String) × All (λ rule. IsClean rule sql) rules
      × (apply_rules rules sql ≡ ok sql)
      × (s.parse_and_qualify sql ≡ some out)
unfolding validate qualify
validate-IsClean s candidate datasource {out} {rules} listed stable e =
    let (sql, applied, qualified) =
      >>=-eq-ok (apply_rules rules candidate.sql) _ (rw listed at e) in
    let clean = apply_rules-IsClean rules candidate.sql stable applied in
    (sql, clean, apply_rules_clean rules sql clean, ground arith)

-- A statement that every rule passes is qualified as it stands: no repair is tried.
pub validate_untouched :
    (s : ValidationService) (candidate : SqlCandidate) (datasource : String)
    {rules : List Guardrail}
    → s.for_datasource datasource ≡ ok rules
    → All (λ rule. IsClean rule candidate.sql) rules
    → validate s candidate datasource ≡ qualify s candidate.sql
unfolding validate
validate_untouched s candidate datasource {rules} listed clean =
    rw (listed, apply_rules_clean rules candidate.sql clean)

-- A violation that cannot be repaired rejects the statement with no repair tried, and the error
-- lists the violations of that rule which cannot be repaired, all of them and no other.
pub apply_rule-unrepairable :
    (rule : Guardrail) (sql : String) (violations : List GuardrailViolation)
    (v : GuardrailViolation)
    → rule.check sql ≡ ok violations
    → Elem v violations
    → v.repairable ≡ false
    → apply_rule rule sql ≡ err (static_validation_error (unrepairable violations))
unfolding apply_rule enforce
apply_rule-unrepairable rule sql (w ∷ ws) v found m bad =
    let nonempty : is_nonempty (unrepairable (w ∷ ws)) ≡ true =
      nonempty-keep (λ x. not x.repairable) v (w ∷ ws) m (ground arith) in
    rw (found, nonempty)
apply_rule-unrepairable rule sql [] v found m bad = absurd m
