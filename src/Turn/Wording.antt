-- ===== src/Turn/Wording.antt =====
-- The texts that the readings of genql/api/sse/stage_summaries.py are put together from. The texts of
-- a float, of a rationale and of a suggestion are parameters.
use gen_ql.Base.{
  ℕ, ◌+◌, suc, ℤ, pos, negsuc, String, Bool, true, false, Option, none, some, List, [], ◌∷◌, map,
  join, str, GuardrailViolation,
}
use gen_ql.Entities.{
  Severity, fatal, repairable, advisory, SelectionMethod, single_survivor, probe_resolved,
  critique_ranked, Rationale,
}

pub record Texts (F : Type 0) : Type 0 where
  pub float_text : F → String
  pub fixed : ℕ → F → String
  pub rationale_text : Rationale → String
  pub suggestion_text : F × F → String

-- `delta.get(key)`
abbrev pub get_key : {A : Type 0} → Option (Option A) → Option A
get_key none = none
get_key (some value) = value

-- An f-string, as its pieces.
abbrev pub text_of : List String → String
text_of pieces = join "" pieces

abbrev pub yes_no : Bool → String
yes_no true = "yes"
yes_no false = "no"

abbrev pub str_ℤ : ℤ → String
str_ℤ (pos n) = str n
str_ℤ (negsuc n) = text_of ("-" ∷ str (suc n) ∷ [])

abbrev pub none_text : Option String → String
none_text none = "None"
none_text (some text) = text

abbrev pub or_blank : Option String → String
or_blank none = ""
or_blank (some text) = text

abbrev pub severity_text : Severity → String
severity_text fatal = "fatal"
severity_text repairable = "repairable"
severity_text advisory = "advisory"

abbrev pub method_text : SelectionMethod → String
method_text single_survivor = "single_survivor"
method_text probe_resolved = "probe_resolved"
method_text critique_ranked = "critique_ranked"

abbrev pub total : {A : Type 0} → (A → ℕ) → List A → ℕ
total f [] = 0
total f (x ∷ xs) = f x + total f xs

abbrev pub last_of : {A : Type 0} → A → List A → A
last_of x [] = x
last_of x (y ∷ ys) = last_of y ys

abbrev pub rule_text : GuardrailViolation → String
rule_text v = text_of (v.rule_name ∷ ": " ∷ v.message ∷ [])

abbrev pub rules_text : List GuardrailViolation → String
rules_text vs = join " · " (map rule_text vs)
