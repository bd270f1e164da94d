-- ===== src/Gate/Tests.antt =====
-- Runs of the gate, and its theorems at concrete inputs.
use gen_ql.Base.{
  ℕ, String, true, false, none, some, List, [], ◌∷◌, ◌≡◌, refl, ok, strip, lookup, insert,
  set_default, milli, Elem, Elem-All,
}
use gen_ql.Entities.{Rule, AmbiguityAssessment}
use gen_ql.Gate.{
  GateService, GateResponse, DimensionScore, dimensions, assess, open_dimensions, defaults_of,
  needs_score, dict_of,
}
use gen_ql.Gate.Asks.{AsksOne, assess_asks}

abbrev fiscal_year : Rule
fiscal_year = record {
  name = "fiscal_year";
  dimension = "time_range";
  value = "last fiscal year";
  description = "";
}

abbrev score : String → ℕ → DimensionScore ℕ
score d c = record { dimension = d; confidence = c; assumption = " the default " }

abbrev response : GateResponse ℕ
response = record {
  scores =
      score "entity" 950
      ∷ score "metric" 900
      ∷ score "grain" 400
      ∷ score "filter" 300
      ∷ score "comparison_baseline" 800
      ∷ [];
  clarifying_dimension = "filter";
  clarifying_question = "  Which stores?  ";
  suggested_answer = " ";
  options = "all" ∷ "  " ∷ "open " ∷ [];
}

abbrev gate : GateService ℕ
gate = record {
  complete = λ question to_score answers. ok response;
  read_rules = λ datasource. ok (fiscal_year ∷ []);
  threshold = 700;
  max_questions = some 2;
}

abbrev assessed : AmbiguityAssessment ℕ
assessed = record {
  is_ambiguous = true;
  missing_dimension = some "filter";
  clarifying_question = some "Which stores?";
  suggested_answer = none;
  options = "all" ∷ "open" ∷ [];
  applied_defaults = ("time_range", "fiscal_year") ∷ [];
  assumed = ("time_range", "last fiscal year") ∷ [];
  dimension_scores =
      ("entity", 950)
      ∷ ("metric", 900)
      ∷ ("grain", 400)
      ∷ ("filter", 300)
      ∷ ("comparison_baseline", 800)
      ∷ [];
}

assess_run : assess gate "total sales" "local" [] [] [] ≡ ok assessed
unfolding assess dimensions lookup insert set_default strip
assess_run = refl

-- The provider is asked again only for what it scored low: a round with everything scored clears.
abbrev confident_scores : List (String × ℕ)
confident_scores =
    ("entity", 950) ∷ ("metric", 900) ∷ ("filter", 700) ∷ ("comparison_baseline", 800) ∷ []

abbrev grain_answer : List (String × String)
grain_answer = ("grain", "monthly") ∷ []

confident :
    (d : String)
    → Elem d (open_dimensions (defaults_of (fiscal_year ∷ [])) grain_answer [])
    → needs_score 700 (dict_of [] confident_scores) d ≡ false
unfolding open_dimensions defaults_of dimensions dict_of lookup insert
confident d m =
    Elem-All (λ k. needs_score 700 (dict_of [] confident_scores) k ≡ false) d
      (open_dimensions (defaults_of (fiscal_year ∷ [])) grain_answer []) m
      (refl, (refl, (refl, (refl, tt))))

assess_asks_example : AsksOne gate "local" [] [] assessed
assess_asks_example = assess_asks gate "total sales" "local" [] [] [] assess_run refl
