-- ===== src/Gate.antt =====
-- The ambiguity gate: genql/services/query/ambiguity_gate_service.py, with the response schema of
-- ambiguity_gate_prompt.py and the schema test of schema_time_dimension.py. The model provider and
-- the rule reader are fields of `GateService`.
pub mod Rules
pub mod Open
pub mod Rounds
pub mod Outcome
pub mod Asks
mod Tests
use gen_ql.Base.{
  ℕ, zero, suc, String, Bool, true, false, not, ◌&&◌, ◌||◌, Option, none, some, List, [], ◌∷◌, ◌++◌,
  map, length, keep, any, is_nonempty, ltb, leb, if◌then◌else◌, ◌==◌, contains, is_empty, strip,
  lower, has_substring, Dict, lookup, has_key, insert, set_default, Error, Result, ok, err, ◌>>=◌,
  ambiguity_gate_error, chat_provider_error, validation_error, python_error, FloatOps, lt_float,
}
use gen_ql.Entities.{SchemaLink, Rule, AmbiguityAssessment}

-- AMBIGUITY_DIMENSIONS, in the order of priority.
unfoldable pub dimensions : List String
dimensions = "entity" ∷ "metric" ∷ "time_range" ∷ "grain" ∷ "filter" ∷ "comparison_baseline" ∷ []

pub record DimensionScore (F : Type 0) : Type 0 where
  pub dimension : String
  pub confidence : F
  pub assumption : String

pub record GateResponse (F : Type 0) : Type 0 where
  pub scores : List (DimensionScore F)
  pub clarifying_dimension : String
  pub clarifying_question : String
  pub suggested_answer : String
  pub options : List String

-- `complete` is the provider at the prompt of a question, the dimensions to score and the answers.
pub record GateService (F : Type 0) : Type 0 where
  pub complete : String → List String → List (String × String) → Result (GateResponse F)
  pub read_rules : String → Result (List Rule)
  pub threshold : F
  pub max_questions : Option ℕ

abbrev date_column_markers : List String
date_column_markers = "date" ∷ "_dt" ∷ "_yr" ∷ "year" ∷ "month" ∷ "quarter" ∷ "_dow" ∷ []

abbrev scd_bookkeeping_markers : List String
scd_bookkeeping_markers = "rec_start" ∷ "rec_end" ∷ "closed_date" ∷ []

names_a_date : String → Bool
unfolding lower has_substring
names_a_date name =
    not (any (λ scd. has_substring (lower scd) (lower name)) scd_bookkeeping_markers)
    && any (λ marker. has_substring (lower marker) (lower name)) date_column_markers

pub has_time_dimension : List SchemaLink → Bool
unfolding names_a_date
has_time_dimension links = any (λ (link : SchemaLink). any names_a_date link.column_names) links

-- One round of the loop of `_defaults`.
add_default : Dict Rule → Rule → Dict Rule
add_default d rule =
    if contains dimensions rule.dimension && not (has_key d rule.dimension)
    then insert rule.dimension rule d
    else d

defaults_from : Dict Rule → List Rule → Dict Rule
unfolding add_default
defaults_from d [] = d
defaults_from d (rule ∷ rules) = defaults_from (add_default d rule) rules

-- The first rule of a known dimension wins.
unfoldable pub defaults_of : List Rule → Dict Rule
unfolding defaults_from
defaults_of = defaults_from []

-- `(dimension, f(defaults[dimension]))` for the dimensions that have a default.
pub default_pairs : (Rule → String) → Dict Rule → List String → List (String × String)
default_pairs f d [] = []
default_pairs f d (k ∷ ks) =
    let rest = default_pairs f d ks in
    elim (lookup d k) [ none ↦ rest | some rule ↦ (k, f rule) ∷ rest ]

pub schema_excludes : List SchemaLink → String → Bool
unfolding has_time_dimension
schema_excludes links d = d == "time_range" && (is_nonempty links && not (has_time_dimension links))

-- A dimension is open when no rule, no answer and no missing date column closes it.
pub is_open : Dict Rule → List (String × String) → List SchemaLink → String → Bool
unfolding schema_excludes
is_open defaults answers links d =
    not (has_key defaults d)
    && (not (contains (map (λ (a : String × String). a.0) answers) d)
        && not (schema_excludes links d))

pub open_dimensions : Dict Rule → List (String × String) → List SchemaLink → List String
unfolding is_open
open_dimensions defaults answers links = keep (is_open defaults answers links) dimensions

-- The `except` clause of `_score`.
abbrev pub as_gate_error : Error → Error
as_gate_error chat_provider_error = ambiguity_gate_error
as_gate_error validation_error = ambiguity_gate_error
as_gate_error e = e

module _ {F : Type 0} where
  -- `dict(known_scores)`
  pub dict_of : Dict F → List (String × F) → Dict F
  dict_of d [] = d
  dict_of d ((k, v) ∷ rest) = dict_of (insert k v d) rest

  pub absorb_scores : Dict F → List (DimensionScore F) → Dict F
  absorb_scores d [] = d
  absorb_scores d (s ∷ rest) = absorb_scores (insert s.dimension s.confidence d) rest

  pub default_scores : F → Dict F → List String → Dict F
  default_scores v d [] = d
  default_scores v d (k ∷ ks) = default_scores v (set_default k v d) ks

  pub known_pairs : Dict F → List String → List (String × F)
  known_pairs known [] = []
  known_pairs known (d ∷ ds) =
      let rest = known_pairs known ds in
      elim (lookup known d) [ none ↦ rest | some c ↦ (d, c) ∷ rest ]

  -- The stripped assumptions that are not blank.
  pub assumptions_of : Dict String → List (DimensionScore F) → Dict String
  assumptions_of d [] = d
  assumptions_of d (s ∷ rest) =
      assumptions_of
        (if is_empty (strip s.assumption) then d else insert s.dimension (strip s.assumption) d)
        rest

  pub catch_provider : Result (GateResponse F) → Result (GateResponse F)
  catch_provider (ok r) = ok r
  catch_provider (err e) = err (as_gate_error e)

  -- An assessment that clears the question.
  abbrev pub cleared :
      List (String × String) → List (String × String) → List (String × F) → AmbiguityAssessment F
  cleared applied assumed scores = record {
    is_ambiguous = false;
    missing_dimension = none;
    clarifying_question = none;
    suggested_answer = none;
    options = [];
    applied_defaults = applied;
    assumed = assumed;
    dimension_scores = scores;
  }

-- `(dimension, assumptions[dimension])` for the dimensions that have an assumption.
pub guesses_of : Dict String → List String → List (String × String)
guesses_of assumptions [] = []
guesses_of assumptions (d ∷ ds) =
    let rest = guesses_of assumptions ds in
    elim (lookup assumptions d) [ none ↦ rest | some a ↦ (d, a) ∷ rest ]

abbrev stripped_options : List String → List String
stripped_options os = map strip (keep (λ o. not (is_empty (strip o))) os)

abbrev pub spent : Option ℕ → List (String × String) → Bool
spent none answers = false
spent (some n) answers = leb n (length answers)

module _ {F : Type 0} ⦃ops : FloatOps F⦄ where
  -- A dimension that was never judged, or judged under the threshold.
  abbrev pub needs_score : F → Dict F → String → Bool
  needs_score threshold known d = elim (lookup known d) [
    | none ↦ true
    | some c ↦ lt_float c threshold
  ]

  -- `known.get(dimension, 0.0) < threshold`
  abbrev pub is_under : F → Dict F → String → Bool
  is_under threshold known d = elim (lookup known d) [
    | none ↦ lt_float ops.zero_float threshold
    | some c ↦ lt_float c threshold
  ]

  pub score_round :
      GateService F
      → String
      → List (String × String)
      → List String
      → Dict F
      → Result (Option (GateResponse F) × Dict F)
  unfolding catch_provider absorb_scores default_scores
  score_round s question answers to_score known =
      if is_nonempty to_score
      then (do
        response ← catch_provider (s.complete question to_score answers)
        ok (
          some response,
          default_scores ops.zero_float (absorb_scores known response.scores) to_score,
        ))
      else ok (none, known)

  -- A spent budget: every dimension still under the threshold is assumed.
  pub assume :
      Option (GateResponse F)
      → List String
      → List (String × String)
      → List (String × String)
      → List (String × F)
      → Result (AmbiguityAssessment F)
  unfolding assumptions_of guesses_of
  assume none under applied assumed scores = err (python_error "AssertionError")
  assume (some r) under applied assumed scores =
      ok (cleared applied (assumed ++ guesses_of (assumptions_of [] r.scores) under) scores)

  -- The question about one dimension; `first` is `under[0]`.
  pub ask :
      Option (GateResponse F)
      → String
      → List String
      → List (String × String)
      → List (String × String)
      → List (String × F)
      → Result (AmbiguityAssessment F)
  ask none first under applied assumed scores = err (python_error "AssertionError")
  ask (some r) first under applied assumed scores =
      if is_empty (strip r.clarifying_question)
      then err ambiguity_gate_error
      else ok (record {
        is_ambiguous = true;
        missing_dimension =
            some (if contains under r.clarifying_dimension then r.clarifying_dimension else first);
        clarifying_question = some (strip r.clarifying_question);
        suggested_answer =
            if is_empty (strip r.suggested_answer) then none else some (strip r.suggested_answer);
        options = stripped_options r.options;
        applied_defaults = applied;
        assumed = assumed;
        dimension_scores = scores;
      })

  -- From `under` on.
  pub decide :
      GateService F
      → List (String × String)
      → Option (GateResponse F)
      → List String
      → List (String × String)
      → List (String × String)
      → List (String × F)
      → Result (AmbiguityAssessment F)
  unfolding assume ask
  decide s answers response [] applied assumed scores = ok (cleared applied assumed scores)
  decide s answers response (d ∷ under) applied assumed scores =
      if spent s.max_questions answers
      then assume response (d ∷ under) applied assumed scores
      else ask response d (d ∷ under) applied assumed scores

  -- `assess` once the rules are read.
  pub assess_open :
      GateService F
      → String
      → List (String × String)
      → List String
      → Dict F
      → List (String × String)
      → List (String × String)
      → Result (AmbiguityAssessment F)
  unfolding score_round decide known_pairs
  assess_open s question answers open_dims known applied assumed =
      if is_nonempty open_dims
      then (do
        (response, known') ←
            score_round s question answers (keep (needs_score s.threshold known) open_dims) known
        decide s answers response (keep (is_under s.threshold known') open_dims) applied assumed
            (known_pairs known' open_dims))
      else ok (cleared applied assumed [])

  pub assess :
      GateService F
      → String
      → String
      → List (String × String)
      → List SchemaLink
      → List (String × F)
      → Result (AmbiguityAssessment F)
  unfolding defaults_of default_pairs open_dimensions dict_of assess_open
  assess s question datasource answers links known_scores = do
    rules ← s.read_rules datasource
    let defaults = defaults_of rules
    assess_open s question answers (open_dimensions defaults answers links)
        (dict_of [] known_scores) (default_pairs (λ r. r.name) defaults dimensions)
        (default_pairs (λ r. r.value) defaults dimensions)
