-- ===== src/Stages/Tests.antt =====
-- Two questions, a critique that leaves a candidate out, and a probe, with the theorems on them.
use gen_ql.Base.{
  query_error, ◌==◌, if◌then◌else◌, ℕ, pos, String, false, none, some, [], ◌∷◌, ◌≡◌, refl, arith,
  ok, err, List, milli, Result, ◌>>=◌, lower, strip, has_substring, intent_classification_error,
}
use gen_ql.Entities.{
  SchemaLink, QueryPlan, SqlCandidate, CandidateSelection, AmbiguityProbe, ProbeResult,
  ExecutionResult, number,
}
use gen_ql.Selection.{select, uniquely_predicted_by}
use gen_ql.Stages.Intent.{classify, classify_deterministically, padded, words_of}
use gen_ql.Stages.Labels.{Labelled, classify-Labelled}
use gen_ql.Stages.Critique.{CandidateCritique, Critic, critique}
use gen_ql.Stages.Coverage.{critiqued_selection_total}
use gen_ql.Stages.Probing.{Prober}

abbrev chatty : String → Result String
chatty question = ok "chitchat"

settled_example : classify_deterministically "Total sales per store?" ≡ some "analytical_sql"
unfolding classify_deterministically padded words_of lower strip has_substring
settled_example = refl

greeting_example : classify chatty "hello" ≡ err intent_classification_error
unfolding classify classify_deterministically padded words_of lower strip has_substring
greeting_example = refl

classify-Labelled_example : Labelled (chatty "hello") (classify chatty "hello")
classify-Labelled_example = classify-Labelled chatty "hello"

abbrev plan : QueryPlan
plan = record { question = "q"; plan_text = "p"; referenced_objects = [] }

abbrev candidates : List SqlCandidate
candidates = record { sql = "a"; plan = plan } ∷ record { sql = "b"; plan = plan } ∷ []

abbrev links : List SchemaLink
links =
    record {
      object_qualified_name = "sales.store";
      column_names = "id" ∷ [];
      join_paths = [];
      metric_names = [];
      domain_id = none;
    }
    ∷ []

-- The model judges only the second candidate.
abbrev judged : List (CandidateCritique ℕ)
judged = record { candidate_index = pos 1; defects = []; score = 800 } ∷ []

abbrev critic : Critic ℕ
critic = record {
  identifiers = λ sql. some ("id" ∷ "nam" ∷ [], []);
  repr = λ name. name;
  complete = λ plan candidates sqls found. ok judged;
}

abbrev sqls : List String
sqls = "select a" ∷ "select b" ∷ []

critiqued_selection_total_example :
    (s : CandidateSelection) × ((critique critic plan candidates sqls links
        >>= (λ reports. select candidates sqls reports []))
      ≡ ok s)
critiqued_selection_total_example =
    critiqued_selection_total critic plan candidates sqls links judged (omega arith) refl refl

abbrev probe : AmbiguityProbe
probe = record {
  dimension = "grain";
  probe_sql = "select count(*)";
  candidate_predictions = (pos 0, "3") ∷ (pos 1, "4") ∷ [];
}

abbrev three : ExecutionResult
three = record {
  columns = "n" ∷ [];
  rows = (number "3" ∷ []) ∷ [];
  row_count = 1;
  truncated = false;
}

abbrev prober : Prober ℕ
prober = record {
  design = λ plan candidates sqls critiques. ok (probe ∷ probe ∷ []);
  validate = λ candidate datasource. ok "select count(*) limit 1";
  execute = λ sql datasource. ok three;
  rows_text = λ rows. "rows";
  max_probes = 1;
}

abbrev probed : ProbeResult
probed = record {
  probe = probe;
  actual_result = "3";
  resolved_candidate_index = uniquely_predicted_by probe "3";
}

-- A warehouse that answers only the validated form.
abbrev strict : String → String → Result ExecutionResult
strict sql datasource = if sql == "select count(*) limit 1" then ok three else err query_error
