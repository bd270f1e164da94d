-- ===== src/Turn/Summaries.antt =====
-- One reading for each node, of what it returned: genql/api/sse/stage_summaries.py.
use gen_ql.Base.{
  String, Bool, true, false, Option, none, some, List, [], ◌∷◌, ◌++◌, map, length, keep,
  is_nonempty, is_empty, if◌then◌else◌, join, str,
}
use gen_ql.Entities.{SchemaLink, AmbiguityAssessment, Defect, CritiqueReport, is_fatal, ProbeResult}
use gen_ql.Pipeline.Nodes.{or_empty, some_repairable}
use gen_ql.Pipeline.Graph.{
  Node, intent_classification, domain_scoping, schema_linking, ambiguity_gate, ambiguity_interrupt,
  planning, candidate_generation, static_validation, critique, ambiguity_probing,
  candidate_selection, rewrite_and_cost_gate, guarded_execution,
}
use gen_ql.Turn.Summary.{StageSummary, reported, skipped, joined}
use gen_ql.Turn.Wording.{
  Texts, get_key, text_of, yes_no, str_ℤ, none_text, or_blank, severity_text, method_text, total,
  last_of, rules_text,
}
use gen_ql.Pipeline.Delta.{Delta}

module _ {F : Type 0} (w : Texts F) where
  unfoldable pub intent_summary : Delta F → StageSummary
  intent_summary d = elim (get_key d.intent) [
    | none ↦ skipped "the classifier named no intent for this question"
    | some intent ↦
        if is_empty intent
        then skipped "the classifier named no intent for this question"
        else reported (text_of ("read as " ∷ intent ∷ [])) (("intent", intent) ∷ [])
  ]

  unfoldable pub domain_scoping_summary : Delta F → StageSummary
  domain_scoping_summary d = elim d.domain_id [
    | none ↦ skipped "a domain was supplied with the question"
    | some found ↦ elim found [
      | none ↦ skipped "no business domain matched — the whole catalogue stays in scope"
      | some domain_id ↦
          reported (text_of ("scoped to domain " ∷ str domain_id ∷ []))
            (("domain_id", str domain_id) ∷ [])
    ]
  ]

  unfoldable pub schema_linking_summary : Delta F → StageSummary
  schema_linking_summary d =
      let links = or_empty (get_key d.links) in
      reported (text_of (str (length links) ∷ " objects linked" ∷ [])) (
        ("objects", str (length links))
        ∷ ("columns", str (total (λ (l : SchemaLink). length l.column_names) links))
        ∷ ("join paths", str (total (λ (l : SchemaLink). length l.join_paths) links))
        ∷ ("metrics", str (total (λ (l : SchemaLink). length l.metric_names) links))
        ∷ ("linked", join ", " (map (λ (l : SchemaLink). l.object_qualified_name) links))
        ∷ [])

  abbrev scores_text : List (String × F) → String
  scores_text scores = joined (map (λ (s : String × F). (s.0, w.float_text s.1)) scores)

  abbrev assumed_text : List (String × String) → String
  assumed_text pairs =
      join " · " (map (λ (p : String × String). text_of (p.0 ∷ "=" ∷ p.1 ∷ [])) pairs)

  abbrev defaults_text : List (String × String) → String
  defaults_text pairs =
      join " · " (map (λ (p : String × String). text_of (p.0 ∷ " via " ∷ p.1 ∷ [])) pairs)

  unfoldable pub assessment_summary : AmbiguityAssessment F → Option Bool → StageSummary
  assessment_summary a contested =
      if a.is_ambiguous
      then reported (text_of ("asking about " ∷ none_text a.missing_dimension ∷ [])) (
          ("asking about", or_blank a.missing_dimension)
          ∷ ("confidence", scores_text a.dimension_scores)
          ∷ ("assumed", assumed_text a.assumed)
          ∷ ("rule defaults", defaults_text a.applied_defaults)
          ∷ [])
      else reported
          (text_of (str (length a.assumed) ∷ " dimensions assumed, none left to ask" ∷ []))
          (("confidence", scores_text a.dimension_scores)
            ∷ ("assumed", assumed_text a.assumed)
            ∷ ("rule defaults", defaults_text a.applied_defaults)
            ∷ ("contested", yes_no (elim contested [ none ↦ false | some b ↦ b ]))
            ∷ [])

  unfoldable pub ambiguity_gate_summary : Delta F → StageSummary
  ambiguity_gate_summary d = elim (get_key d.ambiguity) [
    | none ↦ skipped "the gate produced no assessment"
    | some a ↦ assessment_summary a d.contested
  ]

  unfoldable pub answer_summary : List (String × String) → StageSummary
  answer_summary [] = skipped "the gate had nothing left to ask"
  answer_summary (first ∷ rest) =
      let (dimension, answer) = last_of first rest in
      reported (text_of ("you answered " ∷ dimension ∷ [])) (
        ("dimension", dimension)
        ∷ ("your answer", answer)
        ∷ ("rounds", str (length (first ∷ rest)))
        ∷ [])

  unfoldable pub planning_summary : Delta F → StageSummary
  planning_summary d = elim (get_key d.plan) [
    | none ↦ skipped "no plan was produced"
    | some plan ↦
        reported plan.plan_text
          (("plan", plan.plan_text) ∷ ("grounded in", join ", " plan.referenced_objects) ∷ [])
  ]

  unfoldable pub candidates_summary : Delta F → StageSummary
  candidates_summary d =
      let candidates = or_empty d.candidates in
      reported (text_of (str (length candidates) ∷ " candidates generated" ∷ [])) (
        ("candidates", str (length candidates))
        ∷ ("regenerations", str (elim d.retry_count [ none ↦ 0 | some n ↦ n ]))
        ∷ [])

  unfoldable pub static_validation_summary : Delta F → StageSummary
  static_validation_summary d =
      let cleared = or_empty d.validated_sqls in
      let violations = or_empty d.violations in
      if is_nonempty cleared
      then reported (text_of (str (length cleared) ∷ " candidates cleared validation" ∷ []))
          (("cleared", str (length cleared)) ∷ ("guardrails fired", rules_text violations) ∷ [])
      else reported "no candidate cleared — regenerating with the violations as feedback" (
          ("cleared", "0")
          ∷ ("guardrails fired", rules_text violations)
          ∷ ("repairable", yes_no (some_repairable violations))
          ∷ ("escalated", elim d.escalated [ none ↦ "" | some b ↦ if b then "yes" else "" ])
          ∷ [])

  abbrev score_pair : CritiqueReport F → String × String
  score_pair r = (text_of ("#" ∷ str r.candidate_index ∷ []), w.fixed 2 r.score)

  abbrev defect_texts : List (CritiqueReport F) → List String
  defect_texts [] = []
  defect_texts (r ∷ rs) =
      map
        (λ (d : Defect).
          text_of
            ("#" ∷ str r.candidate_index ∷ " " ∷ severity_text d.severity ∷ ": " ∷ d.message ∷ []))
        r.defects
      ++ defect_texts rs

  unfoldable pub critique_summary : Delta F → StageSummary
  critique_summary d =
      let reports = or_empty d.critique_reports in
      if is_nonempty reports
      then reported (text_of (str (length reports) ∷ " candidates scored" ∷ [])) (
          ("scores", joined (map score_pair reports))
          ∷ ("defects", join " · " (defect_texts reports))
          ∷ ("fatal", str (length (keep is_fatal reports)))
          ∷ [])
      else skipped "not contested, or only one candidate survived validation"

  abbrev resolved_texts : List ProbeResult → List String
  resolved_texts [] = []
  resolved_texts (r ∷ rs) = elim r.resolved_candidate_index [
    | none ↦ resolved_texts rs
    | some i ↦ text_of ("#" ∷ str_ℤ i ∷ []) ∷ resolved_texts rs
  ]

  unfoldable pub probes_summary : Delta F → StageSummary
  probes_summary d =
      let results = or_empty d.probe_results in
      if is_nonempty results
      then reported (text_of (str (length results) ∷ " probes executed" ∷ [])) (
          ("probes", str (length results))
          ∷ ("dimensions", join ", " (map (λ (r : ProbeResult). r.probe.dimension) results))
          ∷ ("warehouse said", join " · " (map (λ (r : ProbeResult). r.actual_result) results))
          ∷ ("resolved to", join ", " (resolved_texts results))
          ∷ [])
      else skipped "not contested, or critique had already decided"

  unfoldable pub selection_summary : Delta F → StageSummary
  selection_summary d = elim (get_key d.selection) [
    | none ↦ skipped "no candidate was selected"
    | some c ↦
        reported (text_of ("selected by " ∷ method_text c.method ∷ []))
          (("method", method_text c.method) ∷ ("why", w.rationale_text c.rationale) ∷ [])
  ]

  abbrev rewrites_text : List String → String
  rewrites_text [] = "no rewrites"
  rewrites_text (r ∷ rs) =
      let rules = join ", " (r ∷ rs) in if is_empty rules then "no rewrites" else rules

  abbrev verdict_text : Bool → String
  verdict_text true = "within budget"
  verdict_text false = "over budget"

  unfoldable pub optimization_summary : Delta F → StageSummary
  optimization_summary d = elim (get_key d.optimization) [
    | none ↦ skipped "the cost gate produced no verdict"
    | some o ↦
        let rules = rewrites_text o.rules_applied in
        let verdict = verdict_text o.within_budget in
        let cost = w.fixed 0 o.estimated_cost in
        reported (text_of (rules ∷ "; estimated cost " ∷ cost ∷ " (" ∷ verdict ∷ ")" ∷ [])) (
          ("rewrites", rules)
          ∷ ("estimated cost", cost)
          ∷ ("verdict", verdict)
          ∷ (
            "narrow it by",
            elim o.narrowing_suggestion [ none ↦ "" | some s ↦ w.suggestion_text s ],
          )
          ∷ [])
  ]

  unfoldable pub execution_summary : Delta F → StageSummary
  execution_summary d = elim (get_key d.result) [
    | none ↦ skipped "the statement was not run"
    | some r ↦ reported (text_of (str r.row_count ∷ " rows" ∷ [])) (
        ("rows", str r.row_count)
        ∷ ("columns", str (length r.columns))
        ∷ ("truncated", yes_no r.truncated)
        ∷ [])
  ]

  -- `SUMMARISERS`
  unfoldable pub summarise : Node → Delta F → StageSummary
  summarise intent_classification d = intent_summary d
  summarise domain_scoping d = domain_scoping_summary d
  summarise schema_linking d = schema_linking_summary d
  summarise ambiguity_gate d = ambiguity_gate_summary d
  summarise ambiguity_interrupt d = answer_summary (or_empty d.clarifications)
  summarise planning d = planning_summary d
  summarise candidate_generation d = candidates_summary d
  summarise static_validation d = static_validation_summary d
  summarise critique d = critique_summary d
  summarise ambiguity_probing d = probes_summary d
  summarise candidate_selection d = selection_summary d
  summarise rewrite_and_cost_gate d = optimization_summary d
  summarise guarded_execution d = execution_summary d
