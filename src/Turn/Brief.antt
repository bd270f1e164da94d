-- ===== src/Turn/Brief.antt =====
-- How much one event says (genql/api/sse/stage_summaries.py and stage_events.py).
use gen_ql.Base.{
  ℕ, zero, suc, FloatOps, All, String, Bool, true, false, Option, none, some, List, [], ◌∷◌, ◌++◌,
  if◌then◌else◌, is_nonempty, is_empty,
}
use gen_ql.Pipeline.Nodes.{Payload, Outcome, returned, paused, raised, or_empty}
use gen_ql.Pipeline.State.{QueryState, Services}
use gen_ql.Pipeline.Graph.{
  Node, intent_classification, domain_scoping, schema_linking, ambiguity_gate, ambiguity_interrupt,
  planning, candidate_generation, static_validation, critique, ambiguity_probing,
  candidate_selection, rewrite_and_cost_gate, guarded_execution, Config, at, ended, waiting, failed,
  settle, run_node,
}
use gen_ql.Pipeline.Delta.{Delta, delta_of}
use gen_ql.Turn.Events.{StageEvent, Progress, absorb, node_event, pause_event, interrupt_summary}
use gen_ql.Turn.Stream.{drain}
use gen_ql.Turn.Summary.{StageSummary, IsBrief, reported-IsBrief, skipped-IsBrief}
use gen_ql.Turn.Wording.{Texts, get_key}
use gen_ql.Turn.Summaries.{
  summarise, intent_summary, domain_scoping_summary, schema_linking_summary, assessment_summary,
  ambiguity_gate_summary, answer_summary, planning_summary, candidates_summary,
  static_validation_summary, critique_summary, probes_summary, selection_summary,
  optimization_summary, execution_summary,
}

if-IsBrief : (b : Bool) (x y : StageSummary) → IsBrief x → IsBrief y → IsBrief (if b then x else y)
if-IsBrief true x y hx hy = hx
if-IsBrief false x y hx hy = hy

elim-IsBrief :
    {A : Type 0} (o : Option A) (x : StageSummary) (f : A → StageSummary)
    → IsBrief x
    → ((a : A) → IsBrief (f a))
    → IsBrief (elim o [ none ↦ x | some a ↦ f a ])
elim-IsBrief none x f hx hf = hx
elim-IsBrief (some a) x f hx hf = hf a

module _ {F : Type 0} (w : Texts F) where
  answer-IsBrief : (answers : List (String × String)) → IsBrief (answer_summary w answers)
  unfolding answer_summary
  answer-IsBrief [] = skipped-IsBrief _
  answer-IsBrief (first ∷ rest) = reported-IsBrief _ _

  summarise-IsBrief : (n : Node) (d : Delta F) → IsBrief (summarise w n d)
  unfolding summarise intent_summary domain_scoping_summary schema_linking_summary
      ambiguity_gate_summary assessment_summary planning_summary candidates_summary
      static_validation_summary critique_summary probes_summary selection_summary
      optimization_summary execution_summary
  summarise-IsBrief intent_classification d =
      elim-IsBrief (get_key d.intent) _ _ (skipped-IsBrief _)
        (λ intent. if-IsBrief (is_empty intent) _ _ (skipped-IsBrief _) (reported-IsBrief _ _))
  summarise-IsBrief domain_scoping d =
      elim-IsBrief d.domain_id _ _ (skipped-IsBrief _)
        (λ found. elim-IsBrief found _ _ (skipped-IsBrief _) (λ i. reported-IsBrief _ _))
  summarise-IsBrief schema_linking d = reported-IsBrief _ _
  summarise-IsBrief ambiguity_gate d =
      elim-IsBrief (get_key d.ambiguity) _ _ (skipped-IsBrief _)
        (λ a. if-IsBrief a.is_ambiguous _ _ (reported-IsBrief _ _) (reported-IsBrief _ _))
  summarise-IsBrief ambiguity_interrupt d = answer-IsBrief (or_empty d.clarifications)
  summarise-IsBrief planning d =
      elim-IsBrief (get_key d.plan) _ _ (skipped-IsBrief _) (λ plan. reported-IsBrief _ _)
  summarise-IsBrief candidate_generation d = reported-IsBrief _ _
  summarise-IsBrief static_validation d =
      if-IsBrief (is_nonempty (or_empty d.validated_sqls)) _ _ (reported-IsBrief _ _)
        (reported-IsBrief _ _)
  summarise-IsBrief critique d =
      if-IsBrief (is_nonempty (or_empty d.critique_reports)) _ _ (reported-IsBrief _ _)
        (skipped-IsBrief _)
  summarise-IsBrief ambiguity_probing d =
      if-IsBrief (is_nonempty (or_empty d.probe_results)) _ _ (reported-IsBrief _ _)
        (skipped-IsBrief _)
  summarise-IsBrief candidate_selection d =
      elim-IsBrief (get_key d.selection) _ _ (skipped-IsBrief _) (λ c. reported-IsBrief _ _)
  summarise-IsBrief rewrite_and_cost_gate d =
      elim-IsBrief (get_key d.optimization) _ _ (skipped-IsBrief _) (λ o. reported-IsBrief _ _)
  summarise-IsBrief guarded_execution d =
      elim-IsBrief (get_key d.result) _ _ (skipped-IsBrief _) (λ r. reported-IsBrief _ _)

-- The line and the facts of an event are within the budget of a summary.
abbrev pub IsBriefEvent : StageEvent → Type 0
IsBriefEvent event = IsBrief (record { detail = event.detail; facts = event.facts; did_run = true })

status-IsBrief :
    (summary : StageSummary)
    → IsBrief summary
    → IsBrief (record { detail = summary.detail; facts = summary.facts; did_run = true })
unfolding IsBrief
status-IsBrief summary h = h

All-last :
    (events : List StageEvent) (event : StageEvent)
    → All IsBriefEvent events
    → IsBriefEvent event
    → All IsBriefEvent (events ++ event ∷ [])
All-last [] event h brief = (brief, tt)
All-last (x ∷ xs) event h brief = (h.0, All-last xs event h.1 brief)

interrupt-IsBrief : (payload : Payload) → IsBrief (interrupt_summary payload)
unfolding interrupt_summary
interrupt-IsBrief payload = reported-IsBrief _ _

pause-IsBrief : (payload : Payload) (attempt : ℕ) → IsBriefEvent (pause_event payload attempt)
unfolding pause_event
pause-IsBrief payload attempt =
    status-IsBrief (interrupt_summary payload) (interrupt-IsBrief payload)

module _ {F : Type 0} (w : Texts F) where
  node-IsBrief : (n : Node) (d : Delta F) (attempt : ℕ) → IsBriefEvent (node_event w n d attempt)
  unfolding node_event
  node-IsBrief n d attempt = status-IsBrief (summarise w n d) (summarise-IsBrief w n d)

  absorb-AreBrief :
      (before : QueryState F) (n : Node) (o : Outcome (QueryState F)) (p : Progress F)
      → All IsBriefEvent p.collected
      → All IsBriefEvent (absorb w before n o p).collected
  unfolding absorb
  absorb-AreBrief before n (returned after) p h =
      All-last p.collected _ h (node-IsBrief n (delta_of n before after) 0)
  absorb-AreBrief before n (paused payload) p h = All-last p.collected _ h (pause-IsBrief payload 0)
  absorb-AreBrief before n (raised e) p h = h

module _ {F : Type 0} ⦃ops : FloatOps F⦄ (sv : Services F) (w : Texts F) where
  -- Whatever the services answer, and however long the plan, the lists and the messages in the
  -- state: if the events collected before are within the budget, so are all events that the
  -- draining of the graph collects. A line has at most 200 characters, and there are at most ten
  -- facts of at most 400 each.
  pub drain-AreBrief :
      (limit : ℕ) (c : Config F) (p : Progress F)
      → All IsBriefEvent p.collected
      → All IsBriefEvent (drain sv w limit c p).1.collected
  unfolding drain
  drain-AreBrief zero c p h = h
  drain-AreBrief (suc limit) (at n s t) p h =
      drain-AreBrief limit (settle s n t (run_node sv n t s)) (absorb w s n (run_node sv n t s) p)
        (absorb-AreBrief w s n (run_node sv n t s) p h)
  drain-AreBrief (suc limit) (ended s) p h = h
  drain-AreBrief (suc limit) (waiting s t q) p h = h
  drain-AreBrief (suc limit) (failed e) p h = h
