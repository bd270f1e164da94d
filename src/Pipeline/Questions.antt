-- ===== src/Pipeline/Questions.antt =====
-- How many questions a thread asks, when the ambiguity gate is the one of
-- genql/services/query/ambiguity_gate_service.py.
use gen_ql.Base.{
  ℕ, suc, ◌+◌, String, true, false, Option, none, some, List, [], ◌∷◌, ◌++◌, ◌≡◌, ◌≤◌, ◌<◌, refl,
  sym, subst, ◌∙◌, length, length-append, Result, ok, err, >>=-eq-ok, FloatOps, arith, Bool-cases,
  inl, inr, Elem,
}
use gen_ql.Entities.{AmbiguityAssessment, Rule, SchemaLink}
use gen_ql.Gate.{GateService, assess, defaults_of, open_dimensions, spent}
use gen_ql.Gate.Open.{open-answer-lt, length-open-le}
use gen_ql.Gate.Asks.{assess-AsksAbout_open}
use gen_ql.Pipeline.State.{QueryState, Services, initial_state}
use gen_ql.Pipeline.Nodes.{
  plain, intent_classification_node, domain_scoping_node, schema_linking_node, ambiguity_gate_node,
  ambiguity_interrupt_node, or_empty,
}
use gen_ql.Pipeline.Graph.{
  Node, intent_classification, domain_scoping, schema_linking, ambiguity_gate, ambiguity_interrupt,
  planning, candidate_generation, static_validation, critique, ambiguity_probing,
  candidate_selection, rewrite_and_cost_gate, guarded_execution, settle, run_node, route, goto,
  Config, at, ended, waiting, failed, step, start, resume,
}
use gen_ql.Pipeline.Runs.{Reach, started, stepped, resumed}
use gen_ql.Pipeline.Answers.{
  fits, fits-spent, nil-Few, length-pos, is_late, open_of, Few, Room, Pending, Asked, Bounded,
  Bounded-Few, Few-Bounded, Keeps, validation-Keeps, execution-Keeps, planning-Keeps,
  generation-Keeps, critique-Keeps, probing-Keeps, selection-Keeps, cost_gate-Keeps,
}

-- The number of answers of a thread is within its bounds.
abbrev pub Counted : {F : Type 0} → Option ℕ → Config F → Type 0
Counted limit (at n s t) =
    (length s.clarifications ≤ 6) × (fits limit (length s.clarifications) ≡ true)
Counted limit (ended s) =
    (length s.clarifications ≤ 6) × (fits limit (length s.clarifications) ≡ true)
Counted limit (waiting s t p) =
    (length s.clarifications ≤ 5) × (spent limit s.clarifications ≡ false)
Counted limit (failed e) = Unit

module _ {F : Type 0} ⦃ops : FloatOps F⦄ (sv : Services F) (g : ℕ → GateService F)
    (rules : String → List Rule) (limit : Option ℕ)
    (is_gate : (t : ℕ) (question datasource : String) (answers : List (String × String))
        (links : List SchemaLink) (scores : List (String × F))
      → sv.assess t question datasource answers links scores
        ≡ assess (g t) question datasource answers links scores)
    (reads : (t : ℕ) (datasource : String) (found : List Rule)
      → (g t).read_rules datasource ≡ ok found
      → found ≡ rules datasource)
    (budget : (t : ℕ) → (g t).max_questions ≡ limit) where
  asked-open :
      (t : ℕ) (s : QueryState F) (a : AmbiguityAssessment F)
      → sv.assess t s.question s.datasource_name s.clarifications (or_empty s.links) s.gate_scores
        ≡ ok a
      → a.is_ambiguous ≡ true
      → (spent limit s.clarifications ≡ false)
        × ((d : String) × (a.missing_dimension ≡ some d) × Elem d (open_of rules limit s))
  asked-open t s a answered ambiguous =
      let assessed : assess (g t) s.question s.datasource_name s.clarifications (or_empty s.links)
            s.gate_scores
          ≡ ok a =
        sym
          (is_gate t s.question s.datasource_name s.clarifications (or_empty s.links) s.gate_scores)
        ∙ answered in
      let (found, read, within, (d, text, missing, among, _, _)) =
        assess-AsksAbout_open (g t) s.question s.datasource_name s.clarifications (or_empty s.links)
          s.gate_scores assessed ambiguous in
      (
        subst (λ l. spent l s.clarifications ≡ false) (budget t) within,
        (
          d,
          missing,
          subst
              (λ rs. Elem d (open_dimensions (defaults_of rs) s.clarifications (or_empty s.links)))
              (reads t s.datasource_name found read) among,
        ),
      )

  gate-Bounded :
      (t : ℕ) (s s' : QueryState F)
      → Room rules limit s
      → ambiguity_gate_node sv t s ≡ ok s'
      → Bounded rules limit (goto (route ambiguity_gate s') s' (suc t))
  unfolding ambiguity_gate_node goto route
  gate-Bounded t s s' h e =
      let (a, answered, made) =
        >>=-eq-ok
          (sv.assess t s.question s.datasource_name s.clarifications (or_empty s.links)
            s.gate_scores)
          _ e in
      let assessed : s'.ambiguity ≡ some a = ground arith in
      let same : (s'.clarifications ≡ s.clarifications)
          × (s'.links ≡ s.links)
          × (s'.datasource_name ≡ s.datasource_name) =
        ground arith in
      elim (Bool-cases a.is_ambiguous) [
        | inr clear ↦ ground arith
        | inl ambiguous ↦
            let (within, (d, missing, among)) = asked-open t s a answered ambiguous in ground arith
      ]

  interrupt-Bounded :
      (t : ℕ) (answer : Option String) (s : QueryState F)
      → Pending rules limit s
      → Bounded rules limit (settle s ambiguity_interrupt t (ambiguity_interrupt_node answer s))
  unfolding ambiguity_interrupt_node settle goto route
  interrupt-Bounded t none s (room, within, (a, d, assessed, missing, among)) =
      elim (Bool-cases a.is_ambiguous) [ inl ambiguous ↦ ground arith | inr clear ↦ ground arith ]
  interrupt-Bounded t (some text) s (room, within, (a, d, assessed, missing, among)) =
      let fewer : length (
            open_dimensions (defaults_of (rules s.datasource_name))
              (s.clarifications ++ (d, text) ∷ []) (or_empty s.links))
          < length (open_of rules limit s) =
        open-answer-lt (defaults_of (rules s.datasource_name)) s.clarifications (or_empty s.links) d
          text among in
      let longer : length (s.clarifications ++ (d, text) ∷ []) ≡ length s.clarifications + 1 =
        length-append s.clarifications ((d, text) ∷ []) in
      let fitting : fits limit (length (s.clarifications ++ (d, text) ∷ [])) ≡ true =
        fits-spent limit s.clarifications (d, text) within in
      elim (Bool-cases a.is_ambiguous) [ inl ambiguous ↦ ground arith | inr clear ↦ ground arith ]

  linking-Bounded :
      (t : ℕ) (s s' : QueryState F)
      → s.clarifications ≡ []
      → schema_linking_node sv t s ≡ ok s'
      → Bounded rules limit (goto (route schema_linking s') s' (suc t))
  unfolding schema_linking_node goto route
  linking-Bounded t s s' h e =
      let none_yet : s'.clarifications ≡ [] = ground arith in
      let (few, fitting) = nil-Few limit s'.clarifications none_yet in
      let most : length (open_of rules limit s') ≤ 6 =
        length-open-le (defaults_of (rules s'.datasource_name)) s'.clarifications
          (or_empty s'.links) in
      let empty : length s'.clarifications ≡ 0 = rw none_yet refl in (omega arith, fitting)

  intent-Bounded :
      (t : ℕ) (s s' : QueryState F)
      → s.clarifications ≡ []
      → intent_classification_node sv t s ≡ ok s'
      → Bounded rules limit (goto (route intent_classification s') s' (suc t))
  unfolding intent_classification_node goto route
  intent-Bounded t s s' h e =
      let none_yet : s'.clarifications ≡ [] = ground arith in
      let few : Few rules limit s' = nil-Few limit s'.clarifications none_yet in ground arith

  scoping-Bounded :
      (t : ℕ) (s s' : QueryState F)
      → s.clarifications ≡ []
      → domain_scoping_node sv t s ≡ ok s'
      → Bounded rules limit (goto (route domain_scoping s') s' (suc t))
  unfolding domain_scoping_node goto route
  scoping-Bounded t s s' h e = ground arith

  plain-Bounded :
      (before : QueryState F) (n : Node) (t : ℕ) (r : Result (QueryState F))
      → ((s : QueryState F) → r ≡ ok s → Bounded rules limit (goto (route n s) s (suc t)))
      → Bounded rules limit (settle before n t (plain r))
  unfolding settle
  plain-Bounded before n t (ok s) h = h s refl
  plain-Bounded before n t (err e) h = tt

  late-Bounded :
      (t : ℕ) (n : Node) (s : QueryState F) (r : Result (QueryState F))
      → is_late n ≡ true
      → Few rules limit s
      → Keeps sv t r s
      → Bounded rules limit (settle s n t (plain r))
  late-Bounded t n s r late few keeps = plain-Bounded s n t r (λ s' e.
      Few-Bounded rules limit n s' (suc t) late (
        subst (λ answers. (length answers ≤ 6) × (fits limit (length answers) ≡ true))
          (sym (keeps s' e)) few))

  run_node-Bounded :
      (n : Node) (t : ℕ) (s : QueryState F)
      → Asked rules limit n s
      → Bounded rules limit (settle s n t (run_node sv n t s))
  unfolding run_node
  run_node-Bounded intent_classification t s h =
      plain-Bounded s _ t _ (λ s' e. intent-Bounded t s s' h e)
  run_node-Bounded domain_scoping t s h = plain-Bounded s _ t _ (λ s' e. scoping-Bounded t s s' h e)
  run_node-Bounded schema_linking t s h = plain-Bounded s _ t _ (λ s' e. linking-Bounded t s s' h e)
  run_node-Bounded ambiguity_gate t s h = plain-Bounded s _ t _ (λ s' e. gate-Bounded t s s' h e)
  run_node-Bounded ambiguity_interrupt t s h = interrupt-Bounded t none s h
  run_node-Bounded planning t s h = late-Bounded t planning s _ refl h (planning-Keeps sv t s)
  run_node-Bounded candidate_generation t s h =
      late-Bounded t candidate_generation s _ refl h (generation-Keeps sv t s)
  run_node-Bounded static_validation t s h =
      late-Bounded t static_validation s _ refl h (validation-Keeps sv t s)
  run_node-Bounded critique t s h = late-Bounded t critique s _ refl h (critique-Keeps sv t s)
  run_node-Bounded ambiguity_probing t s h =
      late-Bounded t ambiguity_probing s _ refl h (probing-Keeps sv t s)
  run_node-Bounded candidate_selection t s h =
      late-Bounded t candidate_selection s _ refl h (selection-Keeps sv t s)
  run_node-Bounded rewrite_and_cost_gate t s h =
      late-Bounded t rewrite_and_cost_gate s _ refl h (cost_gate-Keeps sv t s)
  run_node-Bounded guarded_execution t s h =
      late-Bounded t guarded_execution s _ refl h (execution-Keeps sv t s)

  step-Bounded : (c : Config F) → Bounded rules limit c → Bounded rules limit (step sv c)
  unfolding step
  step-Bounded (at n s t) h = run_node-Bounded n t s h
  step-Bounded (ended s) h = h
  step-Bounded (waiting s t p) h = h
  step-Bounded (failed e) h = tt

  resume-Bounded :
      (answer : String) (c d : Config F)
      → resume answer c ≡ ok d
      → Bounded rules limit c
      → Bounded rules limit d
  unfolding resume
  resume-Bounded answer (at n s t) d e h = cc
  resume-Bounded answer (ended s) d e h = cc
  resume-Bounded answer (failed x) d e h = cc
  resume-Bounded answer (waiting s t p) d e h =
      let same : d ≡ settle s ambiguity_interrupt t (ambiguity_interrupt_node (some answer) s) =
        cc in
      rw same (interrupt-Bounded t (some answer) s h)

  Reach-Bounded : {c : Config F} → Reach sv c → Bounded rules limit c
  unfolding start initial_state
  Reach-Bounded (started question datasource thread domain_id trace_parent e) = rw e refl
  Reach-Bounded (stepped {c = c} r e) = rw e (step-Bounded c (Reach-Bounded r))
  Reach-Bounded (resumed {c = c} {d = d} answer r e) = resume-Bounded answer c d e (Reach-Bounded r)

  -- A thread asks at most six questions, and no more than the question budget: where the nodes'
  -- gate is the ambiguity gate, with the same rules for a datasource whenever they can be read and
  -- the same budget throughout, a thread holds at most six answers, and no more than the budget,
  -- before every node and at END, and at most five, and fewer than the budget, when it is paused.
  pub few_questions : {c : Config F} → Reach sv c → Counted limit c
  few_questions {c = at n s t} r = Bounded-Few rules limit n s (Reach-Bounded r)
  few_questions {c = ended s} r = Reach-Bounded r
  few_questions {c = failed e} r = tt
  few_questions {c = waiting s t p} r =
      let (room, within, (a, d, assessed, missing, among)) = Reach-Bounded r in
      let some_open : 1 ≤ length (open_of rules limit s) =
        length-pos d (open_of rules limit s) among in
      (omega arith, within)
