-- ===== src/Pipeline/Tests.antt =====
-- A turn that asks once and is served, and the theorems on it.
use gen_ql.Base.{
  ℕ, String, Result, err, subst, ◌==◌, if◌then◌else◌, execution_error, true, none, some, [], ◌≡◌,
  refl, ok, milli, is_some,
}
use gen_ql.Entities.{OptimizationResult, ExecutionResult}
use gen_ql.Gate.{GateService, assess}
use gen_ql.Pipeline.Questions.{Counted, few_questions}
use gen_ql.Pipeline.State.{Services}
use gen_ql.Pipeline.Nodes.{
  Payload, intent_classification_node, domain_scoping_node, schema_linking_node,
  ambiguity_gate_node, ambiguity_interrupt_node, planning_node, candidate_generation_node,
  static_validation_node, validate_batch, critique_node, ambiguity_probing_node, selection_for,
  candidate_selection_node, rewrite_and_cost_gate_node, guarded_execution_node,
}
use gen_ql.Pipeline.Graph.{
  Config, at, guarded_execution, ended, waiting, start, resume, run, step, settle,
  ambiguity_interrupt,
}
use gen_ql.Pipeline.Sample.{services, rows, begin, state_of}
use gen_ql.Pipeline.Ready.{IsSound, IsAnalytical}
use gen_ql.Pipeline.Runs.{Reach, started, resumed, Reach-run}
use gen_ql.Pipeline.Measure.{IsHalted}
use gen_ql.Pipeline.Termination.{run_halts}
use gen_ql.Pipeline.Provenance.{Costed}
use gen_ql.Pipeline.Executed.{IsExecuted}
use gen_ql.Pipeline.Served.{Reach-IsServed, served_within_budget, runs_validated}

paused_config : Config ℕ
paused_config = run services 18 begin

payload : Payload
payload = record { question = "By month?"; suggested_answer = none; options = [] }

pauses : paused_config ≡ waiting (state_of paused_config) 4 payload
unfolding paused_config payload run start intent_classification_node domain_scoping_node
    schema_linking_node ambiguity_gate_node ambiguity_interrupt_node
pauses = refl

abbrev answered : Config ℕ
answered =
    settle (state_of paused_config) ambiguity_interrupt 4
      (ambiguity_interrupt_node (some "monthly") (state_of paused_config))

abbrev finished : Config ℕ
finished = run services 18 answered

serves : finished ≡ ended (state_of finished)
unfolding paused_config run start settle intent_classification_node domain_scoping_node
    schema_linking_node ambiguity_gate_node ambiguity_interrupt_node planning_node
    candidate_generation_node static_validation_node validate_batch critique_node
    ambiguity_probing_node selection_for candidate_selection_node rewrite_and_cost_gate_node
    guarded_execution_node
serves = refl

paused_reached : Reach services paused_config
unfolding paused_config run
paused_reached = Reach-run services 18 (started "total sales" "local" "t-1" none none refl)

answers : resume "monthly" paused_config ≡ ok answered
unfolding resume
answers = rw pauses refl

finished_reached : Reach services finished
finished_reached = Reach-run services 18 (resumed "monthly" paused_reached answers)

ended_reached : Reach services (ended (state_of finished))
ended_reached = rw serves at (finished_reached)

Reach-IsServed_example : IsSound finished × IsExecuted services finished
Reach-IsServed_example = Reach-IsServed services finished_reached

has_rows : is_some (state_of finished).result ≡ true
unfolding paused_config run start settle intent_classification_node domain_scoping_node
    schema_linking_node ambiguity_gate_node ambiguity_interrupt_node planning_node
    candidate_generation_node static_validation_node validate_batch critique_node
    ambiguity_probing_node selection_for candidate_selection_node rewrite_and_cost_gate_node
    guarded_execution_node
has_rows = refl

served_within_budget_example :
    IsAnalytical (state_of finished)
    × ((o : OptimizationResult ℕ) × (t : ℕ) × (rows : ExecutionResult) × ((state_of
            finished).optimization
          ≡ some o)
        × (o.within_budget ≡ true)
        × ((state_of finished).validated_sql ≡ some o.sql)
        × Costed services (state_of finished).datasource_name o
        × ((state_of finished).result ≡ some rows)
        × (services.execute t o.sql (state_of finished).datasource_name ≡ ok rows))
served_within_budget_example =
    served_within_budget services (state_of finished) ended_reached has_rows

run_halts_example : IsHalted (run services 18 answered)
run_halts_example = run_halts services answered (resumed "monthly" paused_reached answers)

abbrev about_to_run : Config ℕ
about_to_run = run services 8 answered

stops_before : about_to_run ≡ at guarded_execution (state_of about_to_run) 13
unfolding paused_config run start settle intent_classification_node domain_scoping_node
    schema_linking_node ambiguity_gate_node ambiguity_interrupt_node planning_node
    candidate_generation_node static_validation_node validate_batch critique_node
    ambiguity_probing_node selection_for candidate_selection_node rewrite_and_cost_gate_node
stops_before = refl

about_to_run_reached : Reach services (at guarded_execution (state_of about_to_run) 13)
about_to_run_reached =
    rw stops_before at (Reach-run services 8 (resumed "monthly" paused_reached answers))

-- A warehouse that answers only the validated statement.
abbrev strict : ℕ → String → String → Result ExecutionResult
strict t sql datasource = if sql == "select limit" then ok rows else err execution_error

statement_at_hand : (state_of about_to_run).validated_sql ≡ some "select limit"
unfolding paused_config run start settle intent_classification_node domain_scoping_node
    schema_linking_node ambiguity_gate_node ambiguity_interrupt_node planning_node
    candidate_generation_node static_validation_node validate_batch critique_node
    ambiguity_probing_node selection_for candidate_selection_node rewrite_and_cost_gate_node
statement_at_hand = refl

strict_agrees :
    (sql : String)
    → (state_of about_to_run).validated_sql ≡ some sql
    → strict 13 sql (state_of about_to_run).datasource_name
      ≡ services.execute 13 sql (state_of about_to_run).datasource_name
strict_agrees sql h =
    let same : "select limit" ≡ sql = cc (statement_at_hand) in
    subst (λ x. strict 13 x (state_of about_to_run).datasource_name ≡ ok rows) same refl

runs_validated_example :
    (o : OptimizationResult ℕ) × ((state_of about_to_run).validated_sql ≡ some o.sql)
    × (o.within_budget ≡ true)
    × Costed services (state_of about_to_run).datasource_name o
    × (step (record services { execute = strict }) (at guarded_execution (state_of about_to_run) 13)
        ≡ step services (at guarded_execution (state_of about_to_run) 13))
runs_validated_example =
    runs_validated services (state_of about_to_run) 13 strict about_to_run_reached strict_agrees

-- The same services with the ambiguity gate, which asks at most twice.
abbrev gate : GateService ℕ
gate = record {
  complete = λ question to_score answers. ok (record {
    scores = [];
    clarifying_dimension = "grain";
    clarifying_question = "By month?";
    suggested_answer = "";
    options = [];
  });
  read_rules = λ datasource. ok [];
  threshold = 700;
  max_questions = some 2;
}

abbrev gated : Services ℕ
gated = record services {
  assess = λ t question datasource answers links scores.
      assess gate question datasource answers links scores;
}

asking_reached : Reach gated (run gated 18 begin)
asking_reached = Reach-run gated 18 (started "total sales" "local" "t-1" none none refl)

few_questions_example : Counted (some 2) (run gated 18 begin)
few_questions_example =
    few_questions gated (λ t. gate) (λ datasource. []) (some 2)
      (λ t question datasource answers links scores. refl) (λ t datasource found read. cc)
      (λ t. refl) asking_reached
