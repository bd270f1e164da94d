-- ===== src/Lib.antt =====
-- GenQL answers questions in natural language with SQL on a warehouse. This library models the
-- online pipeline of a question and the ingestion of a datasource.
--
-- A question runs through a graph of thirteen nodes (genql/api/query_graph.py). The nodes share one
-- state, and each calls one service:
--   Base          shared names, lists, texts, dictionaries, results of calls that may raise, floats
--   Entities      genql/domain/entities, the values that pass between the stages
--   Gate          genql/services/query/ambiguity_gate_service.py: `assess` and its helpers. Gate.Rules,
--                 Gate.Open, Gate.Asks, Gate.Rounds and Gate.Outcome hold the proofs
--   Validation    genql/services/query/static_validation_service.py: `validate`, `apply_rule` for
--                 `_apply`, `qualify` for `_qualify`
--   Selection     genql/services/query/candidate_selection_service.py and `_uniquely_predicted_by` of
--                 ambiguity_probing_service.py: `select`, `critique_ranked_report`
--   Optimization  genql/services/query/optimization_service.py: `optimize`, `rewrite`, `decompose`
--   Pipeline      State is `QueryState`; Nodes has a function for each node class of query_nodes.py,
--                 query_turn_nodes.py, query_ambiguity_nodes.py and query_optimizer_nodes.py of
--                 genql/api; Graph has the routers, `step` for one node, `run` for graph.invoke, and
--                 `start` and `resume` for run_query and resume_query
-- A configuration of the graph is the state before a node, at END, paused for an answer, or stopped
-- by an exception. The checkpointer is the configuration itself: what is resumed is what was paused.
--
-- Semantic holds the overlay of genql/services/semantic/semantic_overlay_service.py: Semantic.Merge
-- the entities and the rows, Semantic.Calls the calls of the writers, Semantic.Hints the metrics and
-- the join hints, and Semantic.Overlay `apply`, which comes to the calls that it has made, in order,
-- and what it returns or raises; Rows and Wins hold the proofs.
--
-- Stages holds services that the nodes call (genql/services/query): Stages.Intent is
-- intent_classification_service.py, Stages.Generation candidate_generation_service.py,
-- Stages.Critique critique_service.py and Stages.Probing ambiguity_probing_service.py. Labels,
-- Coverage and Safety hold the proofs.
--
-- A client sees a turn in two ways, which share `to_response` and `record_turn`:
--   Turn.Response  genql/domain/entities/turn_response.py and `to_response` of genql/api/query_turn.py
--   Turn.Summary, Turn.Wording, Turn.Summaries
--                  genql/api/sse/stage_summary.py and stage_summaries.py, a function for each node
--   Turn.Events    genql/api/sse/stage_events.py, and one pass of the loop of event_stream.py
--   Turn.Stream    genql/api/sse/event_stream.py: `stream_question` and `stream_answer` are
--                  `stage_event_stream` without and with an answer; `drain` is the loop
--   Turn.Blocking  `start_turn` and `resume_turn` of genql/api/query_turn.py
--   Turn.History   the two tables of migrations/versions/0011_thread_history_and_gotrue_prereqs.py,
--                  the repositories of genql/repositories/query on them, and `record_turn`
-- The other modules of Turn hold the proofs. What a node returns is Pipeline.Delta: `delta_of` reads
-- its keys off the states before and after the node, and `merge_delta` is dict.update. The
-- merged state of a stream is followed along the run of the graph: it holds what a response reads,
-- also where it starts empty in the middle of a turn. Pipeline.Provenance and Pipeline.Traces follow
-- the statements of a turn from the validation to the execution, Pipeline.Executed its rows, and
-- Pipeline.Served brings them together.
--
-- A datasource is ingested by jobs in a table that serves as a queue:
--   Ingestion             genql/domain/entities/ingestion_job.py
--   Ingestion.Jobs        genql/repositories/semantic/ingestion_job_repository.py, with the unique
--                         index of migrations/versions/0012_ingestion_jobs.py: one function on the
--                         table for each statement
--   Ingestion.Onboarding  genql/services/datasource/onboarding_service.py
--   Ingestion.Discovery   genql/discovery/runner.py
--   Ingestion.Stages      genql/services/datasource/ingestion_service.py
--   Ingestion.Worker      genql/infrastructure/ingestion/worker.py: it claims a job, runs its stages,
--                         which report into the table, and writes its end
--   Ingestion.Feed        genql/api/sse/ingestion_events.py: `watch` is the stream of one job,
--                         `transitions` one poll of the feed of all datasources
--
-- Datasource          genql/services/datasource/datasource_merge.py with its two value types: `merge`
--                     applies an edit to a registered datasource
--
-- Evaluation          the golden set (genql/services/eval). Comparator is result_comparator.py, Golden is
--                     golden_evaluation_service.py with its entities, Ablations is
--                     ablation_service.py. Bags, Verdicts, Rows and Total hold the proofs. A cell of a
--                     result is its value as a text with its kind
--
-- Parameters of the model are: the language model and its prompts (a provider takes the arguments
-- of the prompt), the warehouse, sqlglot (its trees, parsing, qualifying and rendering, with
-- `_schema_of` inside it), the guardrails and rewrite rules, the rule reader, and the services that
-- the nodes call. The graph's services also take the number of nodes that ran before, so that they
-- may answer the same call differently at another time. A float is an element of a type with an
-- order, a subtraction and a zero (Base.Float); where a proof needs it, the order is total, which
-- means that there is no NaN. The lower case of a text is that of ASCII letters.
-- What the JSON columns of the history give back of a result is a parameter, as are the float of a
-- number in a result (Evaluation.Comparator, where NaN is told apart) and the recompilation of the
-- search documents: one with the baseline that returns is taken to undo another (IsBaseline).
--
-- The graph's run takes at most a number of nodes. Eighteen are enough from every configuration,
-- since a turn regenerates at most once for violations and at most once more when it escalates.
--
-- Not modelled are the texts of messages, logs and traces, settings, the thread lock, the HTTP and
-- command line layers, and the SQL that the other repositories send, since they hold no decision of
-- the pipeline. Planning, linking and the design of probes are calls of a model or a retriever:
-- they are parameters of the graph, as every service is.
pub mod Base
pub mod Entities
pub mod Gate
pub mod Validation
pub mod Selection
pub mod Semantic
pub mod Optimization
pub mod Pipeline
pub mod Ingestion
pub mod Datasource
pub mod Turn
pub mod Stages
pub mod Evaluation
