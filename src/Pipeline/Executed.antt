-- ===== src/Pipeline/Executed.antt =====
-- Where the rows of a turn come from (GuardedExecutionNode of genql/api/query_nodes.py, at the
-- end of the graph of genql/api/query_graph.py).
use gen_ql.Base.{
  ℕ, suc, String, true, false, Bool, Option, none, some, ◌≡◌, ◌⊎◌, inl, inr, refl, sym, subst, ap,
  ◌∙◌, ok, >>=-eq-ok, FloatOps, is_some, execution_error, if◌then◌else◌,
}
use gen_ql.Entities.{ExecutionResult}
use gen_ql.Pipeline.State.{QueryState, Services, initial_state}
use gen_ql.Pipeline.Nodes.{
  Outcome, returned, paused, raised, ambiguity_interrupt_node, guarded_execution_node,
  record_actuals, or_raise,
}
use gen_ql.Pipeline.Graph.{
  Node, domain_scoping, ambiguity_interrupt, guarded_execution, Config, at, ended, waiting, failed,
  goto, route, settle, run_node, step, start, resume,
}
use gen_ql.Pipeline.Ready.{says_ambiguous}
use gen_ql.Pipeline.Runs.{Reach, started, stepped, resumed}
use gen_ql.Pipeline.Delta.{Delta, no_keys, delta_of, merge_delta}
use gen_ql.Pipeline.Frames.{interrupt-Framed, run_node-Framed, plain-returned}
use gen_ql.Pipeline.Leads.{swallow-eq}
use gen_ql.Pipeline.Provenance.{ok-eq, or_raise-eq}

module _ {F : Type 0} (sv : Services F) where
  -- The rows of the state are what the warehouse answered for the statement of the state.
  abbrev pub HasRun : QueryState F → Type 0
  HasRun s =
      (t : ℕ) × (sql : String) × (rows : ExecutionResult) × (s.validated_sql ≡ some sql)
      × (s.result ≡ some rows)
      × (sv.execute t sql s.datasource_name ≡ ok rows)

  -- There are no rows before the end, and at the end those of the execution, if there are any.
  abbrev pub IsExecuted : Config F → Type 0
  IsExecuted (at n s t) = s.result ≡ none
  IsExecuted (ended s) = (s.result ≡ none) ⊎ HasRun s
  IsExecuted (waiting s t p) = s.result ≡ none
  IsExecuted (failed e) = Unit

abbrev executes : Node → Bool
executes guarded_execution = true
executes _ = false

module _ {F : Type 0} where
  either-result :
      (b : Bool) (d d' : Delta F) (s : QueryState F)
      → (merge_delta d s).result ≡ s.result
      → (merge_delta d' s).result ≡ s.result
      → (merge_delta (if b then d else d') s).result ≡ s.result
  either-result true d d' s h h' = h
  either-result false d d' s h h' = h'

  frame-result :
      (n : Node) (s s' : QueryState F)
      → executes n ≡ false
      → (merge_delta (delta_of n s s') s).result ≡ s.result
  frame-result guarded_execution s s' w = cc
  frame-result domain_scoping s s' w =
      either-result (is_some s.domain_id) no_keys (record no_keys { domain_id = some s'.domain_id })
        s refl refl
  frame-result ambiguity_interrupt s s' w =
      either-result (says_ambiguous s.ambiguity)
        (record no_keys { clarifications = some s'.clarifications }) no_keys s refl refl
  frame-result n s s' w = refl

module _ {F : Type 0} ⦃ops : FloatOps F⦄ (sv : Services F) where
  execution-HasRun :
      (t : ℕ) (s s' : QueryState F) → guarded_execution_node sv t s ≡ ok s' → HasRun sv s'
  unfolding guarded_execution_node
  execution-HasRun t s s' e =
      let (sql, at_hand, e1) = >>=-eq-ok (or_raise s.validated_sql execution_error) _ e in
      let (rows, ran, made) = >>=-eq-ok (sv.execute t sql s.datasource_name) _ e1 in
      let same : record s { result = some rows } ≡ s' =
        sym (swallow-eq sv t (record_actuals sv t sql s) (record s { result = some rows }))
        ∙ ok-eq made in
      subst (HasRun sv) same (t, sql, rows, or_raise-eq _ _ sql at_hand, refl, ran)

  -- The state after a node has no rows, or the node was the execution and they are its rows.
  run_node-result :
      (n : Node) (t : ℕ) (s s' : QueryState F)
      → run_node sv n t s ≡ returned s'
      → s.result ≡ none
      → (executes n ≡ false)
      → s'.result ≡ none
  run_node-result n t s s' e h w =
      ap (λ x. x.result) (sym (run_node-Framed sv t s s' n e)) ∙ frame-result n s s' w ∙ h

  goto-IsExecuted :
      (target : Option Node) (s : QueryState F) (t : ℕ)
      → s.result ≡ none
      → IsExecuted sv (goto target s t)
  unfolding goto
  goto-IsExecuted none s t h = inl h
  goto-IsExecuted (some n) s t h = h

  settle-IsExecuted :
      (before : QueryState F) (n : Node) (t : ℕ) (o : Outcome (QueryState F))
      → before.result ≡ none
      → ((after : QueryState F) → o ≡ returned after → after.result ≡ none)
      → IsExecuted sv (settle before n t o)
  unfolding settle
  settle-IsExecuted before n t (returned s) h kept =
      goto-IsExecuted (route n s) s (suc t) (kept s refl)
  settle-IsExecuted before n t (paused p) h kept = h
  settle-IsExecuted before n t (raised e) h kept = tt

  execution-IsExecuted :
      (t : ℕ) (s : QueryState F) (o : Outcome (QueryState F))
      → s.result ≡ none
      → ((after : QueryState F) → o ≡ returned after → HasRun sv after)
      → IsExecuted sv (settle s guarded_execution t o)
  unfolding settle route goto
  execution-IsExecuted t s (returned after) h ran = inr (ran after refl)
  execution-IsExecuted t s (paused p) h ran = h
  execution-IsExecuted t s (raised e) h ran = tt

  node-IsExecuted :
      (n : Node) (t : ℕ) (s : QueryState F)
      → s.result ≡ none
      → IsExecuted sv (settle s n t (run_node sv n t s))
  unfolding run_node
  node-IsExecuted guarded_execution t s h =
      execution-IsExecuted t s (run_node sv guarded_execution t s) h
        (λ after e. execution-HasRun t s after (plain-returned _ e))
  node-IsExecuted n t s h =
      settle-IsExecuted s n t (run_node sv n t s) h
        (λ after e. run_node-result n t s after e h refl)

  step-IsExecuted : (c : Config F) → IsExecuted sv c → IsExecuted sv (step sv c)
  unfolding step
  step-IsExecuted (at n s t) h = node-IsExecuted n t s h
  step-IsExecuted (ended s) h = h
  step-IsExecuted (waiting s t p) h = h
  step-IsExecuted (failed e) h = tt

  resume-IsExecuted :
      (answer : String) (c d : Config F)
      → resume answer c ≡ ok d
      → IsExecuted sv c
      → IsExecuted sv d
  unfolding resume
  resume-IsExecuted answer (at n s t) d e h = cc
  resume-IsExecuted answer (ended s) d e h = cc
  resume-IsExecuted answer (failed x) d e h = cc
  resume-IsExecuted answer (waiting s t p) d e h =
      let made_d : d ≡ settle s ambiguity_interrupt t (ambiguity_interrupt_node (some answer) s) =
        cc in
      subst (IsExecuted sv) (sym made_d) (
        settle-IsExecuted s ambiguity_interrupt t (ambiguity_interrupt_node (some answer) s) h
          (λ after made.
            ap (λ x. x.result) (sym (interrupt-Framed (some answer) s after made))
            ∙ frame-result ambiguity_interrupt s after refl
            ∙ h))

  pub Reach-IsExecuted : {c : Config F} → Reach sv c → IsExecuted sv c
  unfolding start initial_state
  Reach-IsExecuted (started question datasource thread domain_id trace_parent e) = rw e refl
  Reach-IsExecuted (stepped {c = c} r e) = rw e (step-IsExecuted c (Reach-IsExecuted r))
  Reach-IsExecuted (resumed {c = c} {d = d} answer r e) =
      resume-IsExecuted answer c d e (Reach-IsExecuted r)
