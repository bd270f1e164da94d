-- ===== src/Pipeline/Decreases.antt =====
-- Every node lowers the bound on the nodes that still run (genql/api/query_nodes.py and its
-- neighbours).
use gen_ql.Base.{
  ℕ, suc, ◌<◌, String, none, List, [], ◌∷◌, ◌≡◌, refl, Result, ok, err, >>=-eq-ok, FloatOps, arith,
  length, inl, inr, is_nonempty, Bool-cases, GuardrailViolation, critique_error,
}
use gen_ql.Entities.{SqlCandidate, CritiqueReport}
use gen_ql.Pipeline.State.{QueryState, Services}
use gen_ql.Pipeline.Nodes.{
  plain, or_raise, or_empty, intent_classification_node, domain_scoping_node, schema_linking_node,
  ambiguity_gate_node, ambiguity_interrupt_node, planning_node, candidate_generation_node,
  static_validation_node, conclude_validation, validate_batch, critique_node, uncontested,
  conclude_critique, ambiguity_probing_node, candidate_selection_node, rewrite_and_cost_gate_node,
  guarded_execution_node,
}
use gen_ql.Pipeline.Graph.{
  Node, intent_classification, domain_scoping, schema_linking, ambiguity_gate, ambiguity_interrupt,
  planning, candidate_generation, static_validation, critique, ambiguity_probing,
  candidate_selection, rewrite_and_cost_gate, guarded_execution, settle, run_node, route, goto,
}
use gen_ql.Pipeline.Ready.{Ready}
use gen_ql.Pipeline.Leads.{validate_batch-length}
use gen_ql.Pipeline.Measure.{nodes_left, config_left, Decreases}

module _ {F : Type 0} ⦃ops : FloatOps F⦄ (sv : Services F) (t : ℕ) where
  plain-Decreases :
      (before : QueryState F) (n : Node) (r : Result (QueryState F))
      → 0 < nodes_left n before
      → ((s : QueryState F) → r ≡ ok s → Decreases n before (suc t) s)
      → config_left (settle before n t (plain r)) < nodes_left n before
  unfolding settle
  plain-Decreases before n (ok s) p h = h s refl
  plain-Decreases before n (err e) p h = p

  intent-Decreases :
      (s s' : QueryState F)
      → intent_classification_node sv t s ≡ ok s'
      → Decreases intent_classification s (suc t) s'
  unfolding intent_classification_node route goto
  intent-Decreases s s' e =
      let (intent, _, made) = >>=-eq-ok (sv.classify t s.question) _ e in ground arith

  scoping-Decreases :
      (s s' : QueryState F)
      → domain_scoping_node sv t s ≡ ok s'
      → Decreases domain_scoping s (suc t) s'
  unfolding domain_scoping_node route goto
  scoping-Decreases s s' e = ground arith

  linking-Decreases :
      (s s' : QueryState F)
      → schema_linking_node sv t s ≡ ok s'
      → Decreases schema_linking s (suc t) s'
  unfolding schema_linking_node route goto
  linking-Decreases s s' e = ground arith

  gate-Decreases :
      (s s' : QueryState F)
      → ambiguity_gate_node sv t s ≡ ok s'
      → Decreases ambiguity_gate s (suc t) s'
  unfolding ambiguity_gate_node route goto
  gate-Decreases s s' e = ground arith

  planning-Decreases :
      (s s' : QueryState F) → planning_node sv t s ≡ ok s' → Decreases planning s (suc t) s'
  unfolding planning_node route goto
  planning-Decreases s s' e = ground arith

  generation-Decreases :
      (s s' : QueryState F)
      → candidate_generation_node sv t s ≡ ok s'
      → Decreases candidate_generation s (suc t) s'
  unfolding candidate_generation_node route goto
  generation-Decreases s s' e = ground arith

  conclude_validation-Decreases :
      (s s' : QueryState F) (b : List SqlCandidate × List String × List GuardrailViolation)
      → length b.1 ≡ length b.0
      → conclude_validation s b ≡ ok s'
      → Decreases static_validation s (suc t) s'
  unfolding conclude_validation route goto
  conclude_validation-Decreases s s' ([], sqls, []) l e = ground arith
  conclude_validation-Decreases s s' ([], sqls, v ∷ vs) l e = ground arith
  conclude_validation-Decreases s s' (c ∷ cs, [], violations) l e = absurd (omega arith)
  conclude_validation-Decreases s s' (c ∷ cs, q ∷ qs, violations) l e = ground arith

  validation-Decreases :
      (s s' : QueryState F)
      → static_validation_node sv t s ≡ ok s'
      → Decreases static_validation s (suc t) s'
  unfolding static_validation_node
  validation-Decreases s s' e = elim (Bool-cases (is_nonempty s.candidates)) [
    | inl some_left ↦
        let (b, batch, concluded) =
          >>=-eq-ok (validate_batch sv t s.datasource_name s.candidates) _ (rw some_left at e) in
        conclude_validation-Decreases s s' b
          (validate_batch-length sv t s.datasource_name s.candidates batch) concluded
    | inr none_left ↦ absurd (cc (rw none_left at e))
  ]

  conclude_critique-Decreases :
      (s s' : QueryState F) (reports : List (CritiqueReport F))
      → conclude_critique s reports ≡ ok s'
      → Decreases critique s (suc t) s'
  unfolding conclude_critique route goto
  conclude_critique-Decreases s s' reports e = ground arith

  critique-Decreases :
      (s s' : QueryState F) → critique_node sv t s ≡ ok s' → Decreases critique s (suc t) s'
  unfolding critique_node
  critique-Decreases s s' e = elim (Bool-cases (uncontested s)) [
    | inl skipped ↦
        let same : s' ≡ record s { critique_reports = [] } = cc (rw skipped at e) in
        rw same (unfold route goto in omega arith)
    | inr contested ↦
        let (plan, _, e1) = >>=-eq-ok (or_raise s.plan critique_error) _ (rw contested at e) in
        let (reports, _, concluded) =
          >>=-eq-ok (sv.critique t plan s.candidates s.validated_sqls (or_empty s.links)) _ e1 in
        conclude_critique-Decreases s s' reports concluded
  ]

  probing-Decreases :
      (s s' : QueryState F)
      → ambiguity_probing_node sv t s ≡ ok s'
      → Decreases ambiguity_probing s (suc t) s'
  unfolding route goto
  probing-Decreases s s' e = omega arith

  selection-Decreases :
      (s s' : QueryState F)
      → candidate_selection_node sv t s ≡ ok s'
      → Decreases candidate_selection s (suc t) s'
  unfolding route goto
  selection-Decreases s s' e = omega arith

  cost_gate-Decreases :
      (s s' : QueryState F)
      → rewrite_and_cost_gate_node sv t s ≡ ok s'
      → Decreases rewrite_and_cost_gate s (suc t) s'
  unfolding route goto
  cost_gate-Decreases s s' e = ground arith

  execution-Decreases :
      (s s' : QueryState F)
      → guarded_execution_node sv t s ≡ ok s'
      → Decreases guarded_execution s (suc t) s'
  unfolding route goto
  execution-Decreases s s' e = omega arith

  pub interrupt-Decreases :
      (s : QueryState F)
      → Ready ambiguity_interrupt s
      → config_left (settle s ambiguity_interrupt t (ambiguity_interrupt_node none s)) < 1
  unfolding ambiguity_interrupt_node settle
  interrupt-Decreases s h = ground arith

  pub run_node-Decreases :
      (n : Node) (s : QueryState F)
      → Ready n s
      → config_left (settle s n t (run_node sv n t s)) < nodes_left n s
  unfolding run_node
  run_node-Decreases intent_classification s h =
      plain-Decreases s _ _ (omega arith) (λ s' e. intent-Decreases s s' e)
  run_node-Decreases domain_scoping s h =
      plain-Decreases s _ _ (omega arith) (λ s' e. scoping-Decreases s s' e)
  run_node-Decreases schema_linking s h =
      plain-Decreases s _ _ (omega arith) (λ s' e. linking-Decreases s s' e)
  run_node-Decreases ambiguity_gate s h =
      plain-Decreases s _ _ (omega arith) (λ s' e. gate-Decreases s s' e)
  run_node-Decreases ambiguity_interrupt s h = interrupt-Decreases s h
  run_node-Decreases planning s h =
      plain-Decreases s _ _ (omega arith) (λ s' e. planning-Decreases s s' e)
  run_node-Decreases candidate_generation s h =
      plain-Decreases s _ _ (omega arith) (λ s' e. generation-Decreases s s' e)
  run_node-Decreases static_validation s h =
      plain-Decreases s _ _ (omega arith) (λ s' e. validation-Decreases s s' e)
  run_node-Decreases critique s h =
      plain-Decreases s _ _ (omega arith) (λ s' e. critique-Decreases s s' e)
  run_node-Decreases ambiguity_probing s h =
      plain-Decreases s _ _ (omega arith) (λ s' e. probing-Decreases s s' e)
  run_node-Decreases candidate_selection s h =
      plain-Decreases s _ _ (omega arith) (λ s' e. selection-Decreases s s' e)
  run_node-Decreases rewrite_and_cost_gate s h =
      plain-Decreases s _ _ (omega arith) (λ s' e. cost_gate-Decreases s s' e)
  run_node-Decreases guarded_execution s h =
      plain-Decreases s _ _ (omega arith) (λ s' e. execution-Decreases s s' e)
