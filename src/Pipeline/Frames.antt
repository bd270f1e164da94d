-- ===== src/Pipeline/Frames.antt =====
-- A node changes the keys that it returns and no other: merging what it returned into the state
-- before it gives the state after it (genql/api/query_nodes.py and its neighbours).
use gen_ql.Base.{
  ℕ, String, Option, none, some, List, ◌≡◌, refl, is_nonempty, Result, err, ok, >>=-eq-ok, FloatOps,
  arith, execution_error, Bool-cases, inl, inr, GuardrailViolation,
}
use gen_ql.Entities.{SqlCandidate, CritiqueReport}
use gen_ql.Pipeline.State.{QueryState, Services}
use gen_ql.Pipeline.Nodes.{
  returned, plain, intent_classification_node, domain_scoping_node, schema_linking_node,
  ambiguity_gate_node, ambiguity_interrupt_node, interrupt_for, interrupt_ask, planning_node,
  candidate_generation_node, static_validation_node, critique_node, ambiguity_probing_node,
  candidate_selection_node, rewrite_and_cost_gate_node, guarded_execution_node, validate_batch,
  conclude_validation, conclude_critique, selection_for, or_raise, record_actuals,
}
use gen_ql.Pipeline.Graph.{
  Node, intent_classification, domain_scoping, schema_linking, ambiguity_gate, ambiguity_interrupt,
  planning, candidate_generation, static_validation, critique, ambiguity_probing,
  candidate_selection, rewrite_and_cost_gate, guarded_execution, run_node,
}
use gen_ql.Pipeline.Leads.{swallow-eq}
use gen_ql.Pipeline.Delta.{merge_delta, delta_of}

pub plain-returned : {A : Type 0} {a : A} (call : Result A) → plain call ≡ returned a → call ≡ ok a
plain-returned (ok a) e = cc
plain-returned (err x) e = cc

module _ {F : Type 0} where
  abbrev Framed : Node → QueryState F → QueryState F → Type 0
  Framed n s s' = merge_delta (delta_of n s s') s ≡ s'

  pub interrupt-Framed :
      (answer : Option String) (s s' : QueryState F)
      → ambiguity_interrupt_node answer s ≡ returned s'
      → Framed ambiguity_interrupt s s'
  unfolding ambiguity_interrupt_node interrupt_for interrupt_ask
  interrupt-Framed answer s s' e = ground arith

module _ {F : Type 0} ⦃ops : FloatOps F⦄ (sv : Services F) (t : ℕ) (s s' : QueryState F) where
  intent-Framed : intent_classification_node sv t s ≡ ok s' → Framed intent_classification s s'
  unfolding intent_classification_node
  intent-Framed e = ground arith

  scoping-Framed : domain_scoping_node sv t s ≡ ok s' → Framed domain_scoping s s'
  unfolding domain_scoping_node
  scoping-Framed e = ground arith

  linking-Framed : schema_linking_node sv t s ≡ ok s' → Framed schema_linking s s'
  unfolding schema_linking_node
  linking-Framed e = ground arith

  gate-Framed : ambiguity_gate_node sv t s ≡ ok s' → Framed ambiguity_gate s s'
  unfolding ambiguity_gate_node
  gate-Framed e = ground arith

  planning-Framed : planning_node sv t s ≡ ok s' → Framed planning s s'
  unfolding planning_node
  planning-Framed e = ground arith

  generation-Framed : candidate_generation_node sv t s ≡ ok s' → Framed candidate_generation s s'
  unfolding candidate_generation_node
  generation-Framed e = ground arith

  conclude_validation-Framed :
      (b : List SqlCandidate × List String × List GuardrailViolation)
      → conclude_validation s b ≡ ok s'
      → Framed static_validation s s'
  unfolding conclude_validation
  conclude_validation-Framed b e = ground arith

  conclude_critique-Framed :
      (reports : List (CritiqueReport F))
      → conclude_critique s reports ≡ ok s'
      → Framed critique s s'
  unfolding conclude_critique
  conclude_critique-Framed reports e = ground arith

  probing-Framed : ambiguity_probing_node sv t s ≡ ok s' → Framed ambiguity_probing s s'
  unfolding ambiguity_probing_node
  probing-Framed e = ground arith

  validation-Framed : static_validation_node sv t s ≡ ok s' → Framed static_validation s s'
  unfolding static_validation_node
  validation-Framed e = elim (Bool-cases (is_nonempty s.candidates)) [
    | inl some_left ↦
        let (b, _, concluded) =
          >>=-eq-ok (validate_batch sv t s.datasource_name s.candidates) _ (rw some_left at e) in
        conclude_validation-Framed b concluded
    | inr none_left ↦ absurd (cc (rw none_left at e))
  ]

  critique-Framed : critique_node sv t s ≡ ok s' → Framed critique s s'
  unfolding critique_node conclude_critique
  critique-Framed e = ground arith

  selection-Framed : candidate_selection_node sv t s ≡ ok s' → Framed candidate_selection s s'
  unfolding candidate_selection_node
  selection-Framed e =
      let (selection, _, made) = >>=-eq-ok (selection_for sv t s) _ e in ground arith

  cost_gate-Framed : rewrite_and_cost_gate_node sv t s ≡ ok s' → Framed rewrite_and_cost_gate s s'
  unfolding rewrite_and_cost_gate_node
  cost_gate-Framed e = ground arith

  execution-Framed : guarded_execution_node sv t s ≡ ok s' → Framed guarded_execution s s'
  unfolding guarded_execution_node
  execution-Framed e =
      let (sql, _, e1) = >>=-eq-ok (or_raise s.validated_sql execution_error) _ e in
      let (result, _, made) = >>=-eq-ok (sv.execute t sql s.datasource_name) _ e1 in
      let same : s' ≡ record s { result = some result } =
        cc (swallow-eq sv t (record_actuals sv t sql s) (record s { result = some result })) in
      rw same refl

  -- Whatever the services answer, a node that returns has changed the keys of its delta and no
  -- other: merging the delta into the state before gives the state after.
  pub run_node-Framed :
      (n : Node) → run_node sv n t s ≡ returned s' → merge_delta (delta_of n s s') s ≡ s'
  unfolding run_node
  run_node-Framed intent_classification e = intent-Framed (plain-returned _ e)
  run_node-Framed domain_scoping e = scoping-Framed (plain-returned _ e)
  run_node-Framed schema_linking e = linking-Framed (plain-returned _ e)
  run_node-Framed ambiguity_gate e = gate-Framed (plain-returned _ e)
  run_node-Framed ambiguity_interrupt e = interrupt-Framed none s s' e
  run_node-Framed planning e = planning-Framed (plain-returned _ e)
  run_node-Framed candidate_generation e = generation-Framed (plain-returned _ e)
  run_node-Framed static_validation e = validation-Framed (plain-returned _ e)
  run_node-Framed critique e = critique-Framed (plain-returned _ e)
  run_node-Framed ambiguity_probing e = probing-Framed (plain-returned _ e)
  run_node-Framed candidate_selection e = selection-Framed (plain-returned _ e)
  run_node-Framed rewrite_and_cost_gate e = cost_gate-Framed (plain-returned _ e)
  run_node-Framed guarded_execution e = execution-Framed (plain-returned _ e)
