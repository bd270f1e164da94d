-- ===== src/Pipeline/Leads.antt =====
-- Every node that returns leads to a place whose needs are met.
use gen_ql.Base.{
  ℕ, suc, String, Bool, true, false, Option, none, some, List, [], ◌∷◌, ◌≡◌, refl, length,
  is_nonempty, ◌==◌, eq_iff, Result, ok, err, >>=-eq-ok, FloatOps, arith, optimization_error,
  execution_error, Bool-cases, inl, inr, ◌⊎◌, GuardrailViolation,
}
use gen_ql.Entities.{SqlCandidate, CritiqueReport, OptimizationResult}
use gen_ql.Pipeline.State.{QueryState, Services}
use gen_ql.Pipeline.Nodes.{
  plain, intent_classification_node, domain_scoping_node, schema_linking_node, ambiguity_gate_node,
  ambiguity_interrupt_node, planning_node, candidate_generation_node, static_validation_node,
  critique_node, ambiguity_probing_node, candidate_selection_node, rewrite_and_cost_gate_node,
  guarded_execution_node, validate_batch, conclude_validation, conclude_critique, selection_for,
  verdict_of, collect, or_raise, or_empty, swallow, record_actuals,
}
use gen_ql.Pipeline.Graph.{
  Node, intent_classification, domain_scoping, schema_linking, ambiguity_gate, ambiguity_interrupt,
  planning, candidate_generation, static_validation, critique, ambiguity_probing,
  candidate_selection, rewrite_and_cost_gate, guarded_execution, settle, run_node, route, goto,
}
use gen_ql.Pipeline.Ready.{Ready, IsSound}

module _ {F : Type 0} ⦃ops : FloatOps F⦄ (sv : Services F) (t : ℕ) where
  -- A node that returns leads to a sound place.
  abbrev Leads : Node → QueryState F → Type 0
  Leads n s = IsSound (goto (route n s) s (suc t))

  plain-IsSound :
      (before : QueryState F) (n : Node) (r : Result (QueryState F))
      → ((s : QueryState F) → r ≡ ok s → Leads n s)
      → IsSound (settle before n t (plain r))
  unfolding settle
  plain-IsSound before n (ok s) h = h s refl
  plain-IsSound before n (err e) h = tt

  intent-Leads :
      (s : QueryState F) {s' : QueryState F}
      → Ready intent_classification s
      → intent_classification_node sv t s ≡ ok s'
      → Leads intent_classification s'
  unfolding intent_classification_node route goto
  intent-Leads s {s'} h e =
      let (intent, _, made) = >>=-eq-ok (sv.classify t s.question) _ e in
      elim (Bool-cases (intent == "analytical_sql")) [
        | inl analytical ↦ ground (arith, eq_iff intent "analytical_sql")
        | inr other ↦ ground (arith, eq_iff intent "analytical_sql")
      ]

  scoping-Leads :
      (s : QueryState F) {s' : QueryState F}
      → Ready domain_scoping s
      → domain_scoping_node sv t s ≡ ok s'
      → Leads domain_scoping s'
  unfolding domain_scoping_node route goto
  scoping-Leads s h e = ground arith

  linking-Leads :
      (s : QueryState F) {s' : QueryState F}
      → Ready schema_linking s
      → schema_linking_node sv t s ≡ ok s'
      → Leads schema_linking s'
  unfolding schema_linking_node route goto
  linking-Leads s h e = ground arith

  gate-Leads :
      (s : QueryState F) {s' : QueryState F}
      → Ready ambiguity_gate s
      → ambiguity_gate_node sv t s ≡ ok s'
      → Leads ambiguity_gate s'
  unfolding ambiguity_gate_node route goto
  gate-Leads s h e = ground arith

  planning-Leads :
      (s : QueryState F) {s' : QueryState F}
      → Ready planning s
      → planning_node sv t s ≡ ok s'
      → Leads planning s'
  unfolding planning_node route goto
  planning-Leads s h e = ground arith

  generation-Leads :
      (s : QueryState F) {s' : QueryState F}
      → Ready candidate_generation s
      → candidate_generation_node sv t s ≡ ok s'
      → Leads candidate_generation s'
  unfolding candidate_generation_node route goto
  generation-Leads s h e = ground arith

  pub interrupt-IsSound :
      (answer : Option String) (s : QueryState F)
      → Ready ambiguity_interrupt s
      → IsSound (settle s ambiguity_interrupt t (ambiguity_interrupt_node answer s))
  unfolding ambiguity_interrupt_node settle route goto
  interrupt-IsSound answer s h = ground arith

  -- Every survivor has its statement.
  collect-length :
      (c : SqlCandidate) (verdict : String ⊎ List GuardrailViolation)
      (b : List SqlCandidate × List String × List GuardrailViolation)
      → length b.1 ≡ length b.0
      → length (collect c verdict b).1 ≡ length (collect c verdict b).0
  collect-length c (inl sql) b h = omega arith
  collect-length c (inr vs) b h = h

  pub validate_batch-length :
      (datasource : String) (cs : List SqlCandidate)
      {b : List SqlCandidate × List String × List GuardrailViolation}
      → validate_batch sv t datasource cs ≡ ok b
      → length b.1 ≡ length b.0
  unfolding validate_batch
  validate_batch-length datasource [] e = ground arith
  validate_batch-length datasource (c ∷ cs) {b} e =
      let (verdict, _, rest) = >>=-eq-ok (verdict_of (sv.validate t c datasource)) _ e in
      let (b', batch, made) = >>=-eq-ok (validate_batch sv t datasource cs) _ rest in
      let same : b ≡ collect c verdict b' = cc in
      rw same (collect-length c verdict b' (validate_batch-length datasource cs batch))

  conclude_validation-Leads :
      (s : QueryState F) (b : List SqlCandidate × List String × List GuardrailViolation)
      {s' : QueryState F}
      → Ready static_validation s
      → length b.1 ≡ length b.0
      → conclude_validation s b ≡ ok s'
      → Leads static_validation s'
  unfolding conclude_validation route goto
  conclude_validation-Leads s ([], sqls, violations) h l e = ground arith
  conclude_validation-Leads s (c ∷ cs, [], violations) h l e = absurd (omega arith)
  conclude_validation-Leads s (c ∷ cs, q ∷ qs, violations) h l e = ground arith

  conclude_critique-Leads :
      (s : QueryState F) (reports : List (CritiqueReport F)) {s' : QueryState F}
      → Ready critique s
      → conclude_critique s reports ≡ ok s'
      → Leads critique s'
  unfolding conclude_critique route goto
  conclude_critique-Leads s reports h e = ground arith

  critique-Leads :
      (s : QueryState F) {s' : QueryState F}
      → Ready critique s
      → critique_node sv t s ≡ ok s'
      → Leads critique s'
  unfolding critique_node conclude_critique route goto
  critique-Leads s h e = ground arith

  probing-Leads :
      (s : QueryState F) {s' : QueryState F}
      → Ready ambiguity_probing s
      → ambiguity_probing_node sv t s ≡ ok s'
      → Leads ambiguity_probing s'
  unfolding ambiguity_probing_node route goto
  probing-Leads s h e = ground arith

  selection-Leads :
      (s : QueryState F) {s' : QueryState F}
      → Ready candidate_selection s
      → candidate_selection_node sv t s ≡ ok s'
      → Leads candidate_selection s'
  unfolding candidate_selection_node route goto
  selection-Leads s {s'} h e =
      let (selection, _, made) = >>=-eq-ok (selection_for sv t s) _ e in ground arith

  judged-Leads :
      (s : QueryState F) (o : OptimizationResult F) (within : Bool)
      → o.within_budget ≡ within
      → Ready rewrite_and_cost_gate s
      → Leads rewrite_and_cost_gate (record s { optimization = some o; validated_sql = some o.sql })
  unfolding route goto
  judged-Leads s o true e h = simp e (h.0, h.2, h.3, (o, refl, e, refl))
  judged-Leads s o false e h = simp e (inr (inl (h.0, h.2, (o, refl, e, refl))))

  cost_gate-Leads :
      (s : QueryState F) {s' : QueryState F}
      → Ready rewrite_and_cost_gate s
      → rewrite_and_cost_gate_node sv t s ≡ ok s'
      → Leads rewrite_and_cost_gate s'
  unfolding rewrite_and_cost_gate_node
  cost_gate-Leads s {s'} h e =
      let (selection, _, e1) = >>=-eq-ok (or_raise s.selection optimization_error) _ e in
      let (plan, _, e2) = >>=-eq-ok (or_raise s.plan optimization_error) _ e1 in
      let (o, _, made) =
        >>=-eq-ok (sv.optimize t plan selection.selected_sql (or_empty s.links) s.datasource_name) _
          e2 in
      let same : s' ≡ record s { optimization = some o; validated_sql = some o.sql } = cc in
      rw same (judged-Leads s o o.within_budget refl h)

  pub swallow-eq : {A : Type 0} (r : Result (Unit {0})) (a : A) → swallow r a ≡ a
  swallow-eq (ok x) a = refl
  swallow-eq (err e) a = refl

  execution-Leads :
      (s : QueryState F) {s' : QueryState F}
      → Ready guarded_execution s
      → guarded_execution_node sv t s ≡ ok s'
      → Leads guarded_execution s'
  unfolding guarded_execution_node route goto
  execution-Leads s {s'} h e =
      let (sql, _, e1) = >>=-eq-ok (or_raise s.validated_sql execution_error) _ e in
      let (result, _, made) = >>=-eq-ok (sv.execute t sql s.datasource_name) _ e1 in
      let same : s' ≡ record s { result = some result } =
        cc (swallow-eq (record_actuals sv t sql s) (record s { result = some result })) in
      rw same (inr (inr (h.0, refl, h.3)))

  validation-Leads :
      (s : QueryState F) {s' : QueryState F}
      → Ready static_validation s
      → static_validation_node sv t s ≡ ok s'
      → Leads static_validation s'
  unfolding static_validation_node
  validation-Leads s h e = elim (Bool-cases (is_nonempty s.candidates)) [
    | inl some_left ↦
        let (b, batch, concluded) =
          >>=-eq-ok (validate_batch sv t s.datasource_name s.candidates) _ (rw some_left at e) in
        conclude_validation-Leads s b h (validate_batch-length s.datasource_name s.candidates batch)
          concluded
    | inr none_left ↦ absurd (cc (rw none_left at e))
  ]

  pub run_node-IsSound :
      (n : Node) (s : QueryState F) → Ready n s → IsSound (settle s n t (run_node sv n t s))
  unfolding run_node
  run_node-IsSound intent_classification s h = plain-IsSound s _ _ (λ s' e. intent-Leads s h e)
  run_node-IsSound domain_scoping s h = plain-IsSound s _ _ (λ s' e. scoping-Leads s h e)
  run_node-IsSound schema_linking s h = plain-IsSound s _ _ (λ s' e. linking-Leads s h e)
  run_node-IsSound ambiguity_gate s h = plain-IsSound s _ _ (λ s' e. gate-Leads s h e)
  run_node-IsSound ambiguity_interrupt s h = interrupt-IsSound none s h
  run_node-IsSound planning s h = plain-IsSound s _ _ (λ s' e. planning-Leads s h e)
  run_node-IsSound candidate_generation s h = plain-IsSound s _ _ (λ s' e. generation-Leads s h e)
  run_node-IsSound static_validation s h = plain-IsSound s _ _ (λ s' e. validation-Leads s h e)
  run_node-IsSound critique s h = plain-IsSound s _ _ (λ s' e. critique-Leads s h e)
  run_node-IsSound ambiguity_probing s h = plain-IsSound s _ _ (λ s' e. probing-Leads s h e)
  run_node-IsSound candidate_selection s h = plain-IsSound s _ _ (λ s' e. selection-Leads s h e)
  run_node-IsSound rewrite_and_cost_gate s h = plain-IsSound s _ _ (λ s' e. cost_gate-Leads s h e)
  run_node-IsSound guarded_execution s h = plain-IsSound s _ _ (λ s' e. execution-Leads s h e)
