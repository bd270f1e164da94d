-- ===== src/Pipeline/Provenance.antt =====
-- Where the statement comes from that a turn runs (genql/api/query_graph.py and its nodes).
use gen_ql.Base.{
  ℕ, ℤ, pos, negsuc, zero, suc, String, Bool, true, false, Option, none, some, List, [], ◌∷◌, ◌-◌,
  ◌≡◌, ◌⊎◌, inl, inr, refl, sym, subst, ap, ◌∙◌, arith, All, Elem, Elem-All, Bool-cases, get_elem?,
  index, ltb, length, is_some, is_nonempty, Result, ok, err, >>=-eq-ok, FloatOps,
  optimization_error, if◌then◌else◌, GuardrailViolation, Error, static_validation_error,
}
use gen_ql.Entities.{SqlCandidate, CandidateSelection, OptimizationResult, QueryPlan, SchemaLink}
use gen_ql.Selection.{or_index_error}
use gen_ql.Selection.Choice.{select-Aligned}
use gen_ql.Pipeline.State.{QueryState, Services}
use gen_ql.Pipeline.Nodes.{
  returned, validate_batch, conclude_validation, static_validation_node, selection_for,
  candidate_selection_node, rewrite_and_cost_gate_node, or_raise, or_empty, uncontested, collect,
  verdict_of,
}
use gen_ql.Pipeline.Graph.{
  Node, domain_scoping, ambiguity_interrupt, static_validation, candidate_selection,
  rewrite_and_cost_gate, Config, at, ended, waiting, failed, run_node,
}
use gen_ql.Pipeline.Ready.{says_ambiguous}
use gen_ql.Pipeline.Delta.{Delta, no_keys, delta_of, merge_delta}
use gen_ql.Pipeline.Frames.{plain-returned, run_node-Framed}

module _ {F : Type 0} (sv : Services F) where
  -- The validation returned this statement, for some candidate and at some time.
  abbrev pub Validated : String → String → Type 0
  Validated datasource sql = (t : ℕ) × (c : SqlCandidate) × (sv.validate t c datasource ≡ ok sql)

  -- The cost gate returned this result for a validated statement.
  abbrev pub Costed : String → OptimizationResult F → Type 0
  Costed datasource o =
      (sql : String) × (t : ℕ) × (plan : QueryPlan) × (links : List SchemaLink) × (sv.optimize t
          plan sql links datasource
        ≡ ok o)
      × Validated datasource sql

  abbrev pub HasProvenance : QueryState F → Type 0
  HasProvenance s =
      All (Validated s.datasource_name) s.validated_sqls
      × ((c : CandidateSelection)
          → s.selection ≡ some c
          → Validated s.datasource_name c.selected_sql)
      × ((o : OptimizationResult F) → s.optimization ≡ some o → Costed s.datasource_name o)

  abbrev pub IsTraced : Config F → Type 0
  IsTraced (at n s t) = HasProvenance s
  IsTraced (ended s) = HasProvenance s
  IsTraced (waiting s t p) = HasProvenance s
  IsTraced (failed e) = Unit

-- The nodes that write a statement.
abbrev writes_sql : Node → Bool
writes_sql static_validation = true
writes_sql candidate_selection = true
writes_sql rewrite_and_cost_gate = true
writes_sql _ = false

get_elem?-Elem : (xs : List String) (i : ℕ) (x : String) → get_elem? xs i ≡ some x → Elem x xs
get_elem?-Elem [] i x h = absurd (cc)
get_elem?-Elem (y ∷ ys) zero x h = inl (cc)
get_elem?-Elem (y ∷ ys) (suc i) x h = inr (get_elem?-Elem ys i x h)

index-Elem : (xs : List String) (i : ℤ) (x : String) → index xs i ≡ some x → Elem x xs
index-Elem xs (pos n) x h = get_elem?-Elem xs n x h
index-Elem xs (negsuc n) x h = elim (Bool-cases (ltb n (length xs))) [
  | inl inside ↦ get_elem?-Elem xs (length xs - suc n) x (rw inside at h)
  | inr outside ↦ absurd (cc (rw outside at h))
]

pub ok-eq : {A : Type 0} {a b : A} → ok a ≡ ok b → a ≡ b
ok-eq h = cc

pub some-eq : {A : Type 0} {a b : A} → some a ≡ some b → a ≡ b
some-eq h = cc

pub or_raise-eq : {A : Type 0} (o : Option A) (e : Error) (a : A) → or_raise o e ≡ ok a → o ≡ some a
or_raise-eq none e a h = absurd (cc)
or_raise-eq (some x) e a h = ap some (ok-eq h)

or_index_error-eq : {A : Type 0} (o : Option A) (a : A) → or_index_error o ≡ ok a → o ≡ some a
or_index_error-eq none a h = absurd (cc)
or_index_error-eq (some x) a h = ap some (ok-eq h)

verdict_of-eq : (r : Result String) (sql : String) → verdict_of r ≡ ok (inl sql) → r ≡ ok sql
verdict_of-eq (ok x) sql h = cc
verdict_of-eq (err (static_validation_error vs)) sql h = absurd (cc)
verdict_of-eq (err e) sql h = absurd (cc)

module _ {F : Type 0} ⦃ops : FloatOps F⦄ (sv : Services F) where
  either-HasProvenance :
      (b : Bool) (d d' : Delta F) (s : QueryState F)
      → HasProvenance sv (merge_delta d s)
      → HasProvenance sv (merge_delta d' s)
      → HasProvenance sv (merge_delta (if b then d else d') s)
  either-HasProvenance true d d' s h h' = h
  either-HasProvenance false d d' s h h' = h'

  pub frame-HasProvenance :
      (n : Node) (s s' : QueryState F)
      → writes_sql n ≡ false
      → HasProvenance sv s
      → HasProvenance sv (merge_delta (delta_of n s s') s)
  frame-HasProvenance static_validation s s' w h = cc
  frame-HasProvenance candidate_selection s s' w h = cc
  frame-HasProvenance rewrite_and_cost_gate s s' w h = cc
  frame-HasProvenance domain_scoping s s' w h =
      either-HasProvenance (is_some s.domain_id) no_keys
        (record no_keys { domain_id = some s'.domain_id }) s h h
  frame-HasProvenance ambiguity_interrupt s s' w h =
      either-HasProvenance (says_ambiguous s.ambiguity)
        (record no_keys { clarifications = some s'.clarifications }) no_keys s h h
  frame-HasProvenance n s s' w h = h

  collect-Validated :
      (datasource : String) (t : ℕ) (c : SqlCandidate) (v : String ⊎ List GuardrailViolation)
      (rest : List SqlCandidate × List String × List GuardrailViolation)
      → verdict_of (sv.validate t c datasource) ≡ ok v
      → All (Validated sv datasource) rest.1
      → All (Validated sv datasource) (collect c v rest).1
  collect-Validated datasource t c (inl sql) rest e h =
      ((t, c, verdict_of-eq (sv.validate t c datasource) sql e), h)
  collect-Validated datasource t c (inr vs) rest e h = h

  batch-Validated :
      (t : ℕ) (datasource : String) (cs : List SqlCandidate)
      (b : List SqlCandidate × List String × List GuardrailViolation)
      → validate_batch sv t datasource cs ≡ ok b
      → All (Validated sv datasource) b.1
  unfolding validate_batch
  batch-Validated t datasource [] b h = let made : b ≡ ([], [], []) = sym (ok-eq h) in rw made tt
  batch-Validated t datasource (c ∷ cs) b h =
      let (v, verdict, h1) = >>=-eq-ok (verdict_of (sv.validate t c datasource)) _ h in
      let (rest, made, last) = >>=-eq-ok (validate_batch sv t datasource cs) _ h1 in
      subst (λ x. All (Validated sv datasource) x.1) (ok-eq last)
        (collect-Validated datasource t c v rest verdict
          (batch-Validated t datasource cs rest made))

  conclude-sqls :
      (s s' : QueryState F) (b : List SqlCandidate × List String × List GuardrailViolation)
      → conclude_validation s b ≡ ok s'
      → ((s'.validated_sqls ≡ b.1) ⊎ (s'.validated_sqls ≡ []))
        × (s'.selection ≡ s.selection)
        × (s'.optimization ≡ s.optimization)
        × (s'.datasource_name ≡ s.datasource_name)
  unfolding conclude_validation
  conclude-sqls s s' b h = ground arith

  validation-HasProvenance :
      (t : ℕ) (s s' : QueryState F)
      → static_validation_node sv t s ≡ ok s'
      → HasProvenance sv s
      → HasProvenance sv s'
  unfolding static_validation_node
  validation-HasProvenance t s s' e (ps, pc, po) = elim (Bool-cases (is_nonempty s.candidates)) [
    | inl some_left ↦
        let (b, made, concluded) =
          >>=-eq-ok (validate_batch sv t s.datasource_name s.candidates) _ (rw some_left at e) in
        let (sqls, selection, optimization, same) = conclude-sqls s s' b concluded in
        let validated : All (Validated sv s.datasource_name) s'.validated_sqls = elim sqls [
          | inl kept ↦ rw kept (batch-Validated t s.datasource_name s.candidates b made)
          | inr reset ↦ rw reset tt
        ] in
        (
          subst (λ d. All (Validated sv d) s'.validated_sqls) (sym same) validated,
          λ c h. subst (λ d. Validated sv d c.selected_sql) (sym same) (pc c (sym selection ∙ h)),
          λ o h. subst (λ d. Costed sv d o) (sym same) (po o (sym optimization ∙ h)),
        )
    | inr none_left ↦ absurd (cc (rw none_left at e))
  ]

  selection_for-Elem :
      (t : ℕ) (s : QueryState F) (c : CandidateSelection)
      → selection_for sv t s ≡ ok c
      → Elem c.selected_sql s.validated_sqls
  unfolding selection_for
  selection_for-Elem t s c e = elim (Bool-cases (uncontested s)) [
    | inl alone ↦
        let (selected, _, e1) =
          >>=-eq-ok (or_index_error (get_elem? s.candidates 0)) _ (rw alone at e) in
        let (sql, read, last) = >>=-eq-ok (or_index_error (get_elem? s.validated_sqls 0)) _ e1 in
        subst (λ x. Elem x.selected_sql s.validated_sqls) (ok-eq last)
          (get_elem?-Elem s.validated_sqls 0 sql (or_index_error-eq _ sql read))
    | inr contested ↦
        let (i, _, read) =
          select-Aligned s.candidates s.validated_sqls s.critique_reports s.probe_results
            (rw contested at e) in
        index-Elem s.validated_sqls i c.selected_sql read
  ]

  selection-HasProvenance :
      (t : ℕ) (s s' : QueryState F)
      → candidate_selection_node sv t s ≡ ok s'
      → HasProvenance sv s
      → HasProvenance sv s'
  unfolding candidate_selection_node
  selection-HasProvenance t s s' e (ps, pc, po) =
      let (c, selected, made) = >>=-eq-ok (selection_for sv t s) _ e in
      subst (HasProvenance sv) (ok-eq made) (
        ps,
        λ d same.
            subst (λ x. Validated sv s.datasource_name x.selected_sql) (some-eq same)
              (Elem-All (Validated sv s.datasource_name) c.selected_sql s.validated_sqls
                (selection_for-Elem t s c selected) ps),
        po,
      )

  cost_gate-HasProvenance :
      (t : ℕ) (s s' : QueryState F)
      → rewrite_and_cost_gate_node sv t s ≡ ok s'
      → HasProvenance sv s
      → HasProvenance sv s'
  unfolding rewrite_and_cost_gate_node
  cost_gate-HasProvenance t s s' e (ps, pc, po) =
      let (c, is_c, e1) = >>=-eq-ok (or_raise s.selection optimization_error) _ e in
      let (plan, _, e2) = >>=-eq-ok (or_raise s.plan optimization_error) _ e1 in
      let (o, optimized, made) =
        >>=-eq-ok (sv.optimize t plan c.selected_sql (or_empty s.links) s.datasource_name) _ e2 in
      subst (HasProvenance sv) (ok-eq made) (
        ps,
        pc,
        λ d same.
            subst (Costed sv s.datasource_name) (some-eq same)
              (c.selected_sql, t, plan, or_empty s.links, optimized, pc c (or_raise-eq _ _ c is_c)),
      )

  pub run_node-HasProvenance :
      (n : Node) (t : ℕ) (s s' : QueryState F)
      → run_node sv n t s ≡ returned s'
      → HasProvenance sv s
      → HasProvenance sv s'
  unfolding run_node
  run_node-HasProvenance static_validation t s s' e h =
      validation-HasProvenance t s s' (plain-returned _ e) h
  run_node-HasProvenance candidate_selection t s s' e h =
      selection-HasProvenance t s s' (plain-returned _ e) h
  run_node-HasProvenance rewrite_and_cost_gate t s s' e h =
      cost_gate-HasProvenance t s s' (plain-returned _ e) h
  run_node-HasProvenance n t s s' e h =
      subst (HasProvenance sv) (run_node-Framed sv t s s' n e) (frame-HasProvenance n s s' refl h)
