-- ===== src/Pipeline/Answers.antt =====
-- The answers that a state holds, and the nodes that keep them (genql/api/query_nodes.py and its
-- neighbours).
use gen_ql.Base.{
  ℕ, ◌+◌, String, Bool, true, false, Option, none, some, List, [], ◌∷◌, ◌++◌, ◌≡◌, ◌≤◌, refl,
  length, length-append, leb, is_nonempty, Result, ok, >>=-eq-ok, FloatOps, arith,
  optimization_error, execution_error, Bool-cases, inl, inr, Elem,
}
use gen_ql.Base.{GuardrailViolation}
use gen_ql.Entities.{AmbiguityAssessment, Rule, SqlCandidate}
use gen_ql.Gate.{defaults_of, open_dimensions, spent}
use gen_ql.Pipeline.State.{QueryState, Services}
use gen_ql.Pipeline.Nodes.{
  planning_node, candidate_generation_node, static_validation_node, critique_node,
  ambiguity_probing_node, candidate_selection_node, rewrite_and_cost_gate_node,
  guarded_execution_node, validate_batch, conclude_validation, conclude_critique, selection_for,
  or_raise, or_empty, record_actuals,
}
use gen_ql.Pipeline.Graph.{
  Node, intent_classification, domain_scoping, schema_linking, ambiguity_gate, ambiguity_interrupt,
  route, goto, Config, at, ended, waiting, failed,
}
use gen_ql.Pipeline.Leads.{swallow-eq}

-- So many answers are within the budget, if there is one.
abbrev pub fits : Option ℕ → ℕ → Bool
fits none n = true
fits (some m) n = leb n m

pub fits-spent :
    (limit : Option ℕ) (answers : List (String × String)) (answer : String × String)
    → spent limit answers ≡ false
    → fits limit (length (answers ++ answer ∷ [])) ≡ true
fits-spent none answers answer h = refl
fits-spent (some m) answers answer h = ground (arith, length-append answers (answer ∷ []))

pub nil-Few :
    (limit : Option ℕ) (answers : List (String × String))
    → answers ≡ []
    → (length answers ≤ 6) × (fits limit (length answers) ≡ true)
nil-Few none answers h = (rw h omega arith, refl)
nil-Few (some m) answers h = (rw h omega arith, rw h (ground arith))

pub length-pos : (d : String) (ds : List String) → Elem d ds → 1 ≤ length ds
length-pos d [] m = absurd m
length-pos d (k ∷ ks) m = omega arith

-- The nodes from the planning on.
abbrev pub is_late : Node → Bool
is_late intent_classification = false
is_late domain_scoping = false
is_late schema_linking = false
is_late ambiguity_gate = false
is_late ambiguity_interrupt = false
is_late _ = true

module _ {F : Type 0} (rules : String → List Rule) (limit : Option ℕ) where
  abbrev pub open_of : QueryState F → List String
  open_of s =
      open_dimensions (defaults_of (rules s.datasource_name)) s.clarifications (or_empty s.links)

  -- At most six answers, and no more than the budget.
  abbrev pub Few : QueryState F → Type 0
  Few s = (length s.clarifications ≤ 6) × (fits limit (length s.clarifications) ≡ true)

  -- The answers and the open dimensions together are at most six.
  abbrev pub Room : QueryState F → Type 0
  Room s =
      (length s.clarifications + length (open_of s) ≤ 6)
      × (fits limit (length s.clarifications) ≡ true)

  -- The pending question is about an open dimension, and within the budget.
  abbrev pub Pending : QueryState F → Type 0
  Pending s =
      Room s
      × (spent limit s.clarifications ≡ false)
      × ((a : AmbiguityAssessment F) × (d : String) × (s.ambiguity ≡ some a)
          × (a.missing_dimension ≡ some d)
          × Elem d (open_of s))

  abbrev pub Asked : Node → QueryState F → Type 0
  Asked intent_classification s = s.clarifications ≡ []
  Asked domain_scoping s = s.clarifications ≡ []
  Asked schema_linking s = s.clarifications ≡ []
  Asked ambiguity_gate s = Room s
  Asked ambiguity_interrupt s = Pending s
  Asked _ s = Few s

  abbrev pub Bounded : Config F → Type 0
  Bounded (at n s t) = Asked n s
  Bounded (ended s) = Few s
  Bounded (waiting s t p) = Pending s
  Bounded (failed e) = Unit

  -- What a thread has asked so far.
  pub Bounded-Few : (n : Node) (s : QueryState F) → Asked n s → Few s
  Bounded-Few intent_classification s h = nil-Few limit s.clarifications h
  Bounded-Few domain_scoping s h = nil-Few limit s.clarifications h
  Bounded-Few schema_linking s h = nil-Few limit s.clarifications h
  Bounded-Few n s h = ground arith

  pub Few-Bounded :
      (n : Node) (s : QueryState F) (t : ℕ)
      → is_late n ≡ true
      → Few s
      → Bounded (goto (route n s) s t)
  unfolding goto route
  Few-Bounded intent_classification s t l h = cc
  Few-Bounded domain_scoping s t l h = cc
  Few-Bounded schema_linking s t l h = cc
  Few-Bounded ambiguity_gate s t l h = cc
  Few-Bounded ambiguity_interrupt s t l h = cc
  Few-Bounded n s t l h = ground arith

module _ {F : Type 0} ⦃ops : FloatOps F⦄ (sv : Services F) (t : ℕ) where
  -- A node that keeps the answers.
  abbrev pub Keeps : Result (QueryState F) → QueryState F → Type 0
  Keeps r s = (s' : QueryState F) → r ≡ ok s' → s'.clarifications ≡ s.clarifications

  pub conclude_validation-Keeps :
      (s : QueryState F) (b : List SqlCandidate × List String × List GuardrailViolation)
      → Keeps (conclude_validation s b) s
  unfolding conclude_validation
  conclude_validation-Keeps s b s' e = ground arith

  pub validation-Keeps : (s : QueryState F) → Keeps (static_validation_node sv t s) s
  unfolding static_validation_node
  validation-Keeps s s' e = elim (Bool-cases (is_nonempty s.candidates)) [
    | inl some_left ↦
        let (b, batch, concluded) =
          >>=-eq-ok (validate_batch sv t s.datasource_name s.candidates) _ (rw some_left at e) in
        conclude_validation-Keeps s b s' concluded
    | inr none_left ↦ absurd (cc (rw none_left at e))
  ]

  pub execution-Keeps : (s : QueryState F) → Keeps (guarded_execution_node sv t s) s
  unfolding guarded_execution_node
  execution-Keeps s s' e =
      let (sql, _, e1) = >>=-eq-ok (or_raise s.validated_sql execution_error) _ e in
      let (result, _, made) = >>=-eq-ok (sv.execute t sql s.datasource_name) _ e1 in
      let same : s' ≡ record s { result = some result } =
        cc (swallow-eq sv t (record_actuals sv t sql s) (record s { result = some result })) in
      rw same refl

  pub planning-Keeps : (s : QueryState F) → Keeps (planning_node sv t s) s
  unfolding planning_node
  planning-Keeps s s' e = ground arith

  pub generation-Keeps : (s : QueryState F) → Keeps (candidate_generation_node sv t s) s
  unfolding candidate_generation_node
  generation-Keeps s s' e = ground arith

  pub critique-Keeps : (s : QueryState F) → Keeps (critique_node sv t s) s
  unfolding critique_node conclude_critique
  critique-Keeps s s' e = ground arith

  pub probing-Keeps : (s : QueryState F) → Keeps (ambiguity_probing_node sv t s) s
  unfolding ambiguity_probing_node
  probing-Keeps s s' e = ground arith

  pub selection-Keeps : (s : QueryState F) → Keeps (candidate_selection_node sv t s) s
  unfolding candidate_selection_node
  selection-Keeps s s' e =
      let (selection, _, made) = >>=-eq-ok (selection_for sv t s) _ e in ground arith

  pub cost_gate-Keeps : (s : QueryState F) → Keeps (rewrite_and_cost_gate_node sv t s) s
  unfolding rewrite_and_cost_gate_node
  cost_gate-Keeps s s' e =
      let (selection, _, e1) = >>=-eq-ok (or_raise s.selection optimization_error) _ e in
      let (plan, _, e2) = >>=-eq-ok (or_raise s.plan optimization_error) _ e1 in
      let (o, _, made) =
        >>=-eq-ok (sv.optimize t plan selection.selected_sql (or_empty s.links) s.datasource_name) _
          e2 in
      let same : s' ≡ record s { optimization = some o; validated_sql = some o.sql } = cc in
      rw same refl
