-- ===== src/Turn/Fresh.antt =====
-- Before the planning, and while a thread waits for an answer, nothing is planned
-- (genql/api/query_graph.py).
use gen_ql.Base.{
  ℕ, String, true, false, Option, none, some, [], ◌≡◌, refl, subst, Result, ok, err, FloatOps,
  arith, Bool-cases, inl, inr,
}
use gen_ql.Pipeline.State.{QueryState, Services}
use gen_ql.Pipeline.Nodes.{
  Outcome, returned, paused, raised, plain, ambiguity_interrupt_node, Payload,
}
use gen_ql.Pipeline.Graph.{
  Node, ambiguity_interrupt, Config, at, ended, waiting, failed, route, route_after_validation,
  route_after_critique, route_after_cost_gate, goto, settle, run_node, step, start, resume,
}
use gen_ql.Pipeline.State.{initial_state}
use gen_ql.Pipeline.Runs.{Reach, started, stepped, resumed}
use gen_ql.Pipeline.Answers.{is_late}
use gen_ql.Pipeline.Delta.{delta_of, merge_delta}
use gen_ql.Pipeline.Frames.{run_node-Framed, interrupt-Framed}

module _ {F : Type 0} where
  -- No plan, no candidate, no probe, no selection.
  abbrev pub Unplanned : QueryState F → Type 0
  Unplanned s =
      (s.plan ≡ none) × (s.candidates ≡ []) × (s.probe_results ≡ []) × (s.selection ≡ none)

  abbrev pub IsFresh : Config F → Type 0
  IsFresh (at n s t) = is_late n ≡ false → Unplanned s
  IsFresh (ended s) = Unit
  IsFresh (waiting s t p) = Unplanned s
  IsFresh (failed e) = Unit

  -- An early node writes none of the four.
  early-Unplanned :
      (n : Node) (s s' : QueryState F)
      → is_late n ≡ false
      → Unplanned s
      → Unplanned (merge_delta (delta_of n s s') s)
  early-Unplanned n s s' early h = ground arith

  goto-IsFresh :
      (o : Option Node) (s : QueryState F) (t : ℕ)
      → ((n : Node) → o ≡ some n → is_late n ≡ false → Unplanned s)
      → IsFresh (goto o s t)
  unfolding goto
  goto-IsFresh none s t h = tt
  goto-IsFresh (some n) s t h = h n refl

  late_route :
      (n : Node) (s : QueryState F) (n' : Node)
      → is_late n ≡ true
      → route n s ≡ some n'
      → is_late n' ≡ true
  unfolding route route_after_validation route_after_critique route_after_cost_gate
  late_route n s n' late e = ground arith

module _ {F : Type 0} ⦃ops : FloatOps F⦄ (sv : Services F) where
  pub plain-paused : {A : Type 0} (call : Result A) (p : Payload) → plain call ≡ paused p → ⊥
  plain-paused (ok a) p e = cc
  plain-paused (err x) p e = cc

  -- Only the interrupt pauses.
  paused-early :
      (n : Node) (s : QueryState F) (t : ℕ) (p : Payload)
      → run_node sv n t s ≡ paused p
      → is_late n ≡ false
  unfolding run_node
  paused-early ambiguity_interrupt s t p e = refl
  paused-early n s t p e = absurd (plain-paused _ p e)

  settle-IsFresh :
      (n : Node) (s : QueryState F) (t : ℕ) (o : Outcome (QueryState F))
      → ((s' : QueryState F) → o ≡ returned s' → merge_delta (delta_of n s s') s ≡ s')
      → ((p : Payload) → o ≡ paused p → is_late n ≡ false)
      → (is_late n ≡ false → Unplanned s)
      → IsFresh (settle s n t o)
  unfolding settle
  settle-IsFresh n s t (paused p) framed early h = h (early p refl)
  settle-IsFresh n s t (raised e) framed early h = tt
  settle-IsFresh n s t (returned s') framed early h = elim (Bool-cases (is_late n)) [
    | inl late ↦ goto-IsFresh (route n s') s' _ (λ n' e l. absurd (cc (late_route n s' n' late e)))
    | inr is_early ↦
        goto-IsFresh (route n s') s' _ (λ n' e l.
          subst Unplanned (framed s' refl) (early-Unplanned n s s' is_early (h is_early)))
  ]

  step-IsFresh : (c : Config F) → IsFresh c → IsFresh (step sv c)
  unfolding step
  step-IsFresh (at n s t) h =
      settle-IsFresh n s t (run_node sv n t s) (λ s'. run_node-Framed sv t s s' n)
        (λ p. paused-early n s t p) h
  step-IsFresh (ended s) h = tt
  step-IsFresh (waiting s t p) h = h
  step-IsFresh (failed e) h = tt

  resume-IsFresh :
      (answer : String) (c d : Config F) → resume answer c ≡ ok d → IsFresh c → IsFresh d
  unfolding resume
  resume-IsFresh answer (at n s t) d e h = cc
  resume-IsFresh answer (ended s) d e h = cc
  resume-IsFresh answer (failed x) d e h = cc
  resume-IsFresh answer (waiting s t p) d e h =
      let same : d ≡ settle s ambiguity_interrupt t (ambiguity_interrupt_node (some answer) s) =
        cc in
      rw same (
        settle-IsFresh ambiguity_interrupt s t (ambiguity_interrupt_node (some answer) s)
          (λ s'. interrupt-Framed (some answer) s s') (λ q e. refl) (λ l. h))

  start-IsFresh :
      (question datasource thread : String) (domain_id : Option ℕ) (trace_parent : Option String)
      → IsFresh {F = F} (start question datasource thread domain_id trace_parent)
  unfolding start initial_state
  start-IsFresh question datasource thread domain_id trace_parent l = (refl, refl, refl, refl)

  pub Reach-IsFresh : {c : Config F} → Reach sv c → IsFresh c
  Reach-IsFresh (started question datasource thread domain_id trace_parent e) =
      rw e (start-IsFresh question datasource thread domain_id trace_parent)
  Reach-IsFresh (stepped {c = c} r e) = rw e (step-IsFresh c (Reach-IsFresh r))
  Reach-IsFresh (resumed {c = c} {d = d} answer r e) = resume-IsFresh answer c d e (Reach-IsFresh r)
