-- ===== src/Pipeline/Traces.antt =====
-- The turns keep the origin of their statements: from the nodes to every reachable configuration
-- (genql/api/query_graph.py).
use gen_ql.Base.{ℕ, suc, String, Option, none, some, ◌≡◌, refl, sym, subst, ok, FloatOps}
use gen_ql.Pipeline.State.{QueryState, Services, initial_state}
use gen_ql.Pipeline.Nodes.{Outcome, returned, paused, raised, ambiguity_interrupt_node}
use gen_ql.Pipeline.Graph.{
  Node, ambiguity_interrupt, Config, at, ended, waiting, failed, goto, route, settle, run_node,
  step, start, resume,
}
use gen_ql.Pipeline.Runs.{Reach, started, stepped, resumed}
use gen_ql.Pipeline.Frames.{interrupt-Framed}
use gen_ql.Pipeline.Provenance.{
  HasProvenance, IsTraced, frame-HasProvenance, run_node-HasProvenance,
}

module _ {F : Type 0} ⦃ops : FloatOps F⦄ (sv : Services F) where
  goto-IsTraced :
      (target : Option Node) (s : QueryState F) (t : ℕ)
      → HasProvenance sv s
      → IsTraced sv (goto target s t)
  unfolding goto
  goto-IsTraced none s t h = h
  goto-IsTraced (some n) s t h = h

  settle-IsTraced :
      (before : QueryState F) (n : Node) (t : ℕ) (o : Outcome (QueryState F))
      → HasProvenance sv before
      → ((after : QueryState F) → o ≡ returned after → HasProvenance sv after)
      → IsTraced sv (settle before n t o)
  unfolding settle
  settle-IsTraced before n t (returned s) h kept = goto-IsTraced (route n s) s (suc t) (kept s refl)
  settle-IsTraced before n t (paused p) h kept = h
  settle-IsTraced before n t (raised e) h kept = tt

  step-IsTraced : (c : Config F) → IsTraced sv c → IsTraced sv (step sv c)
  unfolding step
  step-IsTraced (at n s t) h =
      settle-IsTraced s n t (run_node sv n t s) h
        (λ after e. run_node-HasProvenance sv n t s after e h)
  step-IsTraced (ended s) h = h
  step-IsTraced (waiting s t p) h = h
  step-IsTraced (failed e) h = tt

  resume-IsTraced :
      (answer : String) (c d : Config F) → resume answer c ≡ ok d → IsTraced sv c → IsTraced sv d
  unfolding resume
  resume-IsTraced answer (at n s t) d e h = cc
  resume-IsTraced answer (ended s) d e h = cc
  resume-IsTraced answer (failed x) d e h = cc
  resume-IsTraced answer (waiting s t p) d e h =
      let made_d : d ≡ settle s ambiguity_interrupt t (ambiguity_interrupt_node (some answer) s) =
        cc in
      subst (IsTraced sv) (sym made_d) (
        settle-IsTraced s ambiguity_interrupt t (ambiguity_interrupt_node (some answer) s) h
          (λ after made.
            subst (HasProvenance sv) (interrupt-Framed (some answer) s after made)
              (frame-HasProvenance sv ambiguity_interrupt s after refl h)))

  pub Reach-IsTraced : {c : Config F} → Reach sv c → IsTraced sv c
  unfolding start initial_state
  Reach-IsTraced (started question datasource thread domain_id trace_parent e) =
      rw e (tt, λ c same. absurd (cc), λ o same. absurd (cc))
  Reach-IsTraced (stepped {c = c} r e) = rw e (step-IsTraced c (Reach-IsTraced r))
  Reach-IsTraced (resumed {c = c} {d = d} answer r e) =
      resume-IsTraced answer c d e (Reach-IsTraced r)
