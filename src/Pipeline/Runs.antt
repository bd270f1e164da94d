-- ===== src/Pipeline/Runs.antt =====
-- The turns of a thread: every configuration that the graph reaches by running nodes and by the
-- user's answers.
use gen_ql.Base.{ℕ, zero, suc, String, Option, some, ◌≡◌, refl, ok, FloatOps}
use gen_ql.Pipeline.State.{Services}
use gen_ql.Pipeline.Nodes.{ambiguity_interrupt_node}
use gen_ql.Pipeline.Graph.{
  Config, at, ended, waiting, failed, ambiguity_interrupt, settle, step, run, start, resume,
}
use gen_ql.Pipeline.Ready.{IsSound}
use gen_ql.Pipeline.Leads.{run_node-IsSound, interrupt-IsSound}

module _ {F : Type 0} ⦃ops : FloatOps F⦄ (sv : Services F) where
  pub data Reach : Config F → Type 0 where
    started :
        (question datasource thread : String) (domain_id : Option ℕ) (trace_parent : Option String)
        {c : Config F}
        → c ≡ start question datasource thread domain_id trace_parent
        → Reach c
    stepped : {c d : Config F} → Reach c → d ≡ step sv c → Reach d
    resumed : {c d : Config F} (answer : String) → Reach c → resume answer c ≡ ok d → Reach d

  pub step-IsSound : (c : Config F) → IsSound c → IsSound (step sv c)
  unfolding step
  step-IsSound (at n s t) h = run_node-IsSound sv t n s h
  step-IsSound (ended s) h = h
  step-IsSound (waiting s t p) h = h
  step-IsSound (failed e) h = tt

  resume-IsSound :
      (answer : String) (c d : Config F) → resume answer c ≡ ok d → IsSound c → IsSound d
  unfolding resume
  resume-IsSound answer (at n s t) d e h = cc
  resume-IsSound answer (ended s) d e h = cc
  resume-IsSound answer (failed x) d e h = cc
  resume-IsSound answer (waiting s t p) d e h =
      let same : d ≡ settle s ambiguity_interrupt t (ambiguity_interrupt_node (some answer) s) =
        cc in
      rw same (interrupt-IsSound sv t (some answer) s h)

  start-IsSound :
      (question datasource thread : String) (domain_id : Option ℕ) (trace_parent : Option String)
      → IsSound {F = F} (start question datasource thread domain_id trace_parent)
  unfolding start
  start-IsSound question datasource thread domain_id trace_parent = (refl, refl, refl)

  -- What holds of every configuration that a turn reaches.
  pub Reach-IsSound : {c : Config F} → Reach c → IsSound c
  Reach-IsSound (started question datasource thread domain_id trace_parent e) =
      rw e (start-IsSound question datasource thread domain_id trace_parent)
  Reach-IsSound (stepped {c = c} r e) = rw e (step-IsSound c (Reach-IsSound r))
  Reach-IsSound (resumed {c = c} {d = d} answer r e) = resume-IsSound answer c d e (Reach-IsSound r)

  pub Reach-run : (fuel : ℕ) {c : Config F} → Reach c → Reach (run sv fuel c)
  unfolding run
  Reach-run zero r = r
  Reach-run (suc fuel) {c} r = Reach-run fuel (stepped r refl)
