-- ===== src/Pipeline/Termination.antt =====
-- A turn ends: from the start, or from an answer, at most eighteen nodes run before it is at END,
-- paused, or failed (genql/api/query_graph.py).
use gen_ql.Base.{ℕ, zero, suc, ◌≤◌, ◌<◌, FloatOps, arith}
use gen_ql.Pipeline.State.{QueryState, Services}
use gen_ql.Pipeline.Graph.{
  Node, guarded_execution, Config, at, ended, waiting, failed, settle, run_node, step, run,
}
use gen_ql.Pipeline.Ready.{IsSound}
use gen_ql.Pipeline.Runs.{Reach, step-IsSound, Reach-IsSound}
use gen_ql.Pipeline.Measure.{nodes_left, config_left, IsHalted}
use gen_ql.Pipeline.Decreases.{run_node-Decreases}

module _ {F : Type 0} ⦃ops : FloatOps F⦄ (sv : Services F) where
  nodes_left_pos : (n : Node) (s : QueryState F) → 0 < nodes_left n s
  nodes_left_pos guarded_execution s = omega arith
  nodes_left_pos n s = omega arith

  run-IsHalted :
      (fuel : ℕ) (c : Config F) → IsSound c → config_left c ≤ fuel → IsHalted (run sv fuel c)
  unfolding run step
  run-IsHalted zero (at n s t) h l = absurd (omega (arith, nodes_left_pos n s))
  run-IsHalted zero (ended s) h l = tt
  run-IsHalted zero (waiting s t p) h l = tt
  run-IsHalted zero (failed e) h l = tt
  run-IsHalted (suc fuel) (at n s t) h l =
      run-IsHalted fuel (settle s n t (run_node sv n t s)) (step-IsSound sv (at n s t) h)
        (omega (arith, run_node-Decreases sv t n s h))
  run-IsHalted (suc fuel) (ended s) h l = run-IsHalted fuel (ended s) h (omega arith)
  run-IsHalted (suc fuel) (waiting s t p) h l = run-IsHalted fuel (waiting s t p) h (omega arith)
  run-IsHalted (suc fuel) (failed e) h l = run-IsHalted fuel (failed e) h (omega arith)

  nodes_left-le : (n : Node) (s : QueryState F) → nodes_left n s ≤ 18
  nodes_left-le guarded_execution s = omega arith
  nodes_left-le n s = ground arith

  -- From any configuration that a thread reaches, whatever the services answer, eighteen nodes are
  -- enough: the turn is then at END, paused for an answer, or stopped by an exception.
  pub run_halts : (c : Config F) → Reach sv c → IsHalted (run sv 18 c)
  run_halts (at n s t) r = run-IsHalted 18 (at n s t) (Reach-IsSound sv r) (nodes_left-le n s)
  run_halts (ended s) r = run-IsHalted 18 (ended s) (Reach-IsSound sv r) (omega arith)
  run_halts (waiting s t p) r = run-IsHalted 18 (waiting s t p) (Reach-IsSound sv r) (omega arith)
  run_halts (failed e) r = run-IsHalted 18 (failed e) (Reach-IsSound sv r) (omega arith)
