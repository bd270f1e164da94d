-- ===== src/Turn/Follows.antt =====
-- The merged state of a stream follows the graph's state in all that a response reads
-- (genql/api/sse/event_stream.py and query_turn.py).
use gen_ql.Base.{ℕ, zero, suc, Option, none, some, ◌≡◌, refl, sym, ap, subst, FloatOps, inl, ◌⊎◌}
use gen_ql.Pipeline.State.{QueryState, Services}
use gen_ql.Pipeline.Nodes.{Outcome, returned, paused, raised, Payload}
use gen_ql.Pipeline.Graph.{
  Node, ambiguity_gate, ambiguity_interrupt, Config, at, ended, waiting, failed, route, goto,
  settle, run, step, run_node,
}
use gen_ql.Pipeline.Ready.{IsAnalytical}
use gen_ql.Turn.Response.{Raw}
use gen_ql.Pipeline.Delta.{Delta, delta_of, merge_delta, written}
use gen_ql.Pipeline.Frames.{run_node-Framed}
use gen_ql.Turn.Fresh.{plain-paused}
use gen_ql.Turn.Wording.{Texts}
use gen_ql.Turn.Events.{Progress, absorb}
use gen_ql.Turn.Stream.{drain}

written-either :
    {A : Type 0} (d : Option A) (m s a : A)
    → (m ≡ s) ⊎ (s ≡ a)
    → (written d m ≡ written d s) ⊎ (written d s ≡ a)
written-either none m s a h = h
written-either (some x) m s a h = inl refl

module _ {F : Type 0} where
  -- The fields of a response, but for the ambiguity and the intent.
  abbrev pub SameAnswer : QueryState F → QueryState F → Type 0
  SameAnswer m s =
      (m.optimization ≡ s.optimization)
      × (m.validated_sql ≡ s.validated_sql)
      × (m.result ≡ s.result)
      × (m.plan ≡ s.plan)
      × (m.selection ≡ s.selection)
      × (m.candidates ≡ s.candidates)
      × (m.probe_results ≡ s.probe_results)

  -- A stream that resumes does not know the intent, which is then analytical.
  abbrev pub SameIntent : QueryState F → QueryState F → Type 0
  SameIntent m s = (m.intent ≡ s.intent) ⊎ IsAnalytical s

  -- The gate is about to write the ambiguity.
  abbrev pub SameAmbiguity : Node → QueryState F → QueryState F → Type 0
  SameAmbiguity ambiguity_gate m s = Unit
  SameAmbiguity _ m s = m.ambiguity ≡ s.ambiguity

  abbrev pub Follows : Config F → Raw F → Type 0
  Follows (at n s t) m =
      SameAnswer m.state s × SameIntent m.state s × SameAmbiguity n m.state s × (m.interrupt ≡ none)
  Follows (ended s) m =
      SameAnswer m.state s
      × SameIntent m.state s
      × (m.state.ambiguity ≡ s.ambiguity)
      × (m.interrupt ≡ none)
  Follows (waiting s t p) m = (m.state.ambiguity ≡ s.ambiguity) × (m.interrupt ≡ some p)
  Follows (failed e) m = Unit

  merge-SameAnswer :
      (d : Delta F) (m s : QueryState F)
      → SameAnswer m s
      → SameAnswer (merge_delta d m) (merge_delta d s)
  merge-SameAnswer d m s (o, v, r, p, c, k, b) = (
    ap (written d.optimization) o,
    ap (written d.validated_sql) v,
    ap (written d.result) r,
    ap (written d.plan) p,
    ap (written d.selection) c,
    ap (written d.candidates) k,
    ap (written d.probe_results) b,
  )

  merge-SameAmbiguity :
      (n : Node) (m s s' : QueryState F)
      → SameAmbiguity n m s
      → (merge_delta (delta_of n s s') m).ambiguity ≡ (merge_delta (delta_of n s s') s).ambiguity
  merge-SameAmbiguity ambiguity_gate m s s' h = refl
  merge-SameAmbiguity n m s s' h = ap (written (delta_of n s s').ambiguity) h

  goto-Follows :
      (o : Option Node) (s : QueryState F) (t : ℕ) (m : Raw F)
      → SameAnswer m.state s
      → SameIntent m.state s
      → m.state.ambiguity ≡ s.ambiguity
      → m.interrupt ≡ none
      → Follows (goto o s t) m
  unfolding goto
  goto-Follows none s t m a i u e = (a, i, u, e)
  goto-Follows (some ambiguity_gate) s t m a i u e = (a, i, tt, e)
  goto-Follows (some n) s t m a i u e = (a, i, u, e)

  -- One chunk: where the merged state followed the state before, it follows the state after.
  pub settle-Follows :
      (w : Texts F) (n : Node) (s : QueryState F) (t : ℕ) (o : Outcome (QueryState F))
      (p : Progress F)
      → ((s' : QueryState F) → o ≡ returned s' → merge_delta (delta_of n s s') s ≡ s')
      → ((q : Payload) → o ≡ paused q → p.merged.state.ambiguity ≡ s.ambiguity)
      → SameAnswer p.merged.state s
      → SameIntent p.merged.state s
      → SameAmbiguity n p.merged.state s
      → p.merged.interrupt ≡ none
      → Follows (settle s n t o) (absorb w s n o p).merged
  unfolding settle absorb
  settle-Follows w n s t (paused q) p framed asks a i u e = (asks q refl, refl)
  settle-Follows w n s t (raised x) p framed asks a i u e = tt
  settle-Follows w n s t (returned s') p framed asks a i u e =
      let m = p.merged.state in
      let d = delta_of n s s' in
      let same = framed s' refl in
      goto-Follows (route n s') s' (suc t)
        (record { state = merge_delta d m; interrupt = p.merged.interrupt })
        (subst (SameAnswer (merge_delta d m)) same (merge-SameAnswer d m s a))
        (subst (SameIntent (merge_delta d m)) same
          (written-either d.intent m.intent s.intent (some "analytical_sql") i))
        (subst (λ x. (merge_delta d m).ambiguity ≡ x.ambiguity) same
          (merge-SameAmbiguity n m s s' u))
        e

  -- The first chunk of an answer: the gate comes next, and will write the ambiguity.
  pub answer-Follows :
      (w : Texts F) (s : QueryState F) (t : ℕ) (o : Outcome (QueryState F)) (p : Progress F)
      → ((s' : QueryState F)
          → o ≡ returned s'
          → merge_delta (delta_of ambiguity_interrupt s s') s ≡ s')
      → ((q : Payload) → o ≡ paused q → ⊥)
      → SameAnswer p.merged.state s
      → SameIntent p.merged.state s
      → p.merged.interrupt ≡ none
      → Follows (settle s ambiguity_interrupt t o) (absorb w s ambiguity_interrupt o p).merged
  unfolding settle absorb goto route
  answer-Follows w s t (paused q) p framed never a i e = absurd (never q refl)
  answer-Follows w s t (raised x) p framed never a i e = tt
  answer-Follows w s t (returned s') p framed never a i e =
      let m = p.merged.state in
      let d = delta_of ambiguity_interrupt s s' in
      let same = framed s' refl in
      (
        subst (SameAnswer (merge_delta d m)) same (merge-SameAnswer d m s a),
        subst (SameIntent (merge_delta d m)) same
            (written-either d.intent m.intent s.intent (some "analytical_sql") i),
        tt,
        e,
      )

module _ {F : Type 0} ⦃ops : FloatOps F⦄ (sv : Services F) (w : Texts F) where
  run_node-asks :
      (n : Node) (m s : QueryState F) (t : ℕ) (q : Payload)
      → run_node sv n t s ≡ paused q
      → SameAmbiguity n m s
      → m.ambiguity ≡ s.ambiguity
  unfolding run_node
  run_node-asks ambiguity_gate m s t q e u = absurd (plain-paused sv _ q e)
  run_node-asks n m s t q e u = u

  -- A configuration that no node leaves is run to itself.
  run-stays : (fuel : ℕ) (c : Config F) → step sv c ≡ c → run sv fuel c ≡ c
  unfolding run
  run-stays zero c e = refl
  run-stays (suc fuel) c e = rw e (run-stays fuel c e)

  -- Draining the graph is running it.
  pub drain-run :
      (fuel : ℕ) (c : Config F) (p : Progress F) → (drain sv w fuel c p).0 ≡ run sv fuel c
  unfolding drain run step
  drain-run zero c p = refl
  drain-run (suc fuel) (at n s t) p =
      drain-run fuel (settle s n t (run_node sv n t s)) (absorb w s n (run_node sv n t s) p)
  drain-run (suc fuel) (ended s) p = sym (run-stays fuel (ended s) refl)
  drain-run (suc fuel) (waiting s t q) p = sym (run-stays fuel (waiting s t q) refl)
  drain-run (suc fuel) (failed e) p = sym (run-stays fuel (failed e) refl)

  pub drain-Follows :
      (fuel : ℕ) (c : Config F) (p : Progress F)
      → Follows c p.merged
      → Follows (drain sv w fuel c p).0 (drain sv w fuel c p).1.merged
  unfolding drain
  drain-Follows zero c p h = h
  drain-Follows (suc fuel) (at n s t) p (a, i, u, e) =
      drain-Follows fuel (settle s n t (run_node sv n t s)) (absorb w s n (run_node sv n t s) p) (
        settle-Follows w n s t (run_node sv n t s) p (λ s'. run_node-Framed sv t s s' n)
          (λ q asked. run_node-asks n p.merged.state s t q asked u) a i u e)
  drain-Follows (suc fuel) (ended s) p h = h
  drain-Follows (suc fuel) (waiting s t q) p h = h
  drain-Follows (suc fuel) (failed e) p h = h
