-- ===== src/Turn/Refines.antt =====
-- A stream tells what the blocking call answers (genql/api/sse/event_stream.py and query_turn.py).
use gen_ql.Base.{
  ℕ, String, true, Option, none, some, List, [], ◌≡◌, refl, sym, subst, FloatOps, ◌>>=◌, ◌∙◌, ap,
  arith, inl, inr, Result, ok, err, is_some,
}
use gen_ql.Pipeline.State.{QueryState, Services, initial_state}
use gen_ql.Pipeline.Nodes.{Payload, paused, ambiguity_interrupt_node, interrupt_for, interrupt_ask}
use gen_ql.Pipeline.Graph.{
  ambiguity_interrupt, Config, at, ended, waiting, failed, settle, run, start, resume,
}
use gen_ql.Pipeline.Ready.{IsAnalytical, IsSound, Final}
use gen_ql.Pipeline.Runs.{Reach, started, resumed, Reach-run, Reach-IsSound}
use gen_ql.Turn.Response.{
  TurnResponse, Raw, to_response, final_response, clarification_response, short_circuited,
  narrowing_of, over_budget, applied_defaults_of, assumed_of,
}
use gen_ql.Pipeline.Frames.{interrupt-Framed}
use gen_ql.Turn.Fresh.{Reach-IsFresh}
use gen_ql.Turn.Follows.{SameAnswer, SameIntent, Follows, answer-Follows, drain-run, drain-Follows}
use gen_ql.Turn.Wording.{Texts}
use gen_ql.Turn.Events.{StageEvent, Progress, fresh_progress, absorb}
use gen_ql.Turn.Blocking.{Save, invoked, asked_turn, answered_turn}
use gen_ql.Turn.Stream.{
  Streamed, drain, conclude_stream, finish_stream, break_stream, stream_question, stream_answer,
}

module _ {F : Type 0} where
  -- An analytical turn at END has a statement.
  judged_sql : (s : QueryState F) → Final s → IsAnalytical s → is_some s.validated_sql ≡ true
  judged_sql s (inl (other, _)) analytical = absurd (other analytical)
  judged_sql s (inr (inl (_, _, (o, _, _, judged)))) analytical = rw judged refl
  judged_sql s (inr (inr (_, _, (o, _, _, judged)))) analytical = rw judged refl

  pub final_response-Follows :
      (thread_id : String) (m s : QueryState F)
      → SameAnswer m s
      → SameIntent m s
      → m.ambiguity ≡ s.ambiguity
      → Final s
      → final_response thread_id m ≡ final_response thread_id s
  unfolding final_response short_circuited narrowing_of applied_defaults_of assumed_of over_budget
  final_response-Follows thread_id m s (o, v, r, p, c, k, b) (inl i) u final =
      rw (o, v, r, p, c, k, b, i, u) refl
  final_response-Follows thread_id m s (o, v, r, p, c, k, b) (inr analytical) u final =
      rw (o, v, r, p, c, k, b, u, judged_sql s final analytical) refl

  -- What a client of the stream is told of the outcome of the blocking call.
  abbrev pub told :
      {Store : Type 0}
      → Option (Save F Store)
      → List StageEvent
      → Result (TurnResponse F)
      → Store
      → Streamed F Store
  told save collected (ok response) store = finish_stream save collected response store
  told save collected (err e) store = break_stream collected e store

  paused-eq :
      (thread_id : String) (m s : Raw F) (q : Payload)
      → m.interrupt ≡ some q
      → s.interrupt ≡ some q
      → m.state.ambiguity ≡ s.state.ambiguity
      → to_response thread_id m ≡ to_response thread_id s
  unfolding to_response clarification_response applied_defaults_of assumed_of
  paused-eq thread_id m s q em es u = rw (em, es, u) refl

  ended-eq :
      (thread_id : String) (m : Raw F) (s : QueryState F)
      → m.interrupt ≡ none
      → to_response thread_id m ≡ final_response thread_id m.state
  unfolding to_response
  ended-eq thread_id m s e = rw e refl

  module _ {Store : Type 0} (save : Option (Save F Store)) (thread_id : String)
      (store : Store) where
    conclude-told :
        (c : Config F) (p : Progress F)
        → IsSound c
        → Follows c p.merged
        → conclude_stream save thread_id (c, p) store
          ≡ told save p.collected (invoked c >>= (λ raw. ok (to_response thread_id raw))) store
    unfolding conclude_stream invoked
    conclude-told (at n s t) p sound h = refl
    conclude-told (failed e) p sound h = refl
    conclude-told (ended s) p sound (a, i, u, e) =
        ap (λ r. finish_stream save p.collected r store)
          (ended-eq thread_id p.merged s e
            ∙ final_response-Follows thread_id p.merged.state s a i u sound
            ∙ sym (ended-eq thread_id (record { state = s; interrupt = none }) s refl))
    conclude-told (waiting s t q) p sound (u, e) =
        ap (λ r. finish_stream save p.collected r store)
          (paused-eq thread_id p.merged (record { state = s; interrupt = some q }) q e refl u)

  answered-never :
      (answer : String) (s : QueryState F) (q : Payload)
      → ambiguity_interrupt_node (some answer) s ≡ paused q
      → ⊥
  unfolding ambiguity_interrupt_node interrupt_for interrupt_ask
  answered-never answer s q e = ground arith

module _ {F : Type 0} ⦃ops : FloatOps F⦄ (sv : Services F) (w : Texts F) {Store : Type 0}
    (save : Option (Save F Store)) (thread_id : String) where
  drained-told :
      (limit : ℕ) (c : Config F) (p : Progress F) (store : Store)
      → Reach sv c
      → Follows c p.merged
      → conclude_stream save thread_id (drain sv w limit c p) store
        ≡ told save
            (drain sv w limit c p).1.collected
            (invoked (run sv limit c) >>= (λ raw. ok (to_response thread_id raw)))
            store
  drained-told limit c p store r h =
      let d = drain sv w limit c p in
      let same = drain-run sv w limit c p in
      conclude-told save thread_id store d.0 d.1
        (subst IsSound (sym same) (Reach-IsSound sv (Reach-run sv limit r)))
        (drain-Follows sv w limit c p h)
      ∙ ap
          (λ x.
            told save d.1.collected (invoked x >>= (λ raw. ok (to_response thread_id raw))) store)
          same

  pub question_tells :
      (limit : ℕ) (question datasource : String) (domain_id : Option ℕ)
      (trace_parent : Option String) (store : Store)
      → (collected : List StageEvent) × (stream_question sv w save thread_id limit question
            datasource domain_id trace_parent store
          ≡ told save collected
              (asked_turn sv thread_id limit question datasource domain_id trace_parent)
              store)
  unfolding stream_question asked_turn start initial_state
  question_tells limit question datasource domain_id trace_parent store = (
    _,
    drained-told limit (start question datasource thread_id domain_id trace_parent)
        (fresh_progress (initial_state question datasource thread_id domain_id none)) store
        (started question datasource thread_id domain_id trace_parent refl)
        ((refl, refl, refl, refl, refl, refl, refl), inl refl, refl, refl),
  )

  pub answer_tells :
      (limit : ℕ) (answer question datasource : String) (domain_id : Option ℕ) (c : Config F)
      (store : Store)
      → Reach sv c
      → (collected : List StageEvent) × (stream_answer sv w save thread_id limit answer question
            datasource domain_id c store
          ≡ told save collected (answered_turn sv thread_id limit answer c) store)
  unfolding stream_answer answered_turn resume initial_state
  answer_tells limit answer question datasource domain_id (at n s t) store r = ([], refl)
  answer_tells limit answer question datasource domain_id (ended s) store r = ([], refl)
  answer_tells limit answer question datasource domain_id (failed e) store r = ([], refl)
  answer_tells limit answer question datasource domain_id (waiting s t p) store r =
      let (analytical, (v, o, x), _) = Reach-IsSound sv r in
      let (plan, candidates, probes, selection) = Reach-IsFresh sv r in
      let outcome = ambiguity_interrupt_node (some answer) s in
      (
        _,
        drained-told limit (settle s ambiguity_interrupt t outcome)
            (absorb w s ambiguity_interrupt outcome
              (fresh_progress (initial_state question datasource thread_id domain_id none)))
            store (resumed answer r refl)
            (answer-Follows w s t outcome
              (fresh_progress (initial_state question datasource thread_id domain_id none))
              (λ s'. interrupt-Framed (some answer) s s') (answered-never answer s)
              (sym o, sym v, sym x, sym plan, sym selection, sym candidates, sym probes)
              (inr analytical) refl),
      )
