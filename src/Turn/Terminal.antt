-- ===== src/Turn/Terminal.antt =====
-- How a stream ends (genql/api/sse/event_stream.py).
use gen_ql.Base.{
  ℕ, String, false, Option, none, some, List, [], ◌∷◌, ◌++◌, map, ◌≡◌, refl, FloatOps, arith, inl,
  inr, ◌⊎◌, Error, is_genql_error, Result, ok, err, All, Bool-cases,
}
use gen_ql.Pipeline.State.{Services}
use gen_ql.Pipeline.Graph.{Config}
use gen_ql.Pipeline.Runs.{Reach}
use gen_ql.Turn.Response.{TurnResponse}
use gen_ql.Turn.Wording.{Texts}
use gen_ql.Turn.Events.{StageEvent}
use gen_ql.Turn.Blocking.{Save, asked_turn, answered_turn}
use gen_ql.Turn.Stream.{
  Event, stage_event, warning_event, error_event, clarification_event, result_event, Streamed,
  terminal, finish_saved, finish_stream, break_stream, stream_question, stream_answer,
}
use gen_ql.Turn.Refines.{told, question_tells, answer_tells}

module _ {F : Type 0} where
  abbrev pub IsStage : Event F → Type 0
  IsStage (stage_event x) = Unit
  IsStage _ = ⊥

pub stages-IsStage :
    (F : Type 0) (stages : List StageEvent) → All IsStage (map {B = Event F} stage_event stages)
stages-IsStage F [] = tt
stages-IsStage F (x ∷ xs) = (tt, stages-IsStage F xs)

module _ {F : Type 0} where
  -- A result or a clarification, and nothing after it.
  abbrev IsLast : List (Event F) → Type 0
  IsLast (clarification_event r ∷ es) = es ≡ []
  IsLast (result_event r ∷ es) = es ≡ []
  IsLast _ = ⊥

  -- Stage events, at most one warning, and one terminal event, which is the last.
  abbrev pub EndsOnce : List (Event F) → Type 0
  EndsOnce [] = ⊥
  EndsOnce (stage_event x ∷ es) = EndsOnce es
  EndsOnce (warning_event e ∷ es) = IsLast es
  EndsOnce (error_event e ∷ es) = es ≡ []
  EndsOnce (clarification_event r ∷ es) = es ≡ []
  EndsOnce (result_event r ∷ es) = es ≡ []

  -- The history raised `e` while the response was saved.
  abbrev pub SaveRaised :
      {Store : Type 0} → Option (Save F Store) → Result (TurnResponse F) → Error → Type 0
  SaveRaised {Store} none call e = ⊥
  SaveRaised {Store} (some save) call e =
      (response : TurnResponse F) × (collected : List StageEvent) × (store : Store) × (call
        ≡ ok response)
      × ((save response collected store).1 ≡ err e)

  -- The stream ends as promised, or an exception that is no GenqlError breaks it off after stage
  -- events only: one of the blocking call, or one of the history.
  abbrev pub Ends :
      {Store : Type 0} → Option (Save F Store) → Result (TurnResponse F) → Streamed F Store → Type 0
  Ends save call streamed =
      ((streamed.broken_by ≡ none) × EndsOnce streamed.events)
      ⊎ ((e : Error) × (streamed.broken_by ≡ some e)
          × (is_genql_error e ≡ false)
          × All IsStage streamed.events
          × ((call ≡ err e) ⊎ SaveRaised save call e))

  stages-EndsOnce :
      (stages : List StageEvent) (es : List (Event F))
      → EndsOnce es
      → EndsOnce (map stage_event stages ++ es)
  stages-EndsOnce [] es h = h
  stages-EndsOnce (x ∷ xs) es h = stages-EndsOnce xs es h

  terminal-EndsOnce : (r : TurnResponse F) → EndsOnce (terminal r ∷ [])
  unfolding terminal
  terminal-EndsOnce r = ground arith

  warned-EndsOnce : (e : Error) (r : TurnResponse F) → EndsOnce (warning_event e ∷ terminal r ∷ [])
  unfolding terminal
  warned-EndsOnce e r = ground arith

  saved-Ends :
      {Store : Type 0} (save : Save F Store) (collected : List StageEvent)
      (response : TurnResponse F) (store store' : Store) (saved : Result (Unit {0}))
      → (save response collected store).1 ≡ saved
      → Ends (some save) (ok response) (finish_saved collected response (store', saved))
  unfolding finish_saved
  saved-Ends save collected response store store' (ok u) same =
      inl (refl, stages-EndsOnce collected _ (terminal-EndsOnce response))
  saved-Ends save collected response store store' (err e) same =
      elim (Bool-cases (is_genql_error e)) [
        | inl known ↦
            rw known (inl (refl, stages-EndsOnce collected _ (warned-EndsOnce e response)))
        | inr unknown ↦ rw unknown (
            inr (
              e,
              refl,
              unknown,
              stages-IsStage F collected,
              inr (response, collected, store, refl, same),
            ))
      ]

  finish-Ends :
      {Store : Type 0} (save : Option (Save F Store)) (collected : List StageEvent)
      (response : TurnResponse F) (store : Store)
      → Ends save (ok response) (finish_stream save collected response store)
  unfolding finish_stream finish_saved
  finish-Ends none collected response store =
      inl (refl, stages-EndsOnce collected _ (terminal-EndsOnce response))
  finish-Ends (some save) collected response store =
      saved-Ends save collected response store (save response collected store).0
        (save response collected store).1 refl

  break-Ends :
      {Store : Type 0} (save : Option (Save F Store)) (collected : List StageEvent) (e : Error)
      (store : Store)
      → Ends save (err e) (break_stream collected e store)
  unfolding break_stream
  break-Ends save collected e store = elim (Bool-cases (is_genql_error e)) [
    | inl known ↦ rw known (inl (refl, stages-EndsOnce collected (error_event e ∷ []) refl))
    | inr unknown ↦ rw unknown (inr (e, refl, unknown, stages-IsStage F collected, inl refl))
  ]

  told-Ends :
      {Store : Type 0} (save : Option (Save F Store)) (collected : List StageEvent)
      (call : Result (TurnResponse F)) (store : Store)
      → Ends save call (told save collected call store)
  told-Ends save collected (ok response) store = finish-Ends save collected response store
  told-Ends save collected (err e) store = break-Ends save collected e store

module _ {F : Type 0} ⦃ops : FloatOps F⦄ (sv : Services F) (w : Texts F) {Store : Type 0}
    (save : Option (Save F Store)) (thread_id : String) where
  -- The stream of a question ends in exactly one terminal event, with nothing after it, and only
  -- stage events and at most one warning before it. The exception is one that is no GenqlError:
  -- then the blocking call or the history raised it, and no terminal event went out.
  pub stream_question-Ends :
      (limit : ℕ) (question datasource : String) (domain_id : Option ℕ)
      (trace_parent : Option String) (store : Store)
      → Ends save (asked_turn sv thread_id limit question datasource domain_id trace_parent) (
          stream_question sv w save thread_id limit question datasource domain_id trace_parent
            store)
  stream_question-Ends limit question datasource domain_id trace_parent store =
      let (collected, tells) =
        question_tells sv w save thread_id limit question datasource domain_id trace_parent store in
      rw tells (told-Ends save collected _ store)

  -- The same of the stream of an answer to any thread that the graph can reach.
  pub stream_answer-Ends :
      (limit : ℕ) (answer question datasource : String) (domain_id : Option ℕ) (c : Config F)
      (store : Store)
      → Reach sv c
      → Ends save
          (answered_turn sv thread_id limit answer c)
          (stream_answer sv w save thread_id limit answer question datasource domain_id c store)
  stream_answer-Ends limit answer question datasource domain_id c store r =
      let (collected, tells) =
        answer_tells sv w save thread_id limit answer question datasource domain_id c store r in
      rw tells (told-Ends save collected _ store)
