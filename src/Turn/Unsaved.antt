-- ===== src/Turn/Unsaved.antt =====
-- A stream whose turn cannot be saved (genql/api/sse/event_stream.py over the two repositories of
-- genql/repositories/query).
use gen_ql.Base.{
  ℕ, String, true, Option, some, List, ◌≡◌, refl, FloatOps, ok, err, All, ap, sym, subst, ◌∙◌,
}
use gen_ql.Pipeline.State.{Services}
use gen_ql.Turn.Response.{TurnResponse}
use gen_ql.Turn.Wording.{Texts}
use gen_ql.Turn.Events.{StageEvent}
use gen_ql.Turn.Blocking.{asked_turn}
use gen_ql.Turn.Stream.{Streamed, stream_question, finish_stream, finish_saved}
use gen_ql.Turn.History.{Tables, Database, record_turn, database_error}
use gen_ql.Turn.Refines.{told, question_tells}
use gen_ql.Turn.Terminal.{IsStage, stages-IsStage}

module _ {F : Type 0} where
  -- Stage events only, and an exception; the history is as it was.
  abbrev pub IsCutOff : Tables → Streamed F Tables → Type 0
  IsCutOff tables streamed =
      (streamed.broken_by ≡ some database_error)
      × All IsStage streamed.events
      × (streamed.store ≡ tables)

  record_turn-fails :
      (o : Database) (turn_id : String) (now : ℕ) (thread_id user_id : String)
      (datasource : Option String) (question : String) (response : TurnResponse F)
      (stages : List StageEvent) (tables : Tables)
      → o.list_fails ≡ true
      → record_turn o turn_id now thread_id user_id datasource question response stages tables
        ≡ (tables, err database_error)
  unfolding record_turn
  record_turn-fails o turn_id now thread_id user_id datasource question response stages tables
        fails =
      rw fails refl

  cut-IsCutOff :
      (collected : List StageEvent) (response : TurnResponse F) (tables : Tables)
      → IsCutOff tables (finish_saved collected response (tables, err database_error))
  unfolding finish_saved
  cut-IsCutOff collected response tables = (refl, stages-IsStage F collected, refl)

module _ {F : Type 0} ⦃ops : FloatOps F⦄ (sv : Services F) (w : Texts F) where
  -- Where the history of the thread cannot be read, the exception of the database is no
  -- GenqlError: the stream of a turn that succeeded breaks off after its stage events, with no
  -- warning and no result.
  pub unread_history_cuts_off :
      (o : Database) (turn_id : String) (now limit : ℕ)
      (thread_id user_id question datasource : String) (domain_id : Option ℕ)
      (trace_parent : Option String) (tables : Tables) (response : TurnResponse F)
      → o.list_fails ≡ true
      → asked_turn sv thread_id limit question datasource domain_id trace_parent ≡ ok response
      → IsCutOff tables (
          stream_question sv w
            (some (record_turn o turn_id now thread_id user_id (some datasource) question))
            thread_id
            limit
            question
            datasource
            domain_id
            trace_parent
            tables)
  unfolding finish_stream
  unread_history_cuts_off o turn_id now limit thread_id user_id question datasource domain_id
        trace_parent tables response fails answered =
      let save = record_turn o turn_id now thread_id user_id (some datasource) question in
      let (collected, tells) =
        question_tells sv w (some save) thread_id limit question datasource domain_id trace_parent
          tables in
      let same =
        tells
        ∙ ap (λ call. told (some save) collected call tables) answered
        ∙ ap (finish_saved collected response) (
            record_turn-fails o turn_id now thread_id user_id (some datasource) question response
              collected tables fails) in
      subst (IsCutOff tables) (sym same) (cut-IsCutOff collected response tables)
