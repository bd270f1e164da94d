-- ===== src/Turn/Kinds.antt =====
-- What the response of a finished turn says (`to_response` of genql/api/query_turn.py).
use gen_ql.Base.{String, true, false, none, some, ◌≡◌, ◌≢◌, refl, FloatOps, inl, inr, ◌⊎◌, is_some}
use gen_ql.Entities.{OptimizationResult}
use gen_ql.Pipeline.State.{QueryState, Services}
use gen_ql.Pipeline.Graph.{ended}
use gen_ql.Pipeline.Ready.{Final}
use gen_ql.Pipeline.Runs.{Reach, Reach-IsSound}
use gen_ql.Turn.Response.{
  TurnResponse, to_response, final_response, short_circuited, narrowing_of, over_budget,
}

module _ {F : Type 0} where
  -- The turn stopped at the classification: its intent is reported, and nothing else.
  abbrev pub SaysIntent : QueryState F → TurnResponse F → Type 0
  SaysIntent s r =
      (s.intent ≢ some "analytical_sql")
      × (r.intent ≡ s.intent)
      × (r.validated_sql ≡ none)
      × (r.result ≡ none)
      × (r.narrowing_suggestion ≡ none)

  -- The turn stopped at the cost gate: its statement and the suggestion are reported, no rows.
  abbrev pub SaysOverBudget : QueryState F → TurnResponse F → Type 0
  SaysOverBudget s r =
      (o : OptimizationResult F) × (s.optimization ≡ some o)
      × (o.within_budget ≡ false)
      × (r.intent ≡ none)
      × (r.validated_sql ≡ some o.sql)
      × (r.result ≡ none)
      × (r.narrowing_suggestion ≡ o.narrowing_suggestion)

  -- The turn was served: the statement within budget is reported with the rows of the state.
  abbrev pub SaysRows : QueryState F → TurnResponse F → Type 0
  SaysRows s r =
      (o : OptimizationResult F) × (s.optimization ≡ some o)
      × (o.within_budget ≡ true)
      × (r.intent ≡ none)
      × (r.validated_sql ≡ some o.sql)
      × (is_some s.result ≡ true)
      × (r.result ≡ s.result)
      × (r.narrowing_suggestion ≡ none)

  Final-Says :
      (thread_id : String) (s : QueryState F)
      → Final s
      → SaysIntent s (final_response thread_id s)
        ⊎ (SaysOverBudget s (final_response thread_id s) ⊎ SaysRows s (final_response thread_id s))
  unfolding final_response short_circuited narrowing_of over_budget
  Final-Says thread_id s (inl (other, (v, o, r))) = inl (other, rw (v, o, r) refl, v, r, rw o refl)
  Final-Says thread_id s (inr (inl (analytical, r, (o, judged, over, v)))) =
      inr (inl (o, judged, over, rw v refl, v, r, rw (judged, over) refl))
  Final-Says thread_id s (inr (inr (analytical, r, (o, judged, within, v)))) =
      inr (inr (o, judged, within, rw v refl, v, r, refl, rw (judged, within) refl))

module _ {F : Type 0} ⦃ops : FloatOps F⦄ (sv : Services F) where
  -- A finished turn is reported as what it was: stopped at the classification, with its intent;
  -- over budget, with its statement and the suggestion; or served, with its statement and the rows of the
  -- execution, as they are.
  -- What belongs to the other two is absent, and there is no clarifying question.
  pub to_response-Says :
      (thread_id : String) (s : QueryState F)
      → Reach sv (ended s)
      → ((to_response thread_id (record { state = s; interrupt = none })).clarifying_question
          ≡ none)
        × (SaysIntent s (to_response thread_id (record { state = s; interrupt = none }))
            ⊎ (SaysOverBudget s (to_response thread_id (record { state = s; interrupt = none }))
                ⊎ SaysRows s (to_response thread_id (record { state = s; interrupt = none }))))
  unfolding to_response final_response
  to_response-Says thread_id s r = (refl, Final-Says thread_id s (Reach-IsSound sv r))
