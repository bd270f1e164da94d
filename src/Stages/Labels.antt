-- ===== src/Stages/Labels.antt =====
-- The labels of a question (genql/services/query/intent_classification_service.py).
use gen_ql.Base.{
  String, some, ◌≡◌, ◌≢◌, ◌⊎◌, inl, inr, refl, arith, Elem, contains, contains-Elem, Bool-cases,
  Option-cases, chat_provider_error, validation_error, intent_classification_error, Result, ok, err,
  ◌>>=◌,
}
use gen_ql.Stages.Intent.{
  question_intents, classify_deterministically, as_intent_error, known_label, classify,
}

-- One of the four labels, or the error of this stage, or an exception of the model's call that is
-- not one of those that the stage translates.
abbrev pub Labelled : Result String → Result String → Type 0
Labelled called (ok label) = Elem label question_intents
Labelled called (err e) =
    (e ≡ intent_classification_error)
    ⊎ ((called ≡ err e) × (e ≢ chat_provider_error) × (e ≢ validation_error))

known-Labelled : (called : Result String) (label : String) → Labelled called (known_label label)
known-Labelled called label = elim (Bool-cases (contains question_intents label)) [
  | inl known ↦ rw known (contains-Elem question_intents label known)
  | inr unknown ↦ rw unknown (inl refl)
]

called-Labelled :
    (called : Result String) → Labelled called (as_intent_error called >>= known_label)
called-Labelled (ok label) = known-Labelled (ok label) label
called-Labelled (err chat_provider_error) = inl refl
called-Labelled (err validation_error) = inl refl
called-Labelled (err e) = inr (refl, λ h. cc, λ h. cc)

-- The pre-filter settles a question only as an analytical one.
settled_eq :
    (question label : String)
    → classify_deterministically question ≡ some label
    → label ≡ "analytical_sql"
unfolding classify_deterministically
settled_eq question label h = ground arith

-- Whatever the model answers, a question is labelled with one of the four intents, or the stage
-- raises its own error, or the call of the model raised an exception that is neither a
-- ChatProviderError nor a ValidationError.
pub classify-Labelled :
    (complete : String → Result String) (question : String)
    → Labelled (complete question) (classify complete question)
unfolding classify
classify-Labelled complete question = elim (Option-cases (classify_deterministically question)) [
  | inl open_question ↦ rw (classify, open_question) (called-Labelled (complete question))
  | inr (label, settled) ↦ rw (classify, settled, settled_eq question label settled) (inl refl)
]
