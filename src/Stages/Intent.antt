-- ===== src/Stages/Intent.antt =====
-- The classification of a question: genql/services/query/intent_classification_service.py, and
-- genql/domain/value_objects/question_intent.py. The answer of the model is a parameter.
use gen_ql.Base.{
  ℕ, String, Bool, true, false, ◌&&◌, Option, none, some, List, [], ◌∷◌, ◌++◌, any, eqb, leb,
  if◌then◌else◌, strip, lower, has_substring, contains, is_nonempty, chat_provider_error,
  validation_error, intent_classification_error, Result, ok, err, ◌>>=◌,
}

abbrev pub question_intents : List String
question_intents = "analytical_sql" ∷ "metadata_question" ∷ "followup" ∷ "non_sql" ∷ []

-- `_WORD_MARKERS`
abbrev pub word_markers : List String
word_markers =
    "average" ∷ "avg" ∷ "count" ∷ "highest" ∷ "largest" ∷ "lowest" ∷ "max" ∷ "maximum" ∷ "mean"
    ∷ "median" ∷ "min" ∷ "minimum" ∷ "most" ∷ "least" ∷ "per" ∷ "rank" ∷ "revenue" ∷ "sales"
    ∷ "smallest" ∷ "sum" ∷ "top" ∷ "total" ∷ "bottom" ∷ "breakdown" ∷ "distribution" ∷ "trend" ∷ []

-- `_PHRASE_MARKERS`
abbrev pub phrase_markers : List String
phrase_markers = "how many" ∷ "how much" ∷ "number of" ∷ []

abbrev pub disqualifiers : List String
disqualifiers =
    "hello" ∷ "hi " ∷ "hey" ∷ "thanks" ∷ "thank you" ∷ "please explain" ∷ "who are you"
    ∷ "what can you" ∷ "help me understand" ∷ "what tables" ∷ "which tables" ∷ "what columns"
    ∷ "which columns" ∷ "what does" ∷ "what is the schema" ∷ "describe the" ∷ "list the tables"
    ∷ "schema" ∷ "column" ∷ "table" ∷ "mean by" ∷ "definition" ∷ "instead" ∷ "what about"
    ∷ "also show" ∷ "same but" ∷ "previous" ∷ "that query" ∷ "earlier" ∷ []

abbrev is_letter : ℕ → Bool
is_letter c = leb 97 c && leb c 122

abbrev push_letters : List ℕ → List (List ℕ) → List (List ℕ)
push_letters w ws = if is_nonempty w then w ∷ ws else ws

-- The letters that a text starts with, and the words after them.
abbrev leading_letters : List ℕ → List ℕ × List (List ℕ)
leading_letters [] = ([], [])
leading_letters (c ∷ s) =
    let (w, ws) = leading_letters s in if is_letter c then (c ∷ w, ws) else ([], push_letters w ws)

-- `re.findall(r"[a-z]+", text)`
unfoldable pub words_of : List ℕ → List (List ℕ)
words_of s = let (w, ws) = leading_letters s in push_letters w ws

abbrev pub same_codes : List ℕ → List ℕ → Bool
same_codes [] [] = true
same_codes (c ∷ cs) (d ∷ ds) = eqb c d && same_codes cs ds
same_codes _ _ = false

-- `f" {question.lower().strip()} "`
unfoldable pub padded : String → List ℕ
padded question = 32 ∷ lower (strip question) ++ 32 ∷ []

abbrev pub has_phrase : List ℕ → String → Bool
has_phrase text phrase = has_substring (lower phrase) text

abbrev pub has_word : List (List ℕ) → String → Bool
has_word words word = any (same_codes (lower word)) words

-- `none` leaves the decision to the model.
unfoldable pub classify_deterministically : String → Option String
unfolding padded words_of
classify_deterministically question =
    let text = padded question in
    if any (has_phrase text) disqualifiers
    then none
    else if any (has_phrase text) phrase_markers
    then some "analytical_sql"
    else if any (has_word (words_of text)) word_markers
    then some "analytical_sql"
    else none

-- `except (ChatProviderError, ValidationError)`
abbrev pub as_intent_error : Result String → Result String
as_intent_error (ok label) = ok label
as_intent_error (err chat_provider_error) = err intent_classification_error
as_intent_error (err validation_error) = err intent_classification_error
as_intent_error (err e) = err e

abbrev pub known_label : String → Result String
known_label label =
    if contains question_intents label then ok label else err intent_classification_error

unfoldable pub classify : (String → Result String) → String → Result String
unfolding classify_deterministically
classify complete question = elim (classify_deterministically question) [
  | some settled ↦ ok settled
  | none ↦ as_intent_error (complete question) >>= known_label
]
