-- ===== src/Turn/Summary.antt =====
-- What one stage says of itself, and the budget it has: genql/api/sse/stage_summary.py, with
-- genql/domain/entities/stage_event.py.
use gen_ql.Base.{
  ℕ, Bool-cases, inl, inr, ◌-◌, ◌≤◌, String, Bool, true, false, Option, none, some, List, [], ◌∷◌,
  map, take, length, leb, is_empty, if◌then◌else◌, concat, join, split, text_length, text_take,
  text_length-concat, text_length-text_take, length-take-le, All, All-take, arith,
}

abbrev pub max_detail : ℕ
max_detail = 200

abbrev pub max_fact_value : ℕ
max_fact_value = 400

abbrev pub max_facts : ℕ
max_facts = 10

pub record StageSummary : Type 0 where
  pub detail : Option String
  pub facts : List (String × String)
  pub did_run : Bool

unfoldable pub trim : String → ℕ → String
trim text limit =
    let collapsed = join " " (split text) in
    if leb (text_length collapsed) limit
    then collapsed
    else concat (text_take (limit - 1) collapsed) "…"

-- `tuple((label, trim(value, MAX_FACT_VALUE)) for label, value in facts if value)`
unfoldable pub kept_facts : List (String × String) → List (String × String)
unfolding trim
kept_facts [] = []
kept_facts ((label, value) ∷ rest) =
    let kept = kept_facts rest in
    if is_empty value then kept else (label, trim value max_fact_value) ∷ kept

unfoldable pub reported : String → List (String × String) → StageSummary
unfolding trim kept_facts
reported detail facts = record {
  detail = some (trim detail max_detail);
  facts = take max_facts (kept_facts facts);
  did_run = true;
}

unfoldable pub skipped : String → StageSummary
unfolding trim
skipped reason = record { detail = some (trim reason max_detail); facts = []; did_run = false }

-- `f"{name} {value}"`
abbrev named : String × String → String
named (name, value) = concat name (concat " " value)

-- `joined`, with its default separator and the values as texts.
unfoldable pub joined : List (String × String) → String
joined pairs = join " · " (map named pairs)

pub trim-le : (text : String) (limit : ℕ) → 1 ≤ limit → text_length (trim text limit) ≤ limit
unfolding trim
trim-le text limit h = ground (
  arith,
  text_length-concat (text_take (limit - 1) (join " " (split text))) "…",
  text_length-text_take (limit - 1) (join " " (split text)),
)

abbrev IsShort : String × String → Type 0
IsShort (_, value) = text_length value ≤ max_fact_value

abbrev HasShortDetail : Option String → Type 0
HasShortDetail none = Unit
HasShortDetail (some text) = text_length text ≤ max_detail

-- At most ten facts of at most 400 characters, and a line of at most 200.
unfoldable pub IsBrief : StageSummary → Type 0
IsBrief summary =
    HasShortDetail summary.detail × (length summary.facts ≤ max_facts) × All IsShort summary.facts

kept_facts-IsShort : (facts : List (String × String)) → All IsShort (kept_facts facts)
unfolding kept_facts
kept_facts-IsShort [] = tt
kept_facts-IsShort ((label, value) ∷ rest) = elim (Bool-cases (is_empty value)) [
  | inl blank ↦ rw blank (kept_facts-IsShort rest)
  | inr given ↦ rw given (trim-le value max_fact_value (omega arith), kept_facts-IsShort rest)
]

pub reported-IsBrief :
    (detail : String) (facts : List (String × String)) → IsBrief (reported detail facts)
unfolding reported IsBrief
reported-IsBrief detail facts = (
  trim-le detail max_detail (omega arith),
  length-take-le max_facts (kept_facts facts),
  All-take IsShort max_facts (kept_facts facts) (kept_facts-IsShort facts),
)

pub skipped-IsBrief : (reason : String) → IsBrief (skipped reason)
unfolding skipped IsBrief
skipped-IsBrief reason = (trim-le reason max_detail (omega arith), omega arith, tt)
