-- ===== src/Gate/Asks.antt =====
-- What the gate may ask: one open dimension, with a question, within the budget.
use gen_ql.Base.{
  String, Bool, true, false, Option, none, some, List, [], ◌∷◌, ◌≡◌, refl, contains, contains-Elem,
  Elem-contains, is_empty, strip, if◌then◌else◌, if-Elem, keep, >>=-eq-ok, Elem, Elem-keep, Dict,
  ok, FloatOps, arith, Bool-cases, inl, inr,
}
use gen_ql.Gate.Rules.{first_rule, lookup-defaults_of}
use gen_ql.Gate.Open.{answered, open-Elem}
use gen_ql.Entities.{SchemaLink, Rule, AmbiguityAssessment}
use gen_ql.Gate.{
  GateService, GateResponse, dimensions, defaults_of, open_dimensions, schema_excludes, assume, ask,
  decide, assess_open, assess, score_round, spent, dict_of, needs_score, is_under, known_pairs,
}

-- An assessment asks about a member of `ds`, with a question that is not blank.
abbrev pub AsksAbout : {F : Type 0} → List String → AmbiguityAssessment F → Type 0
AsksAbout ds a =
    (d : String) × (question : String) × (a.missing_dimension ≡ some d)
    × Elem d ds
    × (a.clarifying_question ≡ some question)
    × (is_empty question ≡ false)

module _ {F : Type 0} ⦃ops : FloatOps F⦄ where
  -- The dimension that `ask` names.
  abbrev chosen : GateResponse F → String → List String → String
  chosen r first under =
      if contains under r.clarifying_dimension then r.clarifying_dimension else first

  chosen-Elem :
      (r : GateResponse F) (d : String) (under : List String)
      → Elem (chosen r d (d ∷ under)) (d ∷ under)
  chosen-Elem r d under =
      if-Elem (contains (d ∷ under) r.clarifying_dimension) r.clarifying_dimension d (d ∷ under)
        (contains-Elem (d ∷ under) r.clarifying_dimension) (inl refl)

  ask-AsksAbout :
      (response : Option (GateResponse F)) (d : String) (under : List String)
      (applied assumed : List (String × String)) (scores : List (String × F))
      {a : AmbiguityAssessment F}
      → ask response d (d ∷ under) applied assumed scores ≡ ok a
      → AsksAbout (d ∷ under) a
  unfolding ask
  ask-AsksAbout none d under applied assumed scores e = cc
  ask-AsksAbout (some r) d under applied assumed scores e = (
    chosen r d (d ∷ under),
    strip r.clarifying_question,
    ground arith,
    chosen-Elem r d under,
    ground arith,
    ground arith,
  )

  assume-clears :
      (response : Option (GateResponse F)) (under : List String)
      (applied assumed : List (String × String)) (scores : List (String × F))
      {a : AmbiguityAssessment F}
      → assume response under applied assumed scores ≡ ok a
      → a.is_ambiguous ≡ false
  unfolding assume
  assume-clears none under applied assumed scores e = cc
  assume-clears (some r) under applied assumed scores e = ground arith

  decide-AsksAbout :
      (s : GateService F) (answers : List (String × String)) (response : Option (GateResponse F))
      (under : List String) (applied assumed : List (String × String)) (scores : List (String × F))
      {a : AmbiguityAssessment F}
      → decide s answers response under applied assumed scores ≡ ok a
      → a.is_ambiguous ≡ true
      → (spent s.max_questions answers ≡ false) × AsksAbout under a
  unfolding decide
  decide-AsksAbout s answers response [] applied assumed scores e amb = absurd (ground arith)
  decide-AsksAbout s answers response (d ∷ under) applied assumed scores e amb =
      elim (Bool-cases (spent s.max_questions answers)) [
        | inl over ↦ absurd (
            ground
              (arith, assume-clears response (d ∷ under) applied assumed scores (rw over at e)))
        | inr within ↦
            (within, ask-AsksAbout response d under applied assumed scores (rw within at e))
      ]

  AsksAbout-weaken :
      (p : String → Bool) (ds : List String) (a : AmbiguityAssessment F)
      → AsksAbout (keep p ds) a
      → AsksAbout ds a
  AsksAbout-weaken p ds a (d, question, missing, among, asked, nonblank) =
      (d, question, missing, (Elem-keep p d ds among).0, asked, nonblank)

  assess_open-AsksAbout :
      (s : GateService F) (question : String) (answers : List (String × String))
      (open_dims : List String) (known : Dict F) (applied assumed : List (String × String))
      {a : AmbiguityAssessment F}
      → assess_open s question answers open_dims known applied assumed ≡ ok a
      → a.is_ambiguous ≡ true
      → (spent s.max_questions answers ≡ false) × AsksAbout open_dims a
  unfolding assess_open
  assess_open-AsksAbout s question answers [] known applied assumed e amb = absurd (ground arith)
  assess_open-AsksAbout s question answers (d ∷ ds) known applied assumed {a} e amb =
      let to_score = keep (needs_score s.threshold known) (d ∷ ds) in
      let (round, _, decided) = >>=-eq-ok (score_round s question answers to_score known) _ e in
      let under = is_under s.threshold round.1 in
      let (within, asks) =
        decide-AsksAbout s answers round.0 (keep under (d ∷ ds)) applied assumed
          (known_pairs round.1 (d ∷ ds)) decided amb in
      (within, AsksAbout-weaken under (d ∷ ds) a asks)

  pub assess-AsksAbout_open :
      (s : GateService F) (question datasource : String) (answers : List (String × String))
      (links : List SchemaLink) (known_scores : List (String × F)) {a : AmbiguityAssessment F}
      → assess s question datasource answers links known_scores ≡ ok a
      → a.is_ambiguous ≡ true
      → (rules : List Rule) × (s.read_rules datasource ≡ ok rules)
        × (spent s.max_questions answers ≡ false)
        × AsksAbout (open_dimensions (defaults_of rules) answers links) a
  unfolding assess
  assess-AsksAbout_open s question datasource answers links known_scores e amb =
      let (rules, read, rest) = >>=-eq-ok (s.read_rules datasource) _ e in
      let (within, asks) =
        assess_open-AsksAbout s question answers (open_dimensions (defaults_of rules) answers links)
          (dict_of [] known_scores) _ _ rest amb in
      (rules, read, within, asks)

  -- One open dimension, named and asked about within the budget.
  abbrev pub AsksOne :
      GateService F
      → String
      → List (String × String)
      → List SchemaLink
      → AmbiguityAssessment F
      → Type 0
  AsksOne s datasource answers links a =
      (d : String) × (text : String) × (rules : List Rule) × (a.missing_dimension ≡ some d)
      × Elem d dimensions
      × (s.read_rules datasource ≡ ok rules)
      × (first_rule d rules ≡ none)
      × (contains (answered answers) d ≡ false)
      × (schema_excludes links d ≡ false)
      × (a.clarifying_question ≡ some text)
      × (is_empty text ≡ false)
      × (spent s.max_questions answers ≡ false)

  -- When the gate finds a question ambiguous, it names one of the six dimensions, which no rule of
  -- the datasource covers, which was not answered before, and which is not the time range where no
  -- linked column is a date; it asks a question that is not blank; and the question budget, if
  -- there is one, exceeds the number of answers.
  pub assess_asks :
      (s : GateService F) (question datasource : String) (answers : List (String × String))
      (links : List SchemaLink) (known_scores : List (String × F)) {a : AmbiguityAssessment F}
      → assess s question datasource answers links known_scores ≡ ok a
      → a.is_ambiguous ≡ true
      → AsksOne s datasource answers links a
  assess_asks s question datasource answers links known_scores e amb =
      let (rules, read, within, (d, text, missing, among, asked, nonblank)) =
        assess-AsksAbout_open s question datasource answers links known_scores e amb in
      let (member, uncovered, unanswered, expressible) =
        open-Elem (defaults_of rules) answers links d among in
      (
        d,
        text,
        rules,
        missing,
        member,
        read,
        ground (arith, lookup-defaults_of rules d, Elem-contains dimensions d member),
        unanswered,
        expressible,
        asked,
        nonblank,
        within,
      )
