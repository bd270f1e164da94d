-- ===== src/Gate/Outcome.antt =====
-- What holds of the gate's result on every path: the rules' values reach the assessment, and
-- neither of the two assertions of `assess` can fail.
use mathlib.Core.List.{append-nil}
use gen_ql.Base.{
  String, Option, none, some, List, [], ◌∷◌, ◌≡◌, ◌≢◌, Elem, Elem-append_left, Elem-contains, keep,
  keep-nil, Dict, lookup, arith, FloatOps, Result, ok, err, python_error, inl, inr, ap, Bool-cases,
  Option-cases, ◌++◌, chat_provider_error, validation_error,
}
use gen_ql.Entities.{SchemaLink, Rule, AmbiguityAssessment}
use gen_ql.Gate.{
  GateService, GateResponse, dimensions, defaults_of, open_dimensions, assume, ask, decide,
  default_pairs, dict_of, assess_open, assess, guesses_of, assumptions_of, score_round, spent,
  catch_provider, needs_score, is_under, known_pairs,
}
use gen_ql.Gate.Rules.{first_rule, lookup-defaults_of}
use gen_ql.Gate.Rounds.{under-needs_score, Scored, score_round-Scored}
use gen_ql.Base.{>>=-eq-ok, >>=-eq-err}

default_pairs-some :
    (f : Rule → String) (d : Dict Rule) (k : String) (ks : List String) (r : Rule)
    → lookup d k ≡ some r
    → default_pairs f d (k ∷ ks) ≡ (k, f r) ∷ default_pairs f d ks
unfolding default_pairs
default_pairs-some f d k ks r e = ground arith

default_pairs-none :
    (f : Rule → String) (d : Dict Rule) (k : String) (ks : List String)
    → lookup d k ≡ none
    → default_pairs f d (k ∷ ks) ≡ default_pairs f d ks
unfolding default_pairs
default_pairs-none f d k ks e = ground arith

default_pairs-Elem :
    (f : Rule → String) (d : Dict Rule) (ks : List String) (k : String) (r : Rule)
    → lookup d k ≡ some r
    → Elem k ks
    → Elem (k, f r) (default_pairs f d ks)
default_pairs-Elem f d [] k r e m = absurd m
default_pairs-Elem f d (j ∷ ks) k r e (inl same) =
    rw (default_pairs-some f d j ks r (rw same at e)) (inl (ap (λ x. (x, f r)) same))
default_pairs-Elem f d (j ∷ ks) k r e (inr later) = elim (Option-cases (lookup d j)) [
  | inl gap ↦ rw (default_pairs-none f d j ks gap) (default_pairs-Elem f d ks k r e later)
  | inr (q, found) ↦
      rw (default_pairs-some f d j ks q found) (inr (default_pairs-Elem f d ks k r e later))
]

module _ {F : Type 0} ⦃ops : FloatOps F⦄ where
  -- The assessment keeps the pairs that the rules gave, and may assume more behind them.
  abbrev Keeps : List (String × String) → List (String × String) → AmbiguityAssessment F → Type 0
  Keeps applied assumed a =
      (more : List (String × String)) × (a.applied_defaults ≡ applied)
      × (a.assumed ≡ assumed ++ more)

  assume-Keeps :
      (response : Option (GateResponse F)) (under : List String)
      (applied assumed : List (String × String)) (scores : List (String × F))
      {a : AmbiguityAssessment F}
      → assume response under applied assumed scores ≡ ok a
      → Keeps applied assumed a
  unfolding assume
  assume-Keeps none under applied assumed scores e = absurd (ground arith)
  assume-Keeps (some r) under applied assumed scores e =
      (guesses_of (assumptions_of [] r.scores) under, ground arith, ground arith)

  ask-Keeps :
      (response : Option (GateResponse F)) (d : String) (under : List String)
      (applied assumed : List (String × String)) (scores : List (String × F))
      {a : AmbiguityAssessment F}
      → ask response d under applied assumed scores ≡ ok a
      → Keeps applied assumed a
  unfolding ask
  ask-Keeps none d under applied assumed scores e = absurd (ground arith)
  ask-Keeps (some r) d under applied assumed scores e =
      ([], ground arith, ground (arith, append-nil assumed))

  decide-Keeps :
      (s : GateService F) (answers : List (String × String)) (response : Option (GateResponse F))
      (under : List String) (applied assumed : List (String × String)) (scores : List (String × F))
      {a : AmbiguityAssessment F}
      → decide s answers response under applied assumed scores ≡ ok a
      → Keeps applied assumed a
  unfolding decide
  decide-Keeps s answers response [] applied assumed scores e =
      ([], ground arith, ground (arith, append-nil assumed))
  decide-Keeps s answers response (d ∷ under) applied assumed scores e =
      elim (Bool-cases (spent s.max_questions answers)) [
        | inl over ↦ assume-Keeps response (d ∷ under) applied assumed scores (rw over at e)
        | inr within ↦ ask-Keeps response d (d ∷ under) applied assumed scores (rw within at e)
      ]

  assess_open-Keeps :
      (s : GateService F) (question : String) (answers : List (String × String)) (ds : List String)
      (known : Dict F) (applied assumed : List (String × String)) {a : AmbiguityAssessment F}
      → assess_open s question answers ds known applied assumed ≡ ok a
      → Keeps applied assumed a
  unfolding assess_open
  assess_open-Keeps s question answers [] known applied assumed e =
      ([], ground arith, ground (arith, append-nil assumed))
  assess_open-Keeps s question answers (d ∷ ds) known applied assumed {a} e =
      let (round, _, decided) =
        >>=-eq-ok
          (score_round s question answers (keep (needs_score s.threshold known) (d ∷ ds)) known) _
          e in
      decide-Keeps s answers round.0 (keep (is_under s.threshold round.1) (d ∷ ds)) applied assumed
        (known_pairs round.1 (d ∷ ds)) decided

  -- The value and the name of the first rule for each of the six dimensions reach the assessment,
  -- whether the question is then found ambiguous or not.
  pub assess_applies_rules :
      (s : GateService F) (question datasource : String) (answers : List (String × String))
      (links : List SchemaLink) (known_scores : List (String × F)) (d : String)
      {a : AmbiguityAssessment F} {rules : List Rule} {r : Rule}
      → s.read_rules datasource ≡ ok rules
      → Elem d dimensions
      → first_rule d rules ≡ some r
      → assess s question datasource answers links known_scores ≡ ok a
      → Elem (d, r.value) a.assumed × Elem (d, r.name) a.applied_defaults
  unfolding assess
  assess_applies_rules s question datasource answers links known_scores d {a} {rules} {r} read m
        first e =
      let defaults = defaults_of rules in
      let found : lookup defaults d ≡ some r =
        ground (arith, lookup-defaults_of rules d, Elem-contains dimensions d m) in
      let values = default_pairs (λ q. q.value) defaults dimensions in
      let names = default_pairs (λ q. q.name) defaults dimensions in
      let (more, applied, assumed) =
        assess_open-Keeps s question answers (open_dimensions defaults answers links)
          (dict_of [] known_scores) names values (rw read at e) in
      (
        rw assumed (
            Elem-append_left (d, r.value) values more
              (default_pairs-Elem (λ q. q.value) defaults dimensions d r found m)),
        rw applied (default_pairs-Elem (λ q. q.name) defaults dimensions d r found m),
      )

  decide-some :
      (s : GateService F) (answers : List (String × String)) (r : GateResponse F)
      (under : List String) (applied assumed : List (String × String)) (scores : List (String × F))
      (m : String)
      → decide s answers (some r) under applied assumed scores ≢ err (python_error m)
  unfolding decide assume ask
  decide-some s answers r [] applied assumed scores m e = cc
  decide-some s answers r (d ∷ under) applied assumed scores m e = ground arith

  catch_provider_raised :
      (p : Result (GateResponse F)) (m : String)
      → p ≢ err (python_error m)
      → catch_provider p ≢ err (python_error m)
  unfolding catch_provider
  catch_provider_raised (ok r) m h e = cc
  catch_provider_raised (err chat_provider_error) m h e = cc
  catch_provider_raised (err validation_error) m h e = cc
  catch_provider_raised (err other) m h e = h e

  score_round_raised :
      (s : GateService F) (question : String) (answers : List (String × String))
      (to_score : List String) (known : Dict F) (m : String)
      → s.complete question to_score answers ≢ err (python_error m)
      → score_round s question answers to_score known ≢ err (python_error m)
  unfolding score_round
  score_round_raised s question answers [] known m raised e = cc
  score_round_raised s question answers (t ∷ ts) known m raised e =
      elim (>>=-eq-err (catch_provider (s.complete question (t ∷ ts) answers)) _ e) [
        | inl failed ↦ catch_provider_raised (s.complete question (t ∷ ts) answers) m raised failed
        | inr (r, _, rest) ↦ cc
      ]

  -- With nothing to score, nothing is under the threshold; with a response, no branch asserts.
  Scored-decide :
      (s : GateService F) (answers : List (String × String)) (ds : List String) (known : Dict F)
      (applied assumed : List (String × String)) (scores : List (String × F)) (m : String)
      (round : Option (GateResponse F) × Dict F)
      → Scored (keep (needs_score s.threshold known) ds) known round
      → decide s answers round.0 (keep (is_under s.threshold round.1) ds) applied assumed scores
        ≢ err (python_error m)
  unfolding decide
  Scored-decide s answers ds known applied assumed scores m (response, known')
        (inl (none_left, _, same)) e =
      let nothing =
        keep-nil (needs_score s.threshold known) (is_under s.threshold known) ds
          (under-needs_score s.threshold known) none_left in
      cc (rw (same, nothing) at e)
  Scored-decide s answers ds known applied assumed scores m (response, known')
        (inr (r, answered, _)) e =
      decide-some s answers r (keep (is_under s.threshold known') ds) applied assumed scores m
        (rw answered at e)

  assess_open_asserts :
      (s : GateService F) (question : String) (answers : List (String × String)) (ds : List String)
      (known : Dict F) (applied assumed : List (String × String)) (m : String)
      → ((to_score : List String) → s.complete question to_score answers ≢ err (python_error m))
      → assess_open s question answers ds known applied assumed ≢ err (python_error m)
  unfolding assess_open
  assess_open_asserts s question answers [] known applied assumed m raised e = cc
  assess_open_asserts s question answers (d ∷ ds) known applied assumed m raised e =
      let to_score = keep (needs_score s.threshold known) (d ∷ ds) in
      elim (>>=-eq-err (score_round s question answers to_score known) _ e) [
        | inl failed ↦
            score_round_raised s question answers to_score known m (raised to_score) failed
        | inr (round, done, rest) ↦
            Scored-decide s answers (d ∷ ds) known applied assumed (known_pairs round.1 (d ∷ ds)) m
              round (score_round-Scored s question answers to_score known {round = round} done) rest
      ]

  -- Neither `assert response is not None` fails: `assess` ends in a Python error of a name only if
  -- the provider or the rule reader raised it.
  pub assess_asserts :
      (s : GateService F) (question datasource : String) (answers : List (String × String))
      (links : List SchemaLink) (known_scores : List (String × F)) (m : String)
      → s.read_rules datasource ≢ err (python_error m)
      → ((to_score : List String) → s.complete question to_score answers ≢ err (python_error m))
      → assess s question datasource answers links known_scores ≢ err (python_error m)
  unfolding assess
  assess_asserts s question datasource answers links known_scores m read raised e =
      elim (>>=-eq-err (s.read_rules datasource) _ e) [
        | inl failed ↦ read failed
        | inr (rules, _, rest) ↦
            assess_open_asserts s question answers
              (open_dimensions (defaults_of rules) answers links) (dict_of [] known_scores) _ _ m
              raised rest
      ]
