-- ===== src/Gate/Rounds.antt =====
-- What a round of the gate costs and keeps: confident dimensions are not scored again, and the two
-- assertions of `assess` hold.
use gen_ql.Base.{
  String, true, false, Option, none, some, List, [], ◌∷◌, map, ◌≡◌, refl, eq_iff, Elem, keep,
  keep-nil, Dict, has_key, has_key-insert, has_key-set_default, insert, set_default, arith,
  FloatOps, Result, ok, Bool-cases, inl, inr, sym, ◌⊎◌, >>=-eq-ok, keep-Elem, keep-none,
}
use gen_ql.Entities.{SchemaLink, Rule, AmbiguityAssessment}
use gen_ql.Gate.{
  GateService, GateResponse, DimensionScore, dimensions, defaults_of, open_dimensions, assume, ask,
  decide, default_pairs, dict_of, assess_open, assess, score_round, catch_provider, needs_score,
  is_under, known_pairs, absorb_scores, default_scores, cleared,
}

module _ {F : Type 0} ⦃ops : FloatOps F⦄ where
  pub under-needs_score :
      (threshold : F) (known : Dict F) (d : String)
      → is_under threshold known d ≡ true
      → needs_score threshold known d ≡ true
  under-needs_score threshold known d h = ground arith

  -- No open dimension is left to score.
  abbrev pub IsConfident : F → Dict F → List String → Type 0
  IsConfident threshold known ds = keep (needs_score threshold known) ds ≡ []

  confident-known_pairs :
      (threshold : F) (known : Dict F) (ds : List String)
      → IsConfident threshold known ds
      → map (λ (p : String × F). p.0) (known_pairs known ds) ≡ ds
  unfolding known_pairs
  confident-known_pairs threshold known [] h = refl
  confident-known_pairs threshold known (d ∷ ds) h =
      ground (arith, confident-known_pairs threshold known ds)

  assess_open_confident :
      (s : GateService F) (question : String) (answers : List (String × String)) (ds : List String)
      (known : Dict F) (applied assumed : List (String × String))
      → IsConfident s.threshold known ds
      → assess_open s question answers ds known applied assumed
        ≡ ok (cleared applied assumed (known_pairs known ds))
  unfolding assess_open score_round decide known_pairs
  assess_open_confident s question answers [] known applied assumed h = refl
  assess_open_confident s question answers (d ∷ ds) known applied assumed h =
      rw
        (
          h,
          keep-nil (needs_score s.threshold known) (is_under s.threshold known) (d ∷ ds)
              (under-needs_score s.threshold known) h,
        )
        refl

  confident_has_key :
      (threshold : F) (known : Dict F) (d : String)
      → needs_score threshold known d ≡ false
      → has_key known d ≡ true
  confident_has_key threshold known d h = ground arith

  confident-has_key :
      (threshold : F) (known : Dict F) (ds : List String) (d : String)
      → IsConfident threshold known ds
      → Elem d ds
      → has_key known d ≡ true
  confident-has_key threshold known [] d h m = absurd m
  confident-has_key threshold known (e ∷ ds) d h m =
      ground (arith, confident-has_key threshold known ds d)

  has_key-absorb_scores :
      (known : Dict F) (scores : List (DimensionScore F)) (d : String)
      → has_key known d ≡ true
      → has_key (absorb_scores known scores) d ≡ true
  unfolding absorb_scores
  has_key-absorb_scores known [] d h = h
  has_key-absorb_scores known (s ∷ rest) d h =
      has_key-absorb_scores (insert s.dimension s.confidence known) rest d
        (ground (arith, has_key-insert s.dimension d s.confidence known))

  has_key-default_scores :
      (v : F) (known : Dict F) (ks : List String) (d : String)
      → has_key known d ≡ true
      → has_key (default_scores v known ks) d ≡ true
  unfolding default_scores
  has_key-default_scores v known [] d h = h
  has_key-default_scores v known (k ∷ ks) d h =
      has_key-default_scores v (set_default k v known) ks d
        (ground (arith, has_key-set_default k d v known))

  default_scores-Elem :
      (v : F) (known : Dict F) (ks : List String) (d : String)
      → Elem d ks
      → has_key (default_scores v known ks) d ≡ true
  unfolding default_scores
  default_scores-Elem v known [] d h = absurd h
  default_scores-Elem v known (k ∷ ks) d (inl same) =
      has_key-default_scores v (set_default k v known) ks d
        (ground (arith, has_key-set_default k d v known, eq_iff k d, sym same))
  default_scores-Elem v known (k ∷ ks) d (inr later) =
      default_scores-Elem v (set_default k v known) ks d later

  known_pairs-keys :
      (known : Dict F) (ds : List String)
      → ((d : String) → Elem d ds → has_key known d ≡ true)
      → map (λ (p : String × F). p.0) (known_pairs known ds) ≡ ds
  unfolding known_pairs
  known_pairs-keys known [] h = refl
  known_pairs-keys known (d ∷ ds) h =
      ground (arith, h d (inl refl), known_pairs-keys known ds (λ e m. h e (inr m)))

  -- A round scores nothing, or asks the provider once.
  abbrev pub Scored : List String → Dict F → Option (GateResponse F) × Dict F → Type 0
  Scored to_score known round =
      (to_score ≡ []) × (round.0 ≡ none) × (round.1 ≡ known)
      ⊎ ((r : GateResponse F) × (round.0 ≡ some r)
          × (round.1 ≡ default_scores ops.zero_float (absorb_scores known r.scores) to_score))

  pub score_round-Scored :
      (s : GateService F) (question : String) (answers : List (String × String))
      (to_score : List String) (known : Dict F) {round : Option (GateResponse F) × Dict F}
      → score_round s question answers to_score known ≡ ok round
      → Scored to_score known round
  unfolding score_round
  score_round-Scored s question answers [] known e = inl (refl, ground arith, ground arith)
  score_round-Scored s question answers (t ∷ ts) known e =
      let (r, _, rest) = >>=-eq-ok (catch_provider (s.complete question (t ∷ ts) answers)) _ e in
      inr (r, ground arith, ground arith)

  -- Every open dimension has a score after the round.
  Scored-known :
      (threshold : F) (ds : List String) (known : Dict F) {round : Option (GateResponse F) × Dict F}
      → Scored (keep (needs_score threshold known) ds) known round
      → (d : String) → Elem d ds
      → has_key round.1 d ≡ true
  Scored-known threshold ds known (inl (none_left, _, same)) d m =
      rw same (confident-has_key threshold known ds d none_left m)
  Scored-known threshold ds known (inr (r, _, scored)) d m =
      elim (Bool-cases (needs_score threshold known d)) [
        | inl needed ↦ rw scored (
            default_scores-Elem ops.zero_float (absorb_scores known r.scores)
              (keep (needs_score threshold known) ds) d
              (keep-Elem (needs_score threshold known) d ds m needed))
        | inr confident ↦ rw scored (
            has_key-default_scores ops.zero_float (absorb_scores known r.scores)
              (keep (needs_score threshold known) ds) d
              (has_key-absorb_scores known r.scores d
                (confident_has_key threshold known d confident)))
      ]

  decide-scores :
      (s : GateService F) (answers : List (String × String)) (response : Option (GateResponse F))
      (under : List String) (applied assumed : List (String × String)) (scores : List (String × F))
      {a : AmbiguityAssessment F}
      → decide s answers response under applied assumed scores ≡ ok a
      → a.dimension_scores ≡ scores
  unfolding decide assume ask
  decide-scores s answers response [] applied assumed scores e = ground arith
  decide-scores s answers none (d ∷ under) applied assumed scores e = ground arith
  decide-scores s answers (some r) (d ∷ under) applied assumed scores e = ground arith

  assess_open-scores :
      (s : GateService F) (question : String) (answers : List (String × String)) (ds : List String)
      (known : Dict F) (applied assumed : List (String × String)) {a : AmbiguityAssessment F}
      → assess_open s question answers ds known applied assumed ≡ ok a
      → map (λ (p : String × F). p.0) a.dimension_scores ≡ ds
  unfolding assess_open
  assess_open-scores s question answers [] known applied assumed e = ground arith
  assess_open-scores s question answers (d ∷ ds) known applied assumed {a} e =
      let to_score = keep (needs_score s.threshold known) (d ∷ ds) in
      let (round, scored, decided) =
        >>=-eq-ok (score_round s question answers to_score known) _ e in
      let under = keep (is_under s.threshold round.1) (d ∷ ds) in
      rw
        (decide-scores s answers round.0 under applied assumed (known_pairs round.1 (d ∷ ds))
          decided)
        (known_pairs-keys round.1 (d ∷ ds) (
          Scored-known s.threshold (d ∷ ds) known {round = round}
            (score_round-Scored s question answers to_score known scored)))

  -- Every assessment, ambiguous or not, carries a score for exactly the open dimensions, in their
  -- order: those that no rule and no answer closes.
  pub assess_scores :
      (s : GateService F) (question datasource : String) (answers : List (String × String))
      (links : List SchemaLink) (known_scores : List (String × F)) {a : AmbiguityAssessment F}
      {rules : List Rule}
      → s.read_rules datasource ≡ ok rules
      → assess s question datasource answers links known_scores ≡ ok a
      → map (λ (p : String × F). p.0) a.dimension_scores
        ≡ open_dimensions (defaults_of rules) answers links
  unfolding assess
  assess_scores s question datasource answers links known_scores {a} {rules} read e =
      assess_open-scores s question answers (open_dimensions (defaults_of rules) answers links)
        (dict_of [] known_scores) _ _ (rw read at e)

  -- A round in which every open dimension already has a score at or above the threshold clears the
  -- question with no call of the provider, whatever the provider would say.
  pub assess_free :
      (s : GateService F) (question datasource : String) (answers : List (String × String))
      (links : List SchemaLink) (known_scores : List (String × F)) {rules : List Rule}
      → s.read_rules datasource ≡ ok rules
      → ((d : String)
          → Elem d (open_dimensions (defaults_of rules) answers links)
          → needs_score s.threshold (dict_of [] known_scores) d ≡ false)
      → (complete : String → List String → List (String × String) → Result (GateResponse F))
      → (a : AmbiguityAssessment F) × (assess
            (record s { complete = complete })
            question
            datasource
            answers
            links
            known_scores
          ≡ ok a)
        × (a.is_ambiguous ≡ false)
  unfolding assess
  assess_free s question datasource answers links known_scores {rules} read confident complete =
      let ds = open_dimensions (defaults_of rules) answers links in
      let known = dict_of [] known_scores in
      let applied = default_pairs (λ r. r.name) (defaults_of rules) dimensions in
      let assumed = default_pairs (λ r. r.value) (defaults_of rules) dimensions in
      (
        cleared applied assumed (known_pairs known ds),
        rw read (
            assess_open_confident (record s { complete = complete }) question answers ds known
              applied assumed (keep-none (needs_score s.threshold known) ds confident)),
        refl,
      )
