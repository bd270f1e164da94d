-- ===== src/Optimization/Verdict.antt =====
-- The verdict of the cost gate, on both of its paths.
use gen_ql.Base.{
  String, Bool, true, false, not, Option, none, some, List, ◌≡◌, refl, if◌then◌else◌, ◌==◌, is_some,
  cost_estimation_error, Result, ok, err, >>=-eq-ok, FloatOps, le_float, lt_float, arith,
  Bool-cases, inl, inr, ◌⊎◌,
}
use gen_ql.Entities.{SchemaLink, QueryPlan, OptimizationResult}
use gen_ql.Optimization.{
  OptimizationService, rewrite, cheaper, validated, estimate_or_none, better_of, decompose, gate,
  optimize,
}

module _ {F : Type 0} where
  estimate_or_none-some : (r : Result F) {c : F} → estimate_or_none r ≡ ok (some c) → r ≡ ok c
  estimate_or_none-some (ok d) e = ground arith
  estimate_or_none-some (err cost_estimation_error) e = cc
  estimate_or_none-some (err other) e = cc

  verdict_suggestion : (b : Bool) (p : F × F) → is_some (if b then none else some p) ≡ not b
  verdict_suggestion true p = refl
  verdict_suggestion false p = refl

  validated_id :
      (r : OptimizationResult F)
      → is_some r.narrowing_suggestion ≡ not r.within_budget
      → validated r ≡ ok r
  unfolding validated
  validated_id r h = ground arith

module _ {F : Type 0} ⦃ops : FloatOps F⦄ where
  abbrev verdict_of : String × F → List String → F → OptimizationResult F
  verdict_of best applied budget = record {
    sql = best.0;
    rules_applied = applied;
    estimated_cost = best.1;
    within_budget = le_float best.1 budget;
    narrowing_suggestion = if le_float best.1 budget then none else some (best.1, budget);
  }

module _ {Tree F : Type 0} ⦃ops : FloatOps F⦄ where
  -- The verdict agrees with the cost and the budget, and a suggestion is there when it is needed.
  pub record IsVerdict (s : OptimizationService Tree F) (datasource : String) (cost : F)
      (r : OptimizationResult F) : Type 0 where
    pub verdict : r.within_budget ≡ le_float r.estimated_cost s.budget
    pub suggestion : is_some r.narrowing_suggestion ≡ not r.within_budget
    pub estimated : s.estimate r.sql datasource ≡ ok r.estimated_cost
    pub no_worse : (ops.lt r.estimated_cost cost ≡ true) ⊎ (r.estimated_cost ≡ cost)

  -- The statement that is kept, and its cost.
  abbrev Kept : OptimizationService Tree F → String → F → String × F → Type 0
  Kept s datasource cost best =
      (s.estimate best.0 datasource ≡ ok best.1) × ((ops.lt best.1 cost ≡ true) ⊎ (best.1 ≡ cost))

  cheaper-Kept :
      (s : OptimizationService Tree F) (candidate sql : String) (cost : F) (datasource : String)
      (c : Option F)
      → s.estimate sql datasource ≡ ok cost
      → estimate_or_none (s.estimate candidate datasource) ≡ ok c
      → Kept s datasource cost (cheaper candidate sql cost c)
  unfolding cheaper
  cheaper-Kept s candidate sql cost datasource none h e = (h, inr refl)
  cheaper-Kept s candidate sql cost datasource (some c) h e = elim (Bool-cases (lt_float c cost)) [
    | inl lower ↦ rw lower (estimate_or_none-some (s.estimate candidate datasource) e, inl lower)
    | inr higher ↦ rw higher (h, inr refl)
  ]

  better_of-Kept :
      (s : OptimizationService Tree F) (candidate sql : String) (cost : F) (datasource : String)
      {best : String × F}
      → s.estimate sql datasource ≡ ok cost
      → better_of s candidate sql cost datasource ≡ ok best
      → Kept s datasource cost best
  unfolding better_of
  better_of-Kept s candidate sql cost datasource {best} h e = elim (Bool-cases (candidate == sql)) [
    | inl same ↦ let kept : best ≡ (sql, cost) = cc (rw same at e) in rw kept (h, inr refl)
    | inr other ↦
        let (c, known, rest) =
          >>=-eq-ok (estimate_or_none (s.estimate candidate datasource)) _ (rw other at e) in
        let kept : best ≡ cheaper candidate sql cost c = cc in
        rw kept (cheaper-Kept s candidate sql cost datasource c h known)
  ]

  decompose-IsVerdict :
      (s : OptimizationService Tree F) (plan : QueryPlan) (sql : String) (applied : List String)
      (cost : F) (datasource : String) {r : OptimizationResult F}
      → s.estimate sql datasource ≡ ok cost
      → decompose s plan sql applied cost datasource ≡ ok r
      → IsVerdict s datasource cost r
  unfolding decompose
  decompose-IsVerdict s plan sql applied cost datasource {r} h e =
      let (candidate, _, rest) = >>=-eq-ok (s.decompose plan sql cost s.budget) _ e in
      let (best, chosen, final) = >>=-eq-ok (better_of s candidate sql cost datasource) _ rest in
      let (estimated, no_worse) = better_of-Kept s candidate sql cost datasource h chosen in
      let within = le_float best.1 s.budget in
      let out = verdict_of best applied s.budget in
      let made : r ≡ out =
        cc (rw (validated_id out (verdict_suggestion within (best.1, s.budget))) at final) in
      rw made (record {
        verdict = refl;
        suggestion = verdict_suggestion within (best.1, s.budget);
        estimated = estimated;
        no_worse = no_worse;
      })

  gate-IsVerdict :
      (s : OptimizationService Tree F) (plan : QueryPlan) (sql : String) (applied : List String)
      (datasource : String) (cost : F) {r : OptimizationResult F}
      → s.estimate sql datasource ≡ ok cost
      → gate s plan sql applied datasource cost ≡ ok r
      → IsVerdict s datasource cost r
  unfolding gate validated
  gate-IsVerdict s plan sql applied datasource cost {r} h e =
      elim (Bool-cases (le_float cost s.budget)) [
        | inl within ↦
            let made : r ≡ record {
              sql = sql;
              rules_applied = applied;
              estimated_cost = cost;
              within_budget = true;
              narrowing_suggestion = none;
            } =
              cc (rw within at e) in
            rw made (record {
              verdict = rw within;
              suggestion = refl;
              estimated = h;
              no_worse = inr refl;
            })
        | inr over ↦ decompose-IsVerdict s plan sql applied cost datasource h (rw over at e)
      ]

  -- An optimisation result is within budget exactly when its cost does not exceed the budget, and
  -- carries a suggestion exactly when it is not; the cost is the estimate of the statement that is
  -- returned, and is the rewritten statement's cost or a lower one.
  pub optimize-IsVerdict :
      (s : OptimizationService Tree F) (plan : QueryPlan) (sql : String) (links : List SchemaLink)
      (datasource : String) {r : OptimizationResult F}
      → optimize s plan sql links datasource ≡ ok r
      → (cost : F) × (s.estimate (rewrite s sql links).0 datasource ≡ ok cost)
        × IsVerdict s datasource cost r
  unfolding optimize
  optimize-IsVerdict s plan sql links datasource e =
      let (rewritten, applied) = rewrite s sql links in
      let (cost, h, gated) = >>=-eq-ok (s.estimate rewritten datasource) _ e in
      (cost, h, gate-IsVerdict s plan rewritten applied datasource cost h gated)

  -- A rewritten statement within the budget is returned as it is, and the decomposer, whatever it
  -- would do, is not asked.
  pub optimize_within :
      (s : OptimizationService Tree F) (plan : QueryPlan) (sql : String) (links : List SchemaLink)
      (datasource : String) (cost : F)
      → s.estimate (rewrite s sql links).0 datasource ≡ ok cost
      → le_float cost s.budget ≡ true
      → (decomposer : QueryPlan → String → F → F → Result String)
      → optimize (record s { decompose = decomposer }) plan sql links datasource
        ≡ ok (record {
          sql = (rewrite s sql links).0;
          rules_applied = (rewrite s sql links).1;
          estimated_cost = cost;
          within_budget = true;
          narrowing_suggestion = none;
        })
  unfolding optimize gate validated rewrite
  optimize_within s plan sql links datasource cost h within decomposer = rw (h, within)
