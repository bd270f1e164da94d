-- ===== src/Optimization.antt =====
-- The rewrite-and-cost-gate service: genql/services/query/optimization_service.py, with the
-- validator of genql/domain/entities/optimization_result.py. sqlglot's trees are the parameter type
-- `Tree`; `qualified` is its parser and `qualify` against the schema of the links.
pub mod Verdict
mod Tests
use gen_ql.Base.{
  String, Bool, true, false, not, ◌&&◌, Option, none, some, List, [], ◌∷◌, ◌++◌, if◌then◌else◌,
  ◌==◌, is_some, Error, validation_error, cost_estimation_error, Result, ok, err, ◌>>=◌, FloatOps,
  le_float, lt_float,
}
use gen_ql.Entities.{SchemaLink, QueryPlan, OptimizationResult}

pub record RewriteRule (Tree : Type 0) : Type 0 where
  pub name : String
  pub apply : Tree → Tree

-- `qualified` is `none` on a ParseError or an OptimizeError.
pub record OptimizationService (Tree F : Type 0) : Type 0 where
  pub rules : List (RewriteRule Tree)
  pub qualified : String → List SchemaLink → Option Tree
  pub render : Tree → String
  pub estimate : String → String → Result F
  pub decompose : QueryPlan → String → F → F → Result String
  pub budget : F

module _ {Tree : Type 0} where
  -- The loop over the rules: a rule counts as applied when the rendered text changed.
  pub apply_rewrites :
      (Tree → String) → List (RewriteRule Tree) → Tree → List String → Tree × List String
  apply_rewrites render [] tree applied = (tree, applied)
  apply_rewrites render (rule ∷ rules) tree applied =
      let tree' = rule.apply tree in
      apply_rewrites render rules tree'
        (if render tree' == render tree then applied else applied ++ rule.name ∷ [])

module _ {Tree F : Type 0} where
  -- `_rewrite`
  pub rewrite : OptimizationService Tree F → String → List SchemaLink → String × List String
  unfolding apply_rewrites
  rewrite s sql links = elim (s.qualified sql links) [
    | none ↦ (sql, [])
    | some tree ↦
        let (tree', applied) = apply_rewrites s.render s.rules tree [] in (s.render tree', applied)
  ]

module _ {F : Type 0} where
  -- `_suggestion_matches_verdict`
  pub validated : OptimizationResult F → Result (OptimizationResult F)
  validated r =
      if r.within_budget && is_some r.narrowing_suggestion
      then err validation_error
      else if not r.within_budget && not (is_some r.narrowing_suggestion)
      then err validation_error
      else ok r

  -- The `try`/`except CostEstimationError` around the candidate's estimate.
  abbrev pub estimate_or_none : Result F → Result (Option F)
  estimate_or_none (ok c) = ok (some c)
  estimate_or_none (err cost_estimation_error) = ok none
  estimate_or_none (err e) = err e

module _ {F : Type 0} ⦃ops : FloatOps F⦄ where
  -- `if candidate_cost is not None and candidate_cost < cost`
  pub cheaper : String → String → F → Option F → String × F
  cheaper candidate sql cost none = (sql, cost)
  cheaper candidate sql cost (some c) = if lt_float c cost then (candidate, c) else (sql, cost)

module _ {Tree F : Type 0} ⦃ops : FloatOps F⦄ where
  -- The cheaper of the statement and the decomposed candidate.
  pub better_of : OptimizationService Tree F → String → String → F → String → Result (String × F)
  unfolding cheaper
  better_of s candidate sql cost datasource = if candidate == sql then ok (sql, cost) else (do
    candidate_cost ← estimate_or_none (s.estimate candidate datasource)
    ok (cheaper candidate sql cost candidate_cost))

  -- `_decompose`
  pub decompose :
      OptimizationService Tree F
      → QueryPlan
      → String
      → List String
      → F
      → String
      → Result (OptimizationResult F)
  unfolding validated better_of
  decompose s plan sql applied cost datasource = do
    candidate ← s.decompose plan sql cost s.budget
    (best_sql, best_cost) ← better_of s candidate sql cost datasource
    let within = le_float best_cost s.budget
    validated (record {
      sql = best_sql;
      rules_applied = applied;
      estimated_cost = best_cost;
      within_budget = within;
      narrowing_suggestion = if within then none else some (best_cost, s.budget);
    })

  -- `optimize`, once the rewritten statement has a cost.
  pub gate :
      OptimizationService Tree F
      → QueryPlan
      → String
      → List String
      → String
      → F
      → Result (OptimizationResult F)
  unfolding decompose validated
  gate s plan rewritten applied datasource cost =
      if le_float cost s.budget
      then validated (record {
        sql = rewritten;
        rules_applied = applied;
        estimated_cost = cost;
        within_budget = true;
        narrowing_suggestion = none;
      })
      else decompose s plan rewritten applied cost datasource

  pub optimize :
      OptimizationService Tree F
      → QueryPlan
      → String
      → List SchemaLink
      → String
      → Result (OptimizationResult F)
  unfolding rewrite gate
  optimize s plan sql links datasource =
      let (rewritten, applied) = rewrite s sql links in
      s.estimate rewritten datasource >>= gate s plan rewritten applied datasource
