-- ===== src/Optimization/Tests.antt =====
-- A statement over budget that its decomposition brings within it, and the theorems on it.
use gen_ql.Base.{ℕ, String, true, none, some, [], ◌∷◌, ◌≡◌, refl, ok, ◌==◌, if◌then◌else◌, milli}
use gen_ql.Entities.{QueryPlan, OptimizationResult}
use gen_ql.Optimization.{OptimizationService, RewriteRule, rewrite, optimize}
use gen_ql.Optimization.Verdict.{IsVerdict, optimize-IsVerdict}

abbrev plan : QueryPlan
plan = record { question = "q"; plan_text = "p"; referenced_objects = [] }

abbrev pushdown : RewriteRule String
pushdown = record {
  name = "predicate_pushdown";
  apply = λ tree. if tree == "raw" then "pushed" else tree;
}

abbrev service : ℕ → OptimizationService String ℕ
service budget = record {
  rules = pushdown ∷ pushdown ∷ [];
  qualified = λ sql links. some sql;
  render = λ tree. tree;
  estimate = λ sql datasource. ok (if sql == "pushed" then 900 else 300);
  decompose = λ plan sql cost limit. ok "parts";
  budget = budget;
}

abbrev decomposed : OptimizationResult ℕ
decomposed = record {
  sql = "parts";
  rules_applied = "predicate_pushdown" ∷ [];
  estimated_cost = 300;
  within_budget = true;
  narrowing_suggestion = none;
}

optimize_run : optimize (service 500) plan "raw" [] "local" ≡ ok decomposed
unfolding optimize
optimize_run = refl

optimize-IsVerdict_example :
    (cost : ℕ) × ((service 500).estimate (rewrite (service 500) "raw" []).0 "local" ≡ ok cost)
    × IsVerdict (service 500) "local" cost decomposed
optimize-IsVerdict_example = optimize-IsVerdict (service 500) plan "raw" [] "local" optimize_run
