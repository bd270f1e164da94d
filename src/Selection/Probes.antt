-- ===== src/Selection/Probes.antt =====
-- When probing decides, and which probe a candidate wins.
use gen_ql.Base.{
  ℤ, eqb_ℤ, String, true, Option, none, some, List, [], ◌∷◌, ◌≡◌, ◌≢◌, ◌↔◌, refl, map, any,
  is_nonempty, if◌then◌else◌, All, arith, Bool-cases, inl, inr, ◌==◌, eq_iff, All-of_map,
  All-to_map, ◌++◌, ap,
}
use gen_ql.Entities.{AmbiguityProbe, ProbeResult}
use gen_ql.Selection.{
  matches, only, uniquely_predicted_by, same_outcome, set_of, sole_index, probe_resolved_index,
}

eqb_ℤ_iff : (a b : ℤ) → (eqb_ℤ a b ≡ true) ↔ (a ≡ b)
eqb_ℤ_iff a b = ground arith

same_outcome_iff : (a b : Option ℤ) → (same_outcome a b ≡ true) ↔ (a ≡ b)
same_outcome_iff none none = (λ h. refl, λ h. refl)
same_outcome_iff none (some b) = (λ h. cc, λ h. cc)
same_outcome_iff (some a) none = (λ h. cc, λ h. cc)
same_outcome_iff (some a) (some b) = ground (arith, eqb_ℤ_iff a b)

set_of-cons :
    (o : Option ℤ) (os : List (Option ℤ))
    → set_of (o ∷ os) ≡ (if any (same_outcome o) (set_of os) then set_of os else o ∷ set_of os)
unfolding set_of
set_of-cons o os = refl

-- The set of a list of one outcome, and conversely.
set_of-constant :
    (o p : Option ℤ) (os : List (Option ℤ)) → All (λ q. q ≡ o) (p ∷ os) → set_of (p ∷ os) ≡ o ∷ []
set_of-constant o p [] h = rw (set_of-cons p []) (unfold set_of in ground arith)
set_of-constant o p (q ∷ os) h =
    rw (set_of-cons p (q ∷ os), set_of-constant o q os h.1, h.0)
      (rw ((same_outcome_iff o o).1 refl))

set_of-nil : (os : List (Option ℤ)) → set_of os ≡ [] → os ≡ []
unfolding set_of
set_of-nil [] e = refl
set_of-nil (o ∷ os) e = ground (arith, set_of-nil os)

constant_of_set : (o : Option ℤ) (os : List (Option ℤ)) → set_of os ≡ o ∷ [] → All (λ q. q ≡ o) os
constant_of_set o [] e = tt
constant_of_set o (p ∷ ps) e =
    ground (arith, set_of-cons p ps, set_of-nil ps, constant_of_set o ps, same_outcome_iff p o)

abbrev resolved_by : ProbeResult → Option ℤ
resolved_by r = r.resolved_candidate_index

sole_index-some : (os : List (Option ℤ)) (k : ℤ) → sole_index os ≡ some k → os ≡ some k ∷ []
sole_index-some [] k e = cc
sole_index-some (o ∷ []) k e = cc
sole_index-some (o ∷ p ∷ os) k e = cc

only-some : (is : List ℤ) (i : ℤ) → only is ≡ some i → is ≡ i ∷ []
only-some [] i e = cc
only-some (j ∷ []) i e = cc
only-some (j ∷ k ∷ is) i e = cc

-- Probing decides for a candidate exactly when a probe was run and every probe resolved to it.
pub probe_resolved_iff :
    (results : List ProbeResult) (k : ℤ)
    → (probe_resolved_index results ≡ some k)
      ↔ ((is_nonempty results ≡ true) × All (λ r. r.resolved_candidate_index ≡ some k) results)
unfolding probe_resolved_index
probe_resolved_iff [] k = (λ e. cc, λ h. cc)
probe_resolved_iff (r ∷ rs) k =
    let constant = λ (h : All (λ q. q ≡ some k) (map resolved_by (r ∷ rs))).
      set_of-constant (some k) (resolved_by r) (map resolved_by rs) h in
    (
      λ e. (
        refl,
        All-of_map (λ q. q ≡ some k) resolved_by (r ∷ rs)
            (constant_of_set (some k) (map resolved_by (r ∷ rs))
              (sole_index-some (set_of (map resolved_by (r ∷ rs))) k e)),
      ),
      λ h. rw (constant (All-to_map (λ q. q ≡ some k) resolved_by (r ∷ rs) h.1)),
    )

-- The predictions of the other candidates, before and after the one that came true.
abbrev pub OneMatch : List (ℤ × String) → String → ℤ → Type 0
OneMatch predictions actual i =
    (before : List (ℤ × String)) × (after : List (ℤ × String)) × (predictions
      ≡ before ++ (i, actual) ∷ after)
    × All (λ p. p.1 ≢ actual) before
    × All (λ p. p.1 ≢ actual) after

matches-none :
    (ps : List (ℤ × String)) (actual : String) → matches ps actual ≡ [] → All (λ p. p.1 ≢ actual) ps
unfolding matches
matches-none [] actual e = tt
matches-none ((i, p) ∷ ps) actual e = ground (arith, matches-none ps actual, eq_iff p actual)

none-matches :
    (ps : List (ℤ × String)) (actual : String) → All (λ p. p.1 ≢ actual) ps → matches ps actual ≡ []
unfolding matches
none-matches [] actual h = refl
none-matches ((i, p) ∷ ps) actual h =
    ground (arith, none-matches ps actual h.1, eq_iff p actual, h.0)

matches-one :
    (ps : List (ℤ × String)) (actual : String) (i : ℤ)
    → matches ps actual ≡ i ∷ []
    → OneMatch ps actual i
unfolding matches
matches-one [] actual i e = cc
matches-one ((j, p) ∷ ps) actual i e = elim (Bool-cases (p == actual)) [
  | inl same ↦ ([], ps, ground (arith, eq_iff p actual), tt, matches-none ps actual (ground arith))
  | inr other ↦
      let (before, after, shape, hb, ha) = matches-one ps actual i (rw other at e) in
      (
        (j, p) ∷ before,
        after,
        ap (λ t. (j, p) ∷ t) shape,
        (λ same. ground (arith, eq_iff p actual), hb),
        ha,
      )
]

one-matches :
    (before after : List (ℤ × String)) (actual : String) (i : ℤ)
    → All (λ p. p.1 ≢ actual) before
    → All (λ p. p.1 ≢ actual) after
    → matches (before ++ (i, actual) ∷ after) actual ≡ i ∷ []
unfolding matches
one-matches [] after actual i hb ha =
    ground (arith, none-matches after actual ha, eq_iff actual actual)
one-matches ((j, p) ∷ before) after actual i hb ha =
    ground (arith, eq_iff p actual, hb.0, one-matches before after actual i hb.1 ha)

-- A probe is won by candidate `i` exactly when one prediction equals the actual result, and it is
-- the prediction of `i`: two candidates that predict it leave the probe inconclusive.
pub uniquely_predicted_iff :
    (probe : AmbiguityProbe) (actual : String) (i : ℤ)
    → (uniquely_predicted_by probe actual ≡ some i) ↔ OneMatch probe.candidate_predictions actual i
unfolding uniquely_predicted_by
uniquely_predicted_iff probe actual i = (
  λ e.
      matches-one probe.candidate_predictions actual i
        (only-some (matches probe.candidate_predictions actual) i e),
  λ (before, after, shape, hb, ha). rw (shape, one-matches before after actual i hb ha),
)
