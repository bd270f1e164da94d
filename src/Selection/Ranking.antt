-- ===== src/Selection/Ranking.antt =====
-- The critique ranking picks a best report: highest score, then lowest index, non-fatal if any is.
use gen_ql.Base.{
  Bool, true, false, not, some, List, [], ◌∷◌, ◌≡◌, refl, keep, is_nonempty, if◌then◌else◌, Elem,
  Elem-keep, nonempty-keep, FloatOps, IsOrdered, arith, Bool-cases, inl, inr, ◌≤◌, subst, ◌⊎◌,
  keep-Elem,
}
use gen_ql.Entities.{CritiqueReport, is_fatal}
use gen_ql.Selection.{outranks, best_of, pool_of, best_in, critique_ranked_report}

if_head :
    {A : Type 0} (t : Bool) (x b c : A) (cs : List A)
    → Elem x ((if t then c else b) ∷ cs)
    → Elem x (b ∷ c ∷ cs)
if_head true x b c cs h = inr h
if_head false x b c cs (inl e) = inl e
if_head false x b c cs (inr m) = inr (inr m)

module _ {F : Type 0} ⦃ops : FloatOps F⦄ where
  best_of-Elem :
      (b : CritiqueReport F) (cs : List (CritiqueReport F)) → Elem (best_of b cs) (b ∷ cs)
  unfolding best_of
  best_of-Elem b [] = inl refl
  best_of-Elem b (c ∷ cs) =
      let next = if outranks c b then c else b in
      if_head (outranks c b) (best_of next cs) b c cs (best_of-Elem next cs)

  best_in-Elem :
      (pool : List (CritiqueReport F)) {best : CritiqueReport F}
      → best_in pool ≡ some best
      → Elem best pool
  best_in-Elem [] e = cc
  best_in-Elem (b ∷ cs) {best} e =
      let same : best_of b cs ≡ best = cc in subst (λ x. Elem x (b ∷ cs)) same (best_of-Elem b cs)

  abbrev survives : CritiqueReport F → Bool
  survives c = not (is_fatal c)

  pool-cases :
      (critiques : List (CritiqueReport F))
      → (pool_of critiques ≡ keep survives critiques)
        ⊎ ((pool_of critiques ≡ critiques) × (is_nonempty (keep survives critiques) ≡ false))
  pool-cases critiques = elim (Bool-cases (is_nonempty (keep survives critiques))) [
    | inl some_left ↦ inl (rw some_left)
    | inr none_left ↦ inr (rw none_left, none_left)
  ]

  pub critique_ranked-Elem :
      (critiques : List (CritiqueReport F)) {w : CritiqueReport F}
      → critique_ranked_report critiques ≡ some w
      → Elem w critiques
  unfolding critique_ranked_report
  critique_ranked-Elem critiques {w} e = elim (pool-cases critiques) [
    | inl pool ↦
        (Elem-keep survives w critiques (rw pool at (best_in-Elem (pool_of critiques) e))).0
    | inr (pool, _) ↦ rw pool at (best_in-Elem (pool_of critiques) e)
  ]

module _ {F : Type 0} ⦃ops : FloatOps F⦄ (laws : IsOrdered ops) where
  outranks_irrefl : (a : CritiqueReport F) → outranks a a ≡ false
  unfolding outranks
  outranks_irrefl a = ground (arith, laws.lt_irrefl a.score)

  outranks_trans :
      (a b c : CritiqueReport F) → outranks a b ≡ true → outranks b c ≡ true → outranks a c ≡ true
  unfolding outranks
  outranks_trans a b c p q = ground (
    arith,
    laws.lt_trans c.score b.score a.score,
    laws.lt_cotrans b.score a.score c.score,
    laws.lt_cotrans c.score b.score a.score,
    laws.lt_cotrans a.score c.score b.score,
  )

  beaten_step :
      (x b c : CritiqueReport F)
      → outranks x b ≡ false
      → outranks x (if outranks c b then c else b) ≡ false
  beaten_step x b c h = elim (Bool-cases (outranks c b)) [
    | inl better ↦ rw better (ground (arith, outranks_trans x c b))
    | inr kept ↦ rw kept h
  ]

  best_of-beats :
      (x b : CritiqueReport F) (cs : List (CritiqueReport F))
      → outranks x b ≡ false
      → outranks x (best_of b cs) ≡ false
  unfolding best_of
  best_of-beats x b [] h = h
  best_of-beats x b (c ∷ cs) h =
      best_of-beats x (if outranks c b then c else b) cs (beaten_step x b c h)

  challenger : (b c : CritiqueReport F) → outranks c (if outranks c b then c else b) ≡ false
  challenger b c = elim (Bool-cases (outranks c b)) [
    | inl better ↦ rw better (outranks_irrefl c)
    | inr kept ↦ rw kept kept
  ]

  best_of-max :
      (x b : CritiqueReport F) (cs : List (CritiqueReport F))
      → Elem x (b ∷ cs)
      → outranks x (best_of b cs) ≡ false
  unfolding best_of
  best_of-max x b cs (inl same) = best_of-beats x b cs (rw same (outranks_irrefl b))
  best_of-max x b [] (inr h) = absurd h
  best_of-max x b (c ∷ cs) (inr (inl same)) =
      best_of-beats x (if outranks c b then c else b) cs (rw same (challenger b c))
  best_of-max x b (c ∷ cs) (inr (inr later)) =
      best_of-max x (if outranks c b then c else b) cs (inr later)

  -- `b` is at least as good as `c`: no lower score, and at equal scores no higher index.
  abbrev pub AtLeast : CritiqueReport F → CritiqueReport F → Type 0
  AtLeast b c =
      (ops.lt b.score c.score ≡ false)
      × (ops.lt c.score b.score ≡ false → b.candidate_index ≤ c.candidate_index)

  AtLeast-of_outranks : (b c : CritiqueReport F) → outranks c b ≡ false → AtLeast b c
  unfolding outranks
  AtLeast-of_outranks b c h = (ground arith, λ tie. ground arith)

  best_in-max :
      (pool : List (CritiqueReport F)) (c : CritiqueReport F) {best : CritiqueReport F}
      → best_in pool ≡ some best
      → Elem c pool
      → AtLeast best c
  best_in-max [] c e m = absurd m
  best_in-max (b ∷ cs) c {best} e m =
      let same : best_of b cs ≡ best = cc in
      AtLeast-of_outranks best c (rw (← same) (best_of-max c b cs m))

  -- The report that wins the critique ranking is one of the reports. It is fatal only if every
  -- report is, and it is at least as good as every report that is not fatal, or, where it is fatal
  -- itself, as every report.
  pub critique_ranked_best :
      (critiques : List (CritiqueReport F)) {best : CritiqueReport F}
      → critique_ranked_report critiques ≡ some best
      → Elem best critiques
        × ((c : CritiqueReport F)
            → Elem c critiques
            → is_fatal c ≡ false
            → (is_fatal best ≡ false) × AtLeast best c)
        × ((c : CritiqueReport F) → Elem c critiques → is_fatal best ≡ true → AtLeast best c)
  unfolding critique_ranked_report
  critique_ranked_best critiques {best} e = elim (pool-cases critiques) [
    | inl pool ↦
        let (m, alive) =
          Elem-keep survives best critiques (rw pool at (best_in-Elem (pool_of critiques) e)) in
        (
          m,
          λ c mc ok_c. (
            ground arith,
            best_in-max (pool_of critiques) c e
                (rw pool (keep-Elem survives c critiques mc (rw ok_c))),
          ),
          λ c mc dead. absurd (ground arith),
        )
    | inr (pool, none_left) ↦ (
      rw pool at (best_in-Elem (pool_of critiques) e),
      λ c mc ok_c. absurd (cc (nonempty-keep survives c critiques mc (rw ok_c))),
      λ c mc dead. best_in-max (pool_of critiques) c e (rw pool mc),
    )
  ]
