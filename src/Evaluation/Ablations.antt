-- ===== src/Evaluation/Ablations.antt =====
-- The golden set under each ablation: genql/services/eval/ablation_service.py, the registered
-- ablations of genql/services/eval/ablations, and genql/domain/entities/ablation.py. `Store` is what
-- a recompilation of the search documents changes.
use gen_ql.Base.{
  String, Bool, true, false, List, [], ◌∷◌, ◌≡◌, ◌⊎◌, inl, inr, refl, sym, subst, ap, ◌∙◌, map,
  if◌then◌else◌, ◌==◌, unknown_ablation_error, Error, Result, ok, err, ◌>>=◌, Result-cases,
}
use gen_ql.Evaluation.Comparator.{map_result}
use gen_ql.Evaluation.Golden.{GoldenCase, GoldenRunReport}

pub record Ablation : Type 0 where
  pub name : String
  pub description : String
  pub setting_overrides : List (String × Bool)
  pub requires_recompile : Bool

abbrev pub full : Ablation
full = record {
  name = "full";
  description = "every enrichment layer enabled — the baseline";
  setting_overrides = [];
  requires_recompile = false;
}

-- `ABLATIONS`, in the order of its sorted keys.
abbrev pub ablations : List Ablation
ablations =
    full
    ∷ record {
      name = "no_ambiguity_examples";
      description = "no synthetic few-shot examples during generation";
      setting_overrides = ("ambiguity_examples_enabled", false) ∷ [];
      requires_recompile = false;
    }
    ∷ record {
      name = "no_descriptions";
      description = "search documents compiled from structural fields only";
      setting_overrides = ("enrichment_enabled", false) ∷ [];
      requires_recompile = true;
    }
    ∷ record {
      name = "no_domains";
      description = "domain scoping skipped; retrieval sees every object";
      setting_overrides = ("domain_scoping_enabled", false) ∷ [];
      requires_recompile = false;
    }
    ∷ record {
      name = "no_join_paths";
      description = "mined join paths withheld from schema linking";
      setting_overrides = ("join_paths_enabled", false) ∷ [];
      requires_recompile = false;
    }
    ∷ record {
      name = "no_probing";
      description = "no probe queries; selection falls back to critique ranking";
      setting_overrides = ("probing_enabled", false) ∷ [];
      requires_recompile = false;
    }
    ∷ []

abbrev pub named_in : List Ablation → String → Result Ablation
named_in [] name = err (unknown_ablation_error name)
named_in (a ∷ rest) name = if a.name == name then ok a else named_in rest name

-- `_resolve`
unfoldable pub resolve : String → Result Ablation
resolve name = named_in ablations name

abbrev pub names_or_all : List String → List String
names_or_all [] = map (λ (a : Ablation). a.name) ablations
names_or_all (name ∷ rest) = name ∷ rest

abbrev pub datasource_of : List GoldenCase → String
datasource_of [] = "local"
datasource_of (c ∷ cs) = c.datasource_name

-- `finally`: an exception of the clean-up takes the place of what came before.
abbrev pub finally : {A : Type 0} → Result A → Result (Unit {0}) → Result A
finally call (ok _) = call
finally call (err e) = err e

-- The search documents of the store are the baseline's: a recompilation with the baseline that
-- returns undoes every other that returned.
pub record IsBaseline {Store : Type 0}
    (recompile : Ablation → String → Store → Store × Result (Unit {0})) (store : Store)
    : Type 0 where
  pub undone :
      (a : Ablation) (datasource : String)
      → (recompile a datasource store).1 ≡ ok tt
      → (recompile full datasource (recompile a datasource store).0).1 ≡ ok tt
      → (recompile full datasource (recompile a datasource store).0).0 ≡ store

-- What a run raised is what a recompilation raised.
abbrev pub RaisedBy :
    {Store A : Type 0} → (Ablation → String → Store → Store × Result (Unit {0})) → Result A → Type 0
RaisedBy {Store} recompile r =
    (a : Ablation) × (datasource : String) × (store : Store) × (e : Error) × ((recompile a
        datasource store).1
      ≡ err e)
    × (r ≡ err e)

module _ {F Store : Type 0} (recompile : Ablation → String → Store → Store × Result (Unit {0}))
    (evaluate : Ablation → List GoldenCase → Store → Result (GoldenRunReport F)) where
  -- `_run_one` once the documents are compiled for the ablation: they are compiled back whether the
  -- evaluation returned or raised.
  unfoldable pub run_recompiled :
      Ablation → List GoldenCase → Store × Result (Unit {0}) → Store × Result (GoldenRunReport F)
  run_recompiled a cases (store, err e) = (store, err e)
  run_recompiled a cases (store, ok _) =
      let (store', restored) = recompile full (datasource_of cases) store in
      (store', finally (evaluate a cases store) restored)

  unfoldable pub run_one : Ablation → List GoldenCase → Store → Store × Result (GoldenRunReport F)
  unfolding run_recompiled
  run_one a cases store =
      if a.requires_recompile
      then run_recompiled a cases (recompile a (datasource_of cases) store)
      else (store, evaluate a cases store)

  abbrev pub then_rest :
      Result (GoldenRunReport F)
      → Store × Result (List (GoldenRunReport F))
      → Store
      → Store × Result (List (GoldenRunReport F))
  then_rest (err e) rest store = (store, err e)
  then_rest (ok report) (store', reports) store = (store', reports >>= (λ rs. ok (report ∷ rs)))

  unfoldable pub run_each :
      List Ablation → List GoldenCase → Store → Store × Result (List (GoldenRunReport F))
  unfolding run_one
  run_each [] cases store = (store, ok [])
  run_each (a ∷ rest) cases store =
      let (store', report) = run_one a cases store in
      then_rest report (run_each rest cases store') store'

  -- `AblationService.run`
  unfoldable pub run_ablations :
      List String → List GoldenCase → Store → Store × Result (List (GoldenRunReport F))
  unfolding run_each resolve
  run_ablations names cases store = elim (map_result resolve (names_or_all names)) [
    | err e ↦ (store, err e)
    | ok chosen ↦ run_each chosen cases store
  ]

  -- The run of one ablation restores the documents, or raises what a recompilation raised.
  recompiled-restores :
      (a : Ablation) (cases : List GoldenCase) (store : Store)
      (compiled : Store × Result (Unit {0}))
      → IsBaseline recompile store
      → recompile a (datasource_of cases) store ≡ compiled
      → ((run_recompiled a cases compiled).0 ≡ store)
        ⊎ RaisedBy recompile (run_recompiled a cases compiled).1
  unfolding run_recompiled
  recompiled-restores a cases store (store', err e) base same =
      inr (a, datasource_of cases, store, e, ap (λ c. c.1) same, refl)
  recompiled-restores a cases store (store', ok tt) base same =
      let compiled : (recompile a (datasource_of cases) store).1 ≡ ok tt = ap (λ c. c.1) same in
      let at_hand : (recompile a (datasource_of cases) store).0 ≡ store' = ap (λ c. c.0) same in
      elim (Result-cases (recompile full (datasource_of cases) store').1) [
        | inl (tt, back) ↦ inl (
            ap (λ s. (recompile full (datasource_of cases) s).0) (sym at_hand)
            ∙ base.undone a (datasource_of cases) compiled
                (ap (λ s. (recompile full (datasource_of cases) s).1) at_hand ∙ back))
        | inr (e, lost) ↦ inr (
          full,
          datasource_of cases,
          store',
          e,
          lost,
          ap (finally (evaluate a cases store')) lost,
        )
      ]

  if-restores :
      {A : Type 0} (b : Bool) (x y : Store × Result A) (store : Store)
      → (x.0 ≡ store) ⊎ RaisedBy recompile x.1
      → y.0 ≡ store
      → ((if b then x else y).0 ≡ store) ⊎ RaisedBy recompile (if b then x else y).1
  if-restores true x y store hx hy = hx
  if-restores false x y store hx hy = inl hy

  run_one-restores :
      (a : Ablation) (cases : List GoldenCase) (store : Store)
      → IsBaseline recompile store
      → ((run_one a cases store).0 ≡ store) ⊎ RaisedBy recompile (run_one a cases store).1
  unfolding run_one
  run_one-restores a cases store base =
      if-restores a.requires_recompile _ (store, evaluate a cases store) store
        (recompiled-restores a cases store _ base refl) refl

  raised-raises :
      (report : Result (GoldenRunReport F)) (rest : Store × Result (List (GoldenRunReport F)))
      (store' : Store)
      → RaisedBy recompile report
      → RaisedBy recompile (then_rest report rest store').1
  raised-raises report rest store' (a, datasource, store, e, lost, raised) =
      (a, datasource, store, e, lost, rw raised refl)

  rest-restores :
      (report : Result (GoldenRunReport F)) (rest : Store × Result (List (GoldenRunReport F)))
      (store' store : Store)
      → store' ≡ store
      → (rest.0 ≡ store) ⊎ RaisedBy recompile rest.1
      → ((then_rest report rest store').0 ≡ store)
        ⊎ RaisedBy recompile (then_rest report rest store').1
  rest-restores (err e) rest store' store h hr = inl h
  rest-restores (ok report) rest store' store h (inl back) = inl back
  rest-restores (ok report) rest store' store h (inr (a, datasource, s, e, lost, raised)) =
      inr (a, datasource, s, e, lost, rw raised refl)

  run_each-restores :
      (chosen : List Ablation) (cases : List GoldenCase) (store : Store)
      → IsBaseline recompile store
      → ((run_each chosen cases store).0 ≡ store)
        ⊎ RaisedBy recompile (run_each chosen cases store).1
  unfolding run_each
  run_each-restores [] cases store base = inl refl
  run_each-restores (a ∷ rest) cases store base = elim (run_one-restores a cases store base) [
    | inr raised ↦ inr (raised-raises (run_one a cases store).1 _ _ raised)
    | inl back ↦ rest-restores (run_one a cases store).1 _ (run_one a cases store).0 store back (
        subst
          (λ s. ((run_each rest cases s).0 ≡ store) ⊎ RaisedBy recompile (run_each rest cases s).1)
          (sym back) (run_each-restores rest cases store base))
  ]

  -- On a store with the documents of the baseline, a run of any ablations leaves the documents as
  -- it found them, whatever is evaluated and whether the evaluation returns or raises, unless the
  -- run raises what a recompilation raised. A recompilation with the baseline that returns is taken
  -- to undo one that returned.
  pub run_ablations_restores :
      (names : List String) (cases : List GoldenCase) (store : Store)
      → IsBaseline recompile store
      → ((run_ablations names cases store).0 ≡ store)
        ⊎ RaisedBy recompile (run_ablations names cases store).1
  unfolding run_ablations
  run_ablations_restores names cases store base =
      elim (Result-cases (map_result resolve (names_or_all names))) [
        | inr (e, unknown) ↦ inl (rw (run_ablations, unknown) refl)
        | inl (chosen, known) ↦
            rw (run_ablations, known) (run_each-restores chosen cases store base)
      ]
