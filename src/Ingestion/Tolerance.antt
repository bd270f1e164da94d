-- ===== src/Ingestion/Tolerance.antt =====
-- What the first two stages put up with (genql/services/datasource/ingestion_service.py).
use gen_ql.Base.{
  String, Bool, true, false, not, List, [], ◌∷◌, map, keep, length, is_nonempty, eqb, if◌then◌else◌,
  ◌≡◌, ◌<◌, refl, length-keep-le, Elem, All, Result, ok, err, empty_schema_error, arith, inl, inr,
  ◌⊎◌,
}
use gen_ql.Ingestion.{StepStatus, schemas_registered, schemas_discovered}
use gen_ql.Ingestion.Discovery.{ScopeRunResult, succeeded_scope}
use gen_ql.Ingestion.Stages.{
  Collaborators, ref_of, reported_step, register_all, register_schemas, conclude_discovery,
  sum_scopes,
}

abbrev pub is_ok : Result (Unit {0}) → Bool
is_ok (ok _) = true
is_ok (err _) = false

module _ {Overlay : Type 0} (c : Collaborators Overlay) (datasource : String) where
  abbrev pub accepts : String → Bool
  accepts name = is_ok (c.register (ref_of datasource name))

  -- A registration succeeds, or finds the schema empty.
  abbrev pub Readable : List String → Type 0
  Readable = All (λ name.
      (c.register (ref_of datasource name) ≡ ok tt)
      ⊎ (c.register (ref_of datasource name) ≡ err empty_schema_error))

  register_all-keep :
      (schemas : List String)
      → Readable schemas
      → register_all c datasource schemas
        ≡ ok (keep accepts schemas, keep (λ n. not (accepts n)) schemas)
  unfolding register_all
  register_all-keep [] h = refl
  register_all-keep (n ∷ ns) (inl taken, later) =
      let rest : register_all c datasource ns
          ≡ ok (keep accepts ns, keep (λ m. not (accepts m)) ns) =
        register_all-keep ns later in
      rw (register_all, taken, rest) refl
  register_all-keep (n ∷ ns) (inr empty, later) =
      let rest : register_all c datasource ns
          ≡ ok (keep accepts ns, keep (λ m. not (accepts m)) ns) =
        register_all-keep ns later in
      rw (register_all, empty, rest) refl

  -- Where each schema can be registered or is empty, the stage reports the number of those that
  -- registered and names the others, and it fails only when none registered.
  pub register_schemas_tolerates :
      (schemas : List String)
      → Readable schemas
      → register_schemas c datasource schemas ≡ (
          if is_nonempty (keep accepts schemas)
          then ok (
              reported_step "schema_registration" StepStatus.succeeded
                (schemas_registered
                  (length (keep accepts schemas))
                  (keep (λ n. not (accepts n)) schemas))
                (length (keep accepts schemas)))
          else err empty_schema_error)
  unfolding register_schemas
  register_schemas_tolerates schemas h = rw (register_schemas, register_all-keep schemas h) refl

  failed_fewer :
      (o : ScopeRunResult) (outcomes : List ScopeRunResult)
      → Elem o outcomes
      → succeeded_scope o ≡ true
      → length (keep (λ x. not (succeeded_scope x)) outcomes) < length outcomes
  failed_fewer o [] m e = absurd m
  failed_fewer o (x ∷ xs) (inl same) e =
      rw (← same, e) omega (arith, length-keep-le (λ y. not (succeeded_scope y)) xs)
  failed_fewer o (x ∷ xs) (inr later) e = ground (arith, failed_fewer o xs later e)

  -- The discovery of a scope in which one schema succeeded is a success, whatever the others did:
  -- it reports how many schemas succeeded, names the others, and adds up the records of all.
  pub conclude_discovery_tolerates :
      (o : ScopeRunResult) (outcomes : List ScopeRunResult)
      → Elem o outcomes
      → succeeded_scope o ≡ true
      → conclude_discovery c datasource outcomes
        ≡ ok (
            reported_step "discovery" StepStatus.succeeded
              (schemas_discovered (length (keep succeeded_scope outcomes)) (length outcomes) (
                map
                  (λ (x : ScopeRunResult). x.ref.schema_name)
                  (keep (λ x. not (succeeded_scope x)) outcomes)))
              (sum_scopes outcomes))
  unfolding conclude_discovery
  conclude_discovery_tolerates o outcomes m e =
      let fewer : length (keep (λ x. not (succeeded_scope x)) outcomes) < length outcomes =
        failed_fewer o outcomes m e in
      let differ : eqb (length (keep (λ x. not (succeeded_scope x)) outcomes)) (length outcomes)
          ≡ false =
        ground arith in
      ground arith
