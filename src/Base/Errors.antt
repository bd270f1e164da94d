-- ===== src/Base/Errors.antt =====
-- The exceptions that the modelled code raises and catches, without their message texts, and the
-- result of a call that may raise one.
use Prim.Native.String.{String}
use mathlib.Core.Path.{◌≡◌, refl}
use mathlib.Core.Logic.{◌⊎◌, inl, inr}
use mathlib.Core.Bool.{Bool, true, false}
use mathlib.Core.List.{List}

-- The message text is kept, since the graph hands it to the regeneration.
pub record GuardrailViolation : Type 0 where
  pub rule_name : String
  pub message : String
  pub repairable : Bool

-- `python_error` is any exception that is no GenqlError: an IndexError, an AssertionError.
pub data Error : Type 0 where
  ambiguity_gate_error : Error
  chat_provider_error : Error
  validation_error : Error
  intent_classification_error : Error
  planning_error : Error
  schema_linking_error : Error
  domain_scoping_error : Error
  generation_error : Error
  static_validation_error : List GuardrailViolation → Error
  critique_error : Error
  query_error : Error
  execution_error : Error
  optimization_error : Error
  cost_estimation_error : Error
  unknown_thread_error : Error
  thread_ownership_error : Error
  empty_schema_error : Error
  discovery_error : Error
  unknown_discovery_step_error : Error
  unknown_datasource_error : Error
  incomplete_datasource_connection_error : List String → Error
  unknown_ingestion_job_error : Error
  no_ingestion_job_error : Error
  ingestion_in_progress_error : String → Error
  unknown_ingestion_step_error : Error
  unknown_ablation_error : String → Error
  python_error : String → Error

-- Is it a GenqlError?
abbrev pub is_genql_error : Error → Bool
is_genql_error validation_error = false
is_genql_error (python_error _) = false
is_genql_error _ = true

-- What a call comes to: it raises, or it returns a value.
pub data Result {ℓ} (Value : Type ℓ) : Type ℓ where
  err : Error → Result Value
  ok : Value → Result Value

module _ {ℓ κ} {A : Type ℓ} {B : Type κ} where
  infixl 5 ◌>>=◌
  abbrev pub ◌>>=◌ : Result A → (A → Result B) → Result B
  err raised >>= next = err raised
  ok value >>= next = next value

  -- A sequence fails where its first call fails, or where the rest does.
  pub >>=-eq-err :
      {raised : Error} (call : Result A) (next : A → Result B)
      → (call >>= next) ≡ err raised
      → (call ≡ err raised) ⊎ ((value : A) × (call ≡ ok value) × (next value ≡ err raised))
  >>=-eq-err (err _) next fails = inl (cc)
  >>=-eq-err (ok value) next fails = inr (value, refl, fails)

  -- A sequence that returns has a first call that returns.
  pub >>=-eq-ok :
      {final : B} (call : Result A) (next : A → Result B)
      → (call >>= next) ≡ ok final
      → (value : A) × (call ≡ ok value) × (next value ≡ ok final)
  >>=-eq-ok (err _) next returns = cc
  >>=-eq-ok (ok value) next returns = (value, refl, returns)

pub Result-cases {ℓ} :
    {A : Type ℓ} (call : Result A)
    → ((value : A) × (call ≡ ok value)) ⊎ ((raised : Error) × (call ≡ err raised))
Result-cases (ok value) = inl (value, refl)
Result-cases (err raised) = inr (raised, refl)
