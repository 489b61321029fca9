-- ===== src/Core/Operations.antt =====
-- Prepared and rejected operations (packages/core/src/operations.ts). An adapter's call is an action
-- on an outer world `W` that answers or throws.
pub mod Once
use privacy_layer_confidenti.Base.{String, Bool, true, false, Option, none, some, List, [], ◌∷◌}
use privacy_layer_confidenti.Core.Errors.{
  OperationKind, OperationIntent, PrivacySdkError, execution_error, Thrown, sdk,
}

pub data Attempt {ℓ} (A : Type ℓ) : Type ℓ where
  answered : A → Attempt A
  raised : Thrown → Attempt A

abbrev pub Action {ℓ} : Type 0 → Type ℓ → Type ℓ
Action W A = W → Attempt A × W

-- What a caller holds. `executionStarted` is the variable that its `execute` closes over.
pub record PreparedOperation (W Address Asset Prepared Receipt Options : Type 0) : Type 0 where
  pub kind : OperationKind
  pub intent : OperationIntent Address Asset
  pub prepared : Prepared
  pub execution_started : Bool
  pub execute_fn : Options → Action W Receipt

pub data OperationResult (W Address Asset Prepared Receipt Options : Type 0) : Type 0 where
  prepared_operation :
      PreparedOperation W Address Asset Prepared Receipt Options
      → OperationResult W Address Asset Prepared Receipt Options
  rejected_operation : List Thrown → OperationResult W Address Asset Prepared Receipt Options

abbrev pub already_executed : Thrown
already_executed =
    sdk (execution_error "Prepared operation was already executed." (some "submission") none)

module _ {W Address Asset Prepared Receipt Options : Type 0} where
  abbrev pub is_prepared_operation : OperationResult W Address Asset Prepared Receipt Options → Bool
  is_prepared_operation (prepared_operation op) = true
  is_prepared_operation (rejected_operation es) = false

  abbrev pub create_prepared_operation :
      OperationKind
      → OperationIntent Address Asset
      → Prepared
      → (Options → Action W Receipt)
      → PreparedOperation W Address Asset Prepared Receipt Options
  create_prepared_operation kind intent prepared execute_fn = record {
    kind = kind;
    intent = intent;
    prepared = prepared;
    execution_started = false;
    execute_fn = execute_fn;
  }

  abbrev pub create_rejected_operation :
      List Thrown → OperationResult W Address Asset Prepared Receipt Options
  create_rejected_operation errors = rejected_operation errors

  abbrev pub start :
      PreparedOperation W Address Asset Prepared Receipt Options
      → PreparedOperation W Address Asset Prepared Receipt Options
  start op = record {
    kind = op.kind;
    intent = op.intent;
    prepared = op.prepared;
    execution_started = true;
    execute_fn = op.execute_fn;
  }

  -- `operation.execute(options)`: the outcome, the operation after it, and the world.
  unfoldable pub execute :
      Options
      → PreparedOperation W Address Asset Prepared Receipt Options
      → W
      → Attempt Receipt × PreparedOperation W Address Asset Prepared Receipt Options × W
  execute options op w = elim op.execution_started [
    | true ↦ (raised already_executed, op, w)
    | false ↦ (let (r, w') = op.execute_fn options w in (r, start op, w'))
  ]
