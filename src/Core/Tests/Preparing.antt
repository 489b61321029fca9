-- ===== src/Core/Tests/Preparing.antt =====
-- Examples of the properties of preparing and executing.
use privacy_layer_confidenti.Base.{ℕ, String, ◌≡◌, ◌≢◌, refl, none, some, [], ◌∷◌}
use privacy_layer_confidenti.Core.Errors.{transfer, withdraw}
use privacy_layer_confidenti.Core.Operations.{
  answered, raised, PreparedOperation, already_executed, prepared_operation, rejected_operation,
  create_prepared_operation,
}
use privacy_layer_confidenti.Core.Operations.Once.{execute_each, execute-once}
use privacy_layer_confidenti.Core.Prepare.{
  NetworkAdapter, PolicyAdapter, validate_policy, prepare_with_network, validate_operation_request,
  prepare_privacy_operation,
}
use privacy_layer_confidenti.Core.Prepare.Admission.{prepared_by, refused_untouched, request_errors}
use privacy_layer_confidenti.Core.Tests.{adapters, bare_adapters, intent, network_of}

abbrev operation : PreparedOperation ℕ String String String String ℕ
operation = create_prepared_operation transfer intent "transfer" (network_of.submit "transfer")

execute-once_example :
    execute_each (1 ∷ 2 ∷ 3 ∷ []) operation 10
    ≡ (answered "transfer" ∷ raised already_executed ∷ raised already_executed ∷ [], 11)
execute-once_example = execute-once 1 (2 ∷ 3 ∷ []) operation 10 refl

prepares :
    prepare_privacy_operation transfer intent adapters 0
    ≡ (answered (prepared_operation operation), 2)
unfolding prepare_privacy_operation
prepares = refl

prepared_by_example :
    (p : PolicyAdapter ℕ String String) × (n : NetworkAdapter ℕ String String String String ℕ)
    × (w₁ : ℕ) × (prepared : String) × (adapters.policy_adapter ≡ some p)
    × (adapters.network_adapter ≡ some n)
    × (validate_operation_request transfer intent adapters ≡ none)
    × (validate_policy transfer intent p 0 ≡ (answered [], w₁))
    × (prepare_with_network transfer intent n w₁ ≡ (answered prepared, 2))
    × (operation ≡ create_prepared_operation transfer intent prepared (n.submit prepared))
prepared_by_example = prepared_by transfer intent adapters 0 {op = operation} prepares

refuses : validate_operation_request withdraw intent bare_adapters ≢ none
unfolding validate_operation_request
refuses h = cc

refused_example :
    prepare_privacy_operation withdraw intent bare_adapters 0
    ≡ (answered (rejected_operation (request_errors withdraw intent bare_adapters)), 0)
refused_example = refused_untouched withdraw intent bare_adapters 0 refuses
