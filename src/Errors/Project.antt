-- ===== src/Errors/Project.antt =====
-- From PET failures to public errors: one projection for each operation
-- (crates/rocq-engine/src/engine.rs), for a refresh (crates/rocq-engine/src/writeback.rs) and for
-- a release (crates/rocq-mcp/src/adapter.rs).
use rocq_mcp.Prelude.{Bool, true, false, Option, none, some, if◌then◌else◌}
use rocq_mcp.Types.{ProofDiagnostic}
use rocq_mcp.Types.Json.{Value, string, array, object, nil, end, field}
use rocq_mcp.Errors.{
  ErrorKind, invalid_request, invalid_configuration, invalid_declaration, not_found,
  proof_step_failed, proof_step_timeout, request_cancelled, pet_lost, query_failed, pet_failure,
  Error, new_error, with_diagnostic, with_resolution, semantic, PetRemoteKind, method_not_found,
  interrupted, parsing, coq, anomaly, system, theorem_not_found, no_node_at_point,
  reference_not_found, unknown, PetError, invalid, environment, process_lost, protocol, cancelled,
  output_overflow, timed_out, remote, is_transport_loss, is_internal_failure, pet_is_semantic,
}
use rocq_mcp.Errors.Redact.{pet_public_message}

pub data PetOperation : Type 0 where
  declaration proof_step query : PetOperation

-- The kinds that PET uses for a Rocq rejection, by operation.
rejected_kind : PetOperation → ErrorKind
rejected_kind declaration = invalid_declaration
rejected_kind proof_step = proof_step_failed
rejected_kind query = query_failed

reference_kind : PetOperation → ErrorKind
reference_kind declaration = invalid_declaration
reference_kind proof_step = proof_step_failed
reference_kind query = not_found

unfoldable pub remote_pet_kind : PetRemoteKind → PetOperation → ErrorKind
unfolding rejected_kind reference_kind
remote_pet_kind method_not_found op = invalid_configuration
remote_pet_kind anomaly op = pet_failure
remote_pet_kind system op = pet_failure
remote_pet_kind (unknown code) op = pet_failure
remote_pet_kind theorem_not_found op = not_found
remote_pet_kind no_node_at_point op = not_found
remote_pet_kind reference_not_found op = reference_kind op
remote_pet_kind interrupted op = rejected_kind op
remote_pet_kind parsing op = rejected_kind op
remote_pet_kind coq op = rejected_kind op

diagnostic_of : PetError → Option ProofDiagnostic
diagnostic_of (remote code kind message diagnostic) = diagnostic
diagnostic_of _ = none

abbrev marked : Bool → Error → Error
marked true error = semantic error
marked false error = error

abbrev located : Option ProofDiagnostic → Error → Error
located none error = error
located (some diagnostic) error = with_diagnostic diagnostic error

unfoldable pub projected_pet_error : ErrorKind → PetError → Bool → Error
unfolding diagnostic_of
projected_pet_error kind error preserve_diagnostic =
    located (if preserve_diagnostic then diagnostic_of error else none)
      (marked (pet_is_semantic error) (new_error kind (pet_public_message error)))

-- The `match` of the three projections; they differ in the kind of `Invalid` and in the operation.
unfoldable pub operation_kind : ErrorKind → PetOperation → PetError → ErrorKind
unfolding remote_pet_kind
operation_kind on_invalid op cancelled = request_cancelled
operation_kind on_invalid op (timed_out ms) = proof_step_timeout
operation_kind on_invalid op (process_lost message) = pet_lost
operation_kind on_invalid op (protocol message) = pet_lost
operation_kind on_invalid op output_overflow = pet_lost
operation_kind on_invalid op (environment message) = invalid_configuration
operation_kind on_invalid op (invalid message) = on_invalid
operation_kind on_invalid op (remote code kind message diagnostic) = remote_pet_kind kind op

abbrev pub missing_identifier : Value
missing_identifier = object (
    field "candidates" (array nil) (
      field "kind" (string "missing_identifier") (
        field "note"
          (string "the declaration statement environment lacks an import for this identifier")
          (field "suggested_imports" (array nil) end))))

resolved : PetError → Error → Error
resolved (remote code reference_not_found message diagnostic) error =
    with_resolution missing_identifier error
resolved _ error = error

unfoldable pub declaration_pet_error : PetError → Error
unfolding operation_kind projected_pet_error resolved
declaration_pet_error error =
    resolved error
      (projected_pet_error (operation_kind invalid_declaration declaration error) error true)

unfoldable pub step_pet_error : PetError → Error
unfolding operation_kind projected_pet_error
step_pet_error error =
    projected_pet_error (operation_kind invalid_request proof_step error) error true

unfoldable pub finalizer_pet_error : PetError → Error
unfolding step_pet_error
finalizer_pet_error error = record (step_pet_error error) { diagnostic = none }

unfoldable pub query_pet_error : PetError → Error
unfolding operation_kind projected_pet_error
query_pet_error error = projected_pet_error (operation_kind invalid_request query error) error false

-- The kind of `pet_release_error` and of `refresh_error`.
unfoldable pub lifecycle_kind : PetError → ErrorKind
unfolding is_transport_loss is_internal_failure
lifecycle_kind cancelled = request_cancelled
lifecycle_kind (timed_out ms) = proof_step_timeout
lifecycle_kind error =
    if is_transport_loss error
    then pet_lost
    else if is_internal_failure error
    then pet_failure
    else invalid_configuration

unfoldable pub pet_release_error : PetError → Error
unfolding lifecycle_kind
pet_release_error error =
    marked (pet_is_semantic error) (new_error (lifecycle_kind error) (pet_public_message error))

unfoldable pub refresh_error : PetError → Error
unfolding lifecycle_kind
refresh_error error =
    marked (pet_is_semantic error) (new_error (lifecycle_kind error) (pet_public_message error))
