-- ===== src/Errors/Agreement.antt =====
-- What the projections of PET failures have in common (crates/rocq-engine/src/engine.rs,
-- crates/rocq-engine/src/writeback.rs, crates/rocq-mcp/src/adapter.rs).
use rocq_mcp.Prelude.{◌≡◌, refl, ap, Bool, false, Option, none, some, if◌then◌else◌, str_eq, String}
use rocq_mcp.Errors.{
  ErrorKind, invalid_request, invalid_configuration, invalid_declaration, not_found, ambiguous,
  declaration_changed, proof_step_failed, proof_step_timeout, request_cancelled, pet_lost,
  query_failed, query_timeout, pet_failure, project_timeout, build_timeout,
  axiom_dependency_out_of_scope, unfinished_dependency, Error, PetError, invalidates_process,
}
use rocq_mcp.Errors.Project.{
  declaration_pet_error, step_pet_error, finalizer_pet_error, query_pet_error, pet_release_error,
  refresh_error,
}
use rocq_mcp.Writeback.World.{rollback_refresh_error}
use rocq_mcp.Errors.Public.{wire_kind, invalidates_pet_epoch}

abbrev pub ends_epoch : Error → Bool
ends_epoch error = invalidates_pet_epoch error.kind

abbrev pub EndsAlike : PetError → Type 0
EndsAlike error =
    (ends_epoch (declaration_pet_error error) ≡ invalidates_process error)
    × (ends_epoch (step_pet_error error) ≡ invalidates_process error)
    × (ends_epoch (finalizer_pet_error error) ≡ invalidates_process error)
    × (ends_epoch (query_pet_error error) ≡ invalidates_process error)
    × (ends_epoch (pet_release_error error) ≡ invalidates_process error)
    × (ends_epoch (refresh_error error) ≡ invalidates_process error)
    × (ends_epoch (rollback_refresh_error error) ≡ false)

decoded : String → Option ErrorKind
decoded text =
    if str_eq text "invalid_request"
    then some invalid_request
    else if str_eq text "invalid_configuration"
    then some invalid_configuration
    else if str_eq text "invalid_declaration"
    then some invalid_declaration
    else if str_eq text "not_found"
    then some not_found
    else if str_eq text "ambiguous"
    then some ambiguous
    else if str_eq text "declaration_changed"
    then some declaration_changed
    else if str_eq text "proof_step_failed"
    then some proof_step_failed
    else if str_eq text "proof_step_timeout"
    then some proof_step_timeout
    else if str_eq text "request_cancelled"
    then some request_cancelled
    else if str_eq text "pet_lost"
    then some pet_lost
    else if str_eq text "query_failed"
    then some query_failed
    else if str_eq text "query_timeout"
    then some query_timeout
    else if str_eq text "pet_failure"
    then some pet_failure
    else if str_eq text "project_timeout"
    then some project_timeout
    else if str_eq text "build_timeout"
    then some build_timeout
    else if str_eq text "axiom_dependency_out_of_scope"
    then some axiom_dependency_out_of_scope
    else if str_eq text "unfinished_dependency"
    then some unfinished_dependency
    else none

decoded-wire_kind : (kind : ErrorKind) → decoded (wire_kind kind) ≡ some kind
unfolding decoded wire_kind
decoded-wire_kind invalid_request = refl
decoded-wire_kind _ = refl

-- Two kinds of failure never share a name on the wire.
pub wire_kind-injective : (a b : ErrorKind) → wire_kind a ≡ wire_kind b → a ≡ b
wire_kind-injective a b h = cc (decoded-wire_kind a, decoded-wire_kind b, ap decoded h)
