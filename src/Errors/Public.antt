-- ===== src/Errors/Public.antt =====
-- What a client reads of an error: `public_error`, `public_message` and `invalidates_pet_epoch` of
-- crates/rocq-mcp/src/adapter.rs.
use rocq_mcp.Prelude.{
  ℕ, ◌*◌, Bool, true, false, Option, none, some, ◌++◌, ◌==◌, leb, if◌then◌else◌, codes, String,
  trim, trim_end_by, is_empty,
}
use rocq_mcp.Types.{Text, ProofDiagnostic}
use rocq_mcp.Types.Json.{Value, string, object, end, field}
use rocq_mcp.Errors.{
  ErrorKind, invalid_request, invalid_configuration, invalid_declaration, not_found, ambiguous,
  declaration_changed, proof_step_failed, proof_step_timeout, request_cancelled, pet_lost,
  query_failed, query_timeout, pet_failure, project_timeout, build_timeout,
  axiom_dependency_out_of_scope, unfinished_dependency, Error,
}

unfoldable pub wire_kind : ErrorKind → String
wire_kind invalid_request = "invalid_request"
wire_kind invalid_configuration = "invalid_configuration"
wire_kind invalid_declaration = "invalid_declaration"
wire_kind not_found = "not_found"
wire_kind ambiguous = "ambiguous"
wire_kind declaration_changed = "declaration_changed"
wire_kind proof_step_failed = "proof_step_failed"
wire_kind proof_step_timeout = "proof_step_timeout"
wire_kind request_cancelled = "request_cancelled"
wire_kind pet_lost = "pet_lost"
wire_kind query_failed = "query_failed"
wire_kind query_timeout = "query_timeout"
wire_kind pet_failure = "pet_failure"
wire_kind project_timeout = "project_timeout"
wire_kind build_timeout = "build_timeout"
wire_kind axiom_dependency_out_of_scope = "axiom_dependency_out_of_scope"
wire_kind unfinished_dependency = "unfinished_dependency"

unfoldable pub action : ErrorKind → String
action invalid_configuration =
    "check the project configuration or prover capabilities, then restart the server"
action not_found =
    "call list_files/list_decls or query(goals) to obtain a current identity or state"
action ambiguous = "use the exact declaration identity returned by list_decls"
action declaration_changed = "refresh the declaration with prove and retry the proof"
action proof_step_failed = "inspect query(goals) and submit a smaller valid fragment"
action proof_step_timeout =
    "retry with a larger timeout_ms or split the fragment into smaller steps"
action request_cancelled = "retry the cancelled operation when ready"
action pet_lost = "retry the operation; any retained proof state will be replayed automatically"
action pet_failure = "restart the server; if this repeats, rebuild its bundled prover"
action project_timeout = "retry or increase ROCQ_COMMAND_TIMEOUT_SECS"
action build_timeout = "retry with a larger ROCQ_COMMAND_TIMEOUT_SECS value or unset the limit"
action axiom_dependency_out_of_scope =
    "inspect query(kind=assumptions) and replace the disallowed dependency"
action unfinished_dependency = "prove or replace the unfinished dependency, then retry"
action invalid_request =
    "perform the stated prerequisite and correct the indicated argument, then retry"
action invalid_declaration =
    "inspect the declaration/source diagnostic, correct the source, and retry"
action query_failed = "retry with a valid query kind and target in the current Rocq context"
action query_timeout = "retry the query or increase ROCQ_QUERY_TIMEOUT_SECS"

-- The stated failure, without white space round it and full stops after it.
detail_of : Text → Text
detail_of message =
    let detail = trim_end_by (λ c. c == b'.') (trim message) in
    if is_empty detail then codes "operation failed" else detail

unfoldable pub public_message : Error → Text
unfolding action detail_of
public_message error =
    if error.is_semantic
    then error.message
    else detail_of error.message ++ codes ". Next step: " ++ codes (action error.kind) ++ codes "."

-- The JSON object, field by field.
pub record PublicError : Type 0 where
  pub kind : String
  pub message : Text
  pub diagnostic : Option ProofDiagnostic
  pub resolution : Option Value

abbrev pub truncated : Value
truncated = object (
    field "kind" (string "truncated")
      (field "message" (string "resolution metadata exceeded the transport bound") end))

abbrev pub resolution_limit : ℕ
resolution_limit = 16 * 1024

-- `encoded_len` stands for the length of `serde_json::to_vec`.
module _ (encoded_len : Value → ℕ) where
  bounded_resolution : Option Value → Option Value
  bounded_resolution none = none
  bounded_resolution (some value) =
      some (if leb (encoded_len value) resolution_limit then value else truncated)

  unfoldable pub public_error : Error → PublicError
  unfolding wire_kind public_message bounded_resolution
  public_error error = record {
    kind = wire_kind error.kind;
    message = public_message error;
    diagnostic = error.diagnostic;
    resolution = bounded_resolution error.resolution;
  }

unfoldable pub invalidates_pet_epoch : ErrorKind → Bool
invalidates_pet_epoch pet_lost = true
invalidates_pet_epoch proof_step_timeout = true
invalidates_pet_epoch request_cancelled = true
invalidates_pet_epoch _ = false
