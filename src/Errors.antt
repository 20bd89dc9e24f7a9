-- ===== src/Errors.antt =====
-- The failures: `ErrorKind` and `Error` of crates/rocq-engine/src/types.rs, `PetError` of
-- crates/rocq-engine/src/pet/mod.rs, and the functions that turn the second into the first
-- (crates/rocq-engine/src/engine.rs, crates/rocq-engine/src/writeback.rs and
-- crates/rocq-mcp/src/adapter.rs).
pub mod Redact
pub mod Project
pub mod Public
pub mod Agreement
mod Tests
use rocq_mcp.Prelude.{
  ℕ, Bool, true, false, Option, none, some, List, [], ◌∷◌, ◌||◌, ◌==◌, if◌then◌else◌, codes, String,
}
use rocq_mcp.Types.{Text, ℤ, pos, negsuc, ProofDiagnostic}
use rocq_mcp.Types.Json.{Value}

pub data ErrorKind : Type 0 where
  invalid_request invalid_configuration invalid_declaration not_found ambiguous : ErrorKind
  declaration_changed proof_step_failed proof_step_timeout request_cancelled pet_lost : ErrorKind
  query_failed query_timeout pet_failure project_timeout build_timeout : ErrorKind
  axiom_dependency_out_of_scope unfinished_dependency : ErrorKind

pub record Error : Type 0 where
  pub kind : ErrorKind
  pub message : Text
  pub diagnostic : Option ProofDiagnostic
  pub resolution : Option Value
  pub is_semantic : Bool

-- `Error::new`
abbrev pub new_error : ErrorKind → Text → Error
new_error kind message = record {
  kind = kind;
  message = message;
  diagnostic = none;
  resolution = none;
  is_semantic = false;
}

-- `with_diagnostic`, `with_resolution` and `semantic`
abbrev pub with_diagnostic : ProofDiagnostic → Error → Error
with_diagnostic diagnostic error = record error { diagnostic = some diagnostic }

abbrev pub with_resolution : Value → Error → Error
with_resolution value error = record error { resolution = some value }

abbrev pub semantic : Error → Error
semantic error = record error { is_semantic = true }

pub data PetRemoteKind : Type 0 where
  method_not_found interrupted parsing coq anomaly system : PetRemoteKind
  theorem_not_found no_node_at_point reference_not_found : PetRemoteKind
  unknown : ℤ → PetRemoteKind

-- The code is -(n + 1).
known_code : ℕ → ℤ → PetRemoteKind
known_code n code =
    if n == 32600
    then method_not_found
    else if n == 32000
    then interrupted
    else if n == 32001
    then parsing
    else if n == 32002
    then coq
    else if n == 32003
    then anomaly
    else if n == 32004
    then system
    else if n == 32005
    then theorem_not_found
    else if n == 32006
    then no_node_at_point
    else if n == 32007
    then reference_not_found
    else unknown code

unfoldable pub from_code : ℤ → PetRemoteKind
unfolding known_code
from_code (pos n) = unknown (pos n)
from_code (negsuc n) = known_code n (negsuc n)

unfoldable pub kind_is_semantic : PetRemoteKind → Bool
kind_is_semantic interrupted = true
kind_is_semantic parsing = true
kind_is_semantic coq = true
kind_is_semantic theorem_not_found = true
kind_is_semantic no_node_at_point = true
kind_is_semantic reference_not_found = true
kind_is_semantic _ = false

pub data PetError : Type 0 where
  invalid environment process_lost protocol : Text → PetError
  cancelled output_overflow : PetError
  timed_out : ℕ → PetError
  remote : ℤ → PetRemoteKind → Text → Option ProofDiagnostic → PetError

-- `lost` is another name of this test.
unfoldable pub is_transport_loss : PetError → Bool
is_transport_loss (process_lost message) = true
is_transport_loss (protocol message) = true
is_transport_loss output_overflow = true
is_transport_loss _ = false

unfoldable pub invalidates_process : PetError → Bool
unfolding is_transport_loss
invalidates_process cancelled = true
invalidates_process (timed_out ms) = true
invalidates_process error = is_transport_loss error

unfoldable pub is_internal_failure : PetError → Bool
is_internal_failure (remote code anomaly message diagnostic) = true
is_internal_failure (remote code system message diagnostic) = true
is_internal_failure (remote code (unknown n) message diagnostic) = true
is_internal_failure _ = false

unfoldable pub pet_is_semantic : PetError → Bool
unfolding kind_is_semantic
pet_is_semantic (remote code kind message diagnostic) = kind_is_semantic kind
pet_is_semantic _ = false
