-- ===== src/Errors/Tests.antt =====
-- Failures at work.
use rocq_mcp.Prelude.{◌≡◌, refl, false, codes, trim, trim_end_by}
use rocq_mcp.Types.{negsuc}
use rocq_mcp.Errors.{
  pet_lost, process_lost, coq, from_code, pet_is_semantic, new_error, request_cancelled,
}
use rocq_mcp.Errors.Redact.{has_code, pet_public_message, pet_public_message-has_code}
use rocq_mcp.Errors.Public.{public_message}
use rocq_mcp.Errors.Agreement.{wire_kind-injective}

cancelled_message :
    public_message (new_error request_cancelled (codes " gone.. "))
    ≡ codes "gone. Next step: retry the cancelled operation when ready."
unfolding public_message trim trim_end_by
cancelled_message = refl

coq_code : from_code (negsuc 32002) ≡ coq
unfolding from_code
coq_code = refl

pet_public_message-has_code_example :
    has_code (pet_public_message (process_lost (codes "exit -32601"))) ≡ false
unfolding pet_public_message pet_is_semantic
pet_public_message-has_code_example =
    pet_public_message-has_code (process_lost (codes "exit -32601")) refl

wire_kind-injective_example : pet_lost ≡ pet_lost
wire_kind-injective_example = wire_kind-injective pet_lost pet_lost refl
