-- ===== src/Arguments/Tests.antt =====
-- Arguments of `check`, accepted and refused.
use rocq_mcp.Prelude.{◌≡◌, ◌↔◌, refl, false, some, [], ◌∷◌, ok, err, codes, encode, trim}
use rocq_mcp.Types.Json.{Value, unsigned, string, array, object, nil, cons, end, field}
use rocq_mcp.Arguments.{
  invalid, attempts, strings, validate_fragments, validate_each, validate_fragment, attempt_timeout,
  declaration_id, path_parts, forward_slashes, first_unknown, settings, reject_unknown,
  optional_bool,
}
use rocq_mcp.Arguments.Attempts.{AreAttempts, attempts-AreAttempts}

abbrev args : Value
args = object (
    field "attempts" (array (cons (string "exact I.") (cons (string "trivial.") nil)))
      (field "timeout_ms" (unsigned 500) end))

attempts-AreAttempts_example :
    (attempts args ≡ ok (codes "exact I." ∷ codes "trivial." ∷ []))
    ↔ AreAttempts args (codes "exact I." ∷ codes "trivial." ∷ [])
attempts-AreAttempts_example = attempts-AreAttempts args (codes "exact I." ∷ codes "trivial." ∷ [])

settings_read :
    settings args
    ≡ ok (record {
      fragments = codes "exact I." ∷ codes "trivial." ∷ [];
      timeout = some 500;
      include_trace = false;
      include_structured = false;
    })
unfolding settings reject_unknown first_unknown attempts strings validate_fragments validate_each
    validate_fragment attempt_timeout optional_bool encode trim
settings_read = refl

blank_refused :
    attempts (object (field "attempts" (array (cons (string "  ") nil)) end))
    ≡ err (invalid "proof fragment is empty")
unfolding attempts strings validate_fragments validate_each validate_fragment encode trim
blank_refused = refl

identity_read :
    declaration_id
      (object (
        field "file"
          (string "a\\b.v")
          (field "qualified_path" (array (cons (string "t") nil)) end)))
      "target"
    ≡ ok (record { file = "a/b.v"; qualified_path = "t" ∷ [] })
unfolding declaration_id first_unknown path_parts forward_slashes
identity_read = refl

zero_timeout_refused :
    attempt_timeout (object (field "timeout_ms" (unsigned 0) end))
    ≡ err (invalid "timeout_ms must be a positive integer")
unfolding attempt_timeout
zero_timeout_refused = refl
