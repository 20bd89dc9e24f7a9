-- ===== src/Arguments.antt =====
-- What a tool call's JSON arguments must look like: crates/rocq-mcp/src/validation.rs, the argument
-- readers of crates/rocq-mcp/src/adapter.rs, and `validate_fragments` of
-- crates/rocq-engine/src/engine.rs. A fragment is `Text`; `u64` and `usize` are the same here.
pub mod Attempts
mod Tests
use Prim.Native.Char.{Char, code}
use rocq_mcp.Prelude.{
  ℕ, ◌+◌, map, same_bytes, ◌*◌, Bool, true, false, not, Option, none, some, List, [], ◌∷◌, ◌++◌,
  ◌==◌, ◌||◌, ◌&&◌, ltb, leb, if◌then◌else◌, Result, ok, err, ok_or, guard, ◌>>=◌, ◌>>◌, String,
  str_eq, codes, encode, trim, is_empty, length,
}
use rocq_mcp.Types.{
  Text, DeclarationIdentity, DeclarationKind, theorem_kind, lemma_kind, definition_kind, GoalScope,
  focused, unfocused, shelved, given_up, all,
}
use rocq_mcp.Types.Json.{Value, boolean, string, get, as_str, as_u64, as_array, as_object}
use rocq_mcp.Errors.{Error, new_error, invalid_request, invalid_declaration}

abbrev pub invalid : String → Error
invalid message = new_error invalid_request (codes message)

abbrev pub field_error : String → String → Error
field_error name rest = new_error invalid_request (codes name ++ codes rest)

abbrev pub contains : String → List String → Bool
contains name [] = false
contains name (x ∷ rest) = str_eq x name || contains name rest

-- `keys().find(|field| !allowed.contains(field))`
unfoldable pub first_unknown : List String → List String → Option String
first_unknown allowed [] = none
first_unknown allowed (name ∷ rest) =
    let later = first_unknown allowed rest in if contains name allowed then later else some name

unfoldable pub reject_unknown : Value → List String → Result Error (Unit {0})
unfolding first_unknown
reject_unknown value allowed = do
  names ← ok_or (invalid "arguments must be an object") (as_object value)
  elim (first_unknown allowed names) [
    | none ↦ ok tt
    | some name ↦
        err (new_error invalid_request (codes "unexpected field '" ++ codes name ++ codes "'"))
  ]

-- `.filter(|text| !text.is_empty())`
abbrev pub non_empty : Option String → Option String
non_empty none = none
non_empty (some text) = if is_empty (codes text) then none else some text

abbrev pub read_str : Option Value → Option String
read_str none = none
read_str (some value) = as_str value

unfoldable pub required_string : Value → String → Result Error String
required_string value name =
    ok_or (field_error name " must be a non-empty string") (non_empty (read_str (get name value)))

unfoldable pub validate_fragment : Text → Result Error (Unit {0})
validate_fragment fragment = do
  guard (not (is_empty (trim fragment))) (invalid "proof fragment is empty")
  guard (leb (length (encode fragment)) (1024 * 1024)) (invalid "proof fragment exceeds 1 MiB")

unfoldable pub validate_each : List Text → Result Error (Unit {0})
unfolding validate_fragment
validate_each [] = ok tt
validate_each (fragment ∷ rest) = validate_fragment fragment >> validate_each rest

unfoldable pub validate_fragments : List Text → Result Error (Unit {0})
unfolding validate_each
validate_fragments fragments =
    if is_empty fragments || ltb 20 (length fragments)
    then err (invalid "attempts must contain 1 to 20 fragments")
    else validate_each fragments

unfoldable pub strings : List Value → Result Error (List Text)
strings [] = ok []
strings (value ∷ rest) = do
  text ← ok_or (invalid "attempt must be a string") (as_str value)
  texts ← strings rest
  ok (codes text ∷ texts)

abbrev pub read_array : Option Value → Option (List Value)
read_array none = none
read_array (some value) = as_array value

unfoldable pub attempts : Value → Result Error (List Text)
unfolding strings validate_fragments
attempts args = do
  values ← ok_or (invalid "attempts must be an array") (read_array (get "attempts" args))
  fragments ← strings values
  validate_fragments fragments
  ok fragments

-- `as_u64().filter(|value| *value > 0)`
abbrev pub positive : Option ℕ → Option ℕ
positive none = none
positive (some n) = if ltb 0 n then some n else none

-- In milliseconds.
unfoldable pub attempt_timeout : Value → Result Error (Option ℕ)
attempt_timeout args = elim (get "timeout_ms" args) [
  | none ↦ ok none
  | some value ↦ do
    n ← ok_or (invalid "timeout_ms must be a positive integer") (positive (as_u64 value))
    ok (some n)
]

unfoldable pub optional_bool : Value → String → Result Error Bool
optional_bool args name = elim (get name args) [
  | none ↦ ok false
  | some value ↦ elim value [ boolean b ↦ ok b | _ ↦ err (field_error name " must be a boolean") ]
]

abbrev scope_error : Error
scope_error = invalid "scope must be focused, unfocused, shelved, given_up, or all"

scope_named : String → Result Error GoalScope
scope_named scope =
    if str_eq scope "focused"
    then ok focused
    else if str_eq scope "unfocused"
    then ok unfocused
    else if str_eq scope "shelved"
    then ok shelved
    else if str_eq scope "given_up"
    then ok given_up
    else if str_eq scope "all"
    then ok all
    else err scope_error

unfoldable pub goal_scope : Value → Result Error GoalScope
unfolding scope_named
goal_scope args = elim (get "scope" args) [
  | none ↦ ok focused
  | some value ↦ elim (as_str value) [ none ↦ err scope_error | some scope ↦ scope_named scope ]
]

unfoldable pub query_offset : Value → Result Error ℕ
query_offset args = elim (get "offset" args) [
  | none ↦ ok 0
  | some value ↦ ok_or (invalid "offset must be a non-negative integer") (as_u64 value)
]

abbrev slash : Char
slash = "/"

-- `str::replace('\\', "/")`
unfoldable pub forward_slashes : String → String
forward_slashes String.[] = String.[]
forward_slashes (String.◌∷◌ c s) =
    let rest = forward_slashes s in String.◌∷◌ (if code c == b'\\' then slash else c) rest

unfoldable pub path_parts : List Value → Result Error (List String)
path_parts [] = ok []
path_parts (part ∷ rest) = do
  name ← ok_or (invalid "qualified_path must contain non-empty strings") (non_empty (as_str part))
  names ← path_parts rest
  ok (name ∷ names)

abbrev pub non_empty_array : Option (List Value) → Option (List Value)
non_empty_array none = none
non_empty_array (some values) = if is_empty values then none else some values

abbrev is_some : Option String → Bool
is_some none = false
is_some (some s) = true

unfoldable pub declaration_id : Value → String → Result Error DeclarationIdentity
unfolding first_unknown path_parts forward_slashes
declaration_id value name = do
  names ← ok_or (field_error name " must be an object") (as_object value)
  guard (not (is_some (first_unknown ("file" ∷ "qualified_path" ∷ []) names)))
      (field_error name " has an unknown field")
  file ← ok_or (field_error name ".file is required") (non_empty (read_str (get "file" value)))
  parts ←
      ok_or (field_error name ".qualified_path is required")
        (non_empty_array (read_array (get "qualified_path" value)))
  qualified_path ← path_parts parts
  ok (record { file = forward_slashes file; qualified_path = qualified_path })

to_lower : ℕ → ℕ
to_lower c = if leb b'A' c && leb c b'Z' then c + 32 else c

kind_named : Text → Result Error DeclarationKind
kind_named name =
    if same_bytes name (codes "theorem")
    then ok theorem_kind
    else if same_bytes name (codes "lemma")
    then ok lemma_kind
    else if same_bytes name (codes "definition")
    then ok definition_kind
    else err (new_error invalid_declaration (codes "unsupported declaration kind"))

unfoldable pub declaration_kind : Option String → Result Error DeclarationKind
unfolding kind_named to_lower
declaration_kind none = ok theorem_kind
declaration_kind (some text) = kind_named (map to_lower (codes text))

-- The arguments of `check` and `try`.
pub record Settings : Type 0 where
  pub fragments : List Text
  pub timeout : Option ℕ
  pub include_trace : Bool
  pub include_structured : Bool

unfoldable pub settings : Value → Result Error Settings
unfolding reject_unknown attempts attempt_timeout optional_bool
settings args = do
  reject_unknown args ("attempts" ∷ "timeout_ms" ∷ "trace" ∷ "structured" ∷ [])
  fragments ← attempts args
  timeout ← attempt_timeout args
  trace ← optional_bool args "trace"
  structured ← optional_bool args "structured"
  ok (record {
    fragments = fragments;
    timeout = timeout;
    include_trace = trace;
    include_structured = structured;
  })
