-- ===== src/Session/Query.antt =====
-- `query` of crates/rocq-mcp/src/adapter.rs. The engine's questions to PET and to the index of
-- symbols answer by `Questions` at each tick of PET's clock.
use rocq_mcp.Prelude.{
  ℕ, ◌+◌, Bool, true, false, Option, none, some, List, [], ◌∷◌, ◌||◌, ◌&&◌, ltb, leb, if◌then◌else◌,
  Result, ok, err, ok_or, guard, map_err, and_then, ◌>>=◌, ◌>>◌, String, str_eq, codes, trim,
  is_empty, length, take,
}
use rocq_mcp.Types.{
  Text, Bytes, FileId, DeclarationIdentity, DeclarationKind, PetStateId, ProofState, GoalScope,
}
use rocq_mcp.Types.Json.{Value, get, as_u64}
use rocq_mcp.Errors.{Error}
use rocq_mcp.Paging.{Page, text_result}
use rocq_mcp.Checkpoint.{ProofSession}
use rocq_mcp.Writeback.{Target}
use rocq_mcp.Arguments.{
  invalid, reject_unknown, required_string, declaration_id, query_offset, read_str,
}
use rocq_mcp.Session.{
  Environment, World, Outcome, failed, tick, validate_proof_target, ensure_current_state,
  proof_target,
}
use rocq_mcp.Declarations.{qualified_name}
use rocq_mcp.Session.Goals.{GoalsReply, goals_reply, goals_request, parent_view}
use rocq_mcp.Session.Artifacts.{reconcile_artifacts}
use rocq_mcp.Session.Moves.{same_identity, target_identity}

pub data PetQuery : Type 0 where
  search : Text → PetQuery
  about : Text → PetQuery
  print : Text → PetQuery
  assumptions : Text → PetQuery
  dependencies : Text → PetQuery
  expression_type : Text → PetQuery
  notation : Text → PetQuery

pub record SymbolLocation : Type 0 where
  pub identity : DeclarationIdentity
  pub qualified_name : Text
  pub kind : DeclarationKind
  pub statement : String
  pub require_import : String
  pub match_kind : String

pub record Questions : Type 0 where
  pub locate_symbol_candidates : ℕ → Text → Result Error (List FileId)
  pub resolve_symbol_candidates : ℕ → Text → ℕ → List FileId → Result Error (List SymbolLocation)
  pub goals : ℕ → Target → PetStateId → GoalScope → Option (List Value) → Result Error ProofState
  pub query_state : ℕ → Target → PetStateId → PetQuery → Result Error Bytes
  pub query_at : ℕ → DeclarationIdentity → PetQuery → Result Error Bytes

pub data Reply : Type 0 where
  located : Text → List SymbolLocation → Bool → Reply
  goals_shown : GoalsReply → Reply
  text_shown : Page → Reply

abbrev pub in_limits : Option ℕ → Option ℕ
in_limits none = none
in_limits (some n) = if leb 1 n && leb n 100 then some n else none

unfoldable pub symbol_limit : Value → Result Error ℕ
symbol_limit args = elim (get "limit" args) [
  | none ↦ ok 20
  | some value ↦ ok_or (invalid "limit must be an integer from 1 to 100") (in_limits (as_u64 value))
]

unfoldable pub symbol_name : Value → Result Error Text
symbol_name args = do
  symbol ← required_string args "symbol"
  guard (if is_empty (trim (codes symbol)) then false else true)
      (invalid "symbol must not be empty")
  ok (trim (codes symbol))

-- The questions about one declaration: `kind` with its name.
unfoldable pub named_query : String → Text → PetQuery
named_query kind name =
    if str_eq kind "about"
    then about name
    else if str_eq kind "print"
    then print name
    else if str_eq kind "assumptions"
    then assumptions name
    else dependencies name

unfoldable pub free_query : String → Value → Result Error PetQuery
free_query kind args =
    if str_eq kind "search"
    then required_string args "pattern" >>= (λ pattern. ok (search (codes pattern)))
    else if str_eq kind "type"
    then required_string args "expression" >>= (λ e. ok (expression_type (codes e)))
    else required_string args "expression" >>= (λ e. ok (notation (codes e)))

abbrev pub free_fields : String → List String
free_fields kind =
    if str_eq kind "search"
    then "kind" ∷ "pattern" ∷ "at" ∷ "offset" ∷ []
    else "kind" ∷ "expression" ∷ "at" ∷ "offset" ∷ []

module _ (env : Environment) (questions : Questions) where
  -- A call of the engine, which takes a tick.
  abbrev pub asked : {A : Type 0} → Result Error A → World → Outcome A
  asked r w = (map_err failed r, tick w)

  abbrev pub computed : {A : Type 0} → Result Error A → World → Outcome A
  computed r w = (map_err failed r, w)

  unfoldable pub locate_symbol : Value → World → Outcome Reply
  unfolding reconcile_artifacts symbol_name symbol_limit
  locate_symbol args w =
      and_then (computed (reject_unknown args ("kind" ∷ "symbol" ∷ "limit" ∷ [])) w) λ _ w1.
        and_then (computed (symbol_name args) w1) λ symbol w2.
          and_then (computed (symbol_limit args) w2) λ limit w3.
            and_then (asked (questions.locate_symbol_candidates w3.pet.clock symbol) w3) λ files w4.
              and_then (reconcile_artifacts env files w4) λ _ w5.
                and_then
                  (asked (questions.resolve_symbol_candidates w5.pet.clock symbol (limit + 1) files)
                    w5)
                  λ locations w6.
                    (ok (located symbol (take limit locations) (ltb limit (length locations))), w6)

  unfoldable pub page_of : Result Error Bytes → ℕ → World → Outcome Reply
  page_of answer offset w = and_then (asked answer w) λ text w1.
      and_then (computed (text_result text offset) w1) λ page w2. (ok (text_shown page), w2)

  unfoldable pub query_goals : Value → World → Outcome Reply
  unfolding goals_request proof_target validate_proof_target reconcile_artifacts
      ensure_current_state parent_view goals_reply
  query_goals args w = and_then (computed (goals_request args) w) λ request w1.
      and_then (proof_target env w1) λ target w2.
        and_then (validate_proof_target env target w2) λ _ w3.
          and_then (reconcile_artifacts env (target.info.identity.file ∷ []) w3) λ _ w4.
            and_then (ensure_current_state env w4) λ found w5.
              and_then
                (asked (questions.goals w5.pet.clock target found.1 request.scope request.id) w5)
                λ view w6. and_then (computed (text_result view.goals request.offset) w6) λ page w7.
                  (
                    ok (
                        goals_shown (
                          goals_reply request.include_structured request.include_diff found.0 view
                            page (parent_view found.0 w7.book))),
                    w7,
                  )

  -- A question that the selected proof's state answers.
  unfoldable pub ask_current : Target → PetQuery → ℕ → World → Outcome Reply
  unfolding ensure_current_state page_of
  ask_current target query offset w =
      and_then (ensure_current_state env w)
        λ found w1. page_of (questions.query_state w1.pet.clock target found.1 query) offset w1

  unfoldable pub ask_named :
      Option (ProofSession Target) → DeclarationIdentity → PetQuery → ℕ → World → Outcome Reply
  unfolding ask_current page_of
  ask_named none identity query offset w =
      page_of (questions.query_at w.pet.clock identity query) offset w
  ask_named (some session) identity query offset w =
      if same_identity session.target.info.identity identity
      then ask_current session.target query offset w
      else page_of (questions.query_at w.pet.clock identity query) offset w

  unfoldable pub query_declaration : String → Value → World → Outcome Reply
  unfolding target_identity reconcile_artifacts ask_named named_query qualified_name
  query_declaration kind args w =
      and_then (computed (reject_unknown args ("kind" ∷ "target" ∷ "offset" ∷ [])) w) λ _ w1.
        and_then (computed (query_offset args) w1) λ offset w2.
          and_then (computed (target_identity env args) w2) λ identity w3.
            and_then (reconcile_artifacts env (identity.file ∷ []) w3) λ _ w4.
              ask_named w4.book.proof identity
                (named_query kind (qualified_name identity.qualified_path)) offset w4

  abbrev pub no_context : Error
  no_context = invalid "at is required when no proof is selected"

  unfoldable pub ask_selected : Option (ProofSession Target) → PetQuery → ℕ → World → Outcome Reply
  unfolding reconcile_artifacts ask_current
  ask_selected none query offset w = (err (failed no_context), w)
  ask_selected (some session) query offset w =
      and_then (reconcile_artifacts env (session.target.info.identity.file ∷ []) w)
        (λ _ w1. ask_current session.target query offset w1)

  unfoldable pub ask_at : Value → PetQuery → ℕ → World → Outcome Reply
  unfolding reconcile_artifacts page_of
  ask_at value query offset w = and_then (computed (declaration_id value "at") w) λ identity w1.
      and_then (reconcile_artifacts env (identity.file ∷ []) w1)
        λ _ w2. page_of (questions.query_at w2.pet.clock identity query) offset w2

  -- An explicit context overrides an active proof.
  unfoldable pub ask_in_context : Option Value → PetQuery → ℕ → World → Outcome Reply
  unfolding ask_at ask_selected
  ask_in_context (some value) query offset w = ask_at value query offset w
  ask_in_context none query offset w = ask_selected w.book.proof query offset w

  unfoldable pub query_free : String → Value → World → Outcome Reply
  unfolding free_query ask_in_context
  query_free kind args w = and_then (computed (reject_unknown args (free_fields kind)) w) λ _ w1.
      and_then (computed (query_offset args) w1) λ offset w2.
        and_then (computed (free_query kind args) w2)
          λ query w3. ask_in_context (get "at" args) query offset w3

  abbrev pub unsupported : Error
  unsupported = invalid "unsupported query kind"

  abbrev pub is_declaration_kind : String → Bool
  is_declaration_kind kind =
      str_eq kind "about"
      || str_eq kind "print"
      || str_eq kind "assumptions"
      || str_eq kind "dependencies"

  abbrev pub is_free_kind : String → Bool
  is_free_kind kind = str_eq kind "search" || str_eq kind "type" || str_eq kind "notations"

  unfoldable pub query_of_kind : String → Value → World → Outcome Reply
  unfolding locate_symbol query_goals query_declaration query_free
  query_of_kind kind args w =
      if str_eq kind "locate_symbol"
      then locate_symbol args w
      else if str_eq kind "goals"
      then query_goals args w
      else if is_declaration_kind kind
      then query_declaration kind args w
      else if is_free_kind kind
      then query_free kind args w
      else (err (failed unsupported), w)

  unfoldable pub query : Value → World → Outcome Reply
  unfolding query_of_kind
  query args w =
      and_then (computed (ok_or (invalid "kind is required") (read_str (get "kind" args))) w)
        (λ kind w1. query_of_kind kind args w1)
