-- ===== src/Session/Bounded.antt =====
-- How much a `query` of crates/rocq-mcp/src/adapter.rs answers.
use rocq_mcp.Prelude.{
  ℕ, ◌+◌, ◌≤◌, ◌⊎◌, inl, inr, ◌≡◌, Option, none, some, [], ◌∷◌, Result, ok, err, ok_or, map_err,
  map_err-eq-ok, and_then-ends, and_then-answers, if-ends, String, str_eq, length, length-take,
  arith,
}
use rocq_mcp.Types.{Bytes, DeclarationIdentity, ProofState}
use rocq_mcp.Types.Json.{Value, get}
use rocq_mcp.Errors.{Error}
use rocq_mcp.Paging.{Page, text_result, query_page_bytes}
use rocq_mcp.Paging.Size.{text_result-size}
use rocq_mcp.Checkpoint.{CheckpointId, ProofSession}
use rocq_mcp.Writeback.{Target}
use rocq_mcp.Arguments.{invalid, reject_unknown, declaration_id, query_offset, read_str}
use rocq_mcp.Session.{
  Environment, World, Outcome, Stop, failed, validate_proof_target, ensure_current_state,
  proof_target,
}
use rocq_mcp.Declarations.{qualified_name}
use rocq_mcp.Session.Artifacts.{reconcile_artifacts}
use rocq_mcp.Session.Moves.{same_identity, target_identity}
use rocq_mcp.Session.Goals.{goals_reply, GoalsRequest, goals_request, parent_view}
use rocq_mcp.Session.Limits.{IsAsked, goals_request-IsAsked, symbol_limit-le}
use rocq_mcp.Session.Query.{
  PetQuery, Questions, Reply, located, goals_shown, text_shown, symbol_limit, symbol_name,
  named_query, free_query, free_fields, asked, computed, locate_symbol, page_of, query_goals,
  ask_current, ask_named, query_declaration, ask_selected, ask_at, ask_in_context, query_free,
  is_declaration_kind, is_free_kind, query_of_kind, query,
}

-- At most 100 locations, or a page of at most 32 KiB; with the page of goals, structured goals and
-- a difference only where the arguments ask for them.
abbrev pub IsBounded : Value → Result Stop Reply → Type 0
IsBounded args (ok (located symbol locations truncated)) = length locations ≤ 100
IsBounded args (ok (goals_shown reply)) =
    (length reply.goals ≤ query_page_bytes)
    × ((reply.structured_goals ≡ none) ⊎ IsAsked "structured" args)
    × ((reply.goal_diff ≡ none) ⊎ IsAsked "diff" args)
IsBounded args (ok (text_shown page)) = length page.text ≤ query_page_bytes
IsBounded args (err stop) = Unit

module _ (given : Value) (request : GoalsRequest) (id : CheckpointId) (view : ProofState)
    (page : Page) (before : Option ProofState) where
  goals_reply-IsBounded :
      goals_request given ≡ ok request
      → length page.text ≤ query_page_bytes
      → IsBounded given (
          ok (
            goals_shown
              (goals_reply request.include_structured request.include_diff id view page before)))
  unfolding goals_reply
  goals_reply-IsBounded read size = (
    size,
    elim (goals_request-IsAsked given request read).0 [ inl bare ↦ inl (rw bare) | inr h ↦ inr h ],
    elim (goals_request-IsAsked given request read).1 [ inl bare ↦ inl (rw bare) | inr h ↦ inr h ],
  )

module _ (env : Environment) (questions : Questions) (given : Value) where
  Bounded : Outcome Reply → Type 0
  Bounded (r, w) = IsBounded given r

  Any : World → Type 0
  Any w = Unit

  locate_symbol-Bounded : (args : Value) (w : World) → Bounded (locate_symbol env questions args w)
  unfolding locate_symbol Bounded Any
  locate_symbol-Bounded args w =
      and_then-ends Any Bounded
        (computed env questions (reject_unknown args ("kind" ∷ "symbol" ∷ "limit" ∷ [])) w) _ tt
        (λ _ _ _. tt)
        λ _ w1 _.
          and_then-ends Any Bounded (computed env questions (symbol_name args) w1) _ tt
            (λ _ _ _. tt)
            λ symbol w2 _.
              and_then-answers Bounded (map_err failed (symbol_limit args)) w2 _ (λ _ _. tt)
                λ limit read.
                  and_then-ends Any Bounded
                    (asked env questions (questions.locate_symbol_candidates w2.pet.clock symbol)
                      w2)
                    _ tt (λ _ _ _. tt)
                    λ files w4 _.
                      and_then-ends Any Bounded (reconcile_artifacts env files w4) _ tt
                        (λ _ _ _. tt)
                        λ _ w5 _.
                          and_then-ends Any Bounded
                            (asked env questions
                              (questions.resolve_symbol_candidates w5.pet.clock symbol (limit + 1)
                                files)
                              w5)
                            _ tt (λ _ _ _. tt)
                            λ locations w6 _. omega (
                              arith,
                              length-take limit locations,
                              symbol_limit-le args limit
                                  (map_err-eq-ok failed (symbol_limit args) read),
                            )

  page_of-Bounded :
      (answer : Result Error Bytes) (offset : ℕ) (w : World)
      → Bounded (page_of env questions answer offset w)
  unfolding page_of Bounded Any
  page_of-Bounded answer offset w =
      and_then-ends Any Bounded (asked env questions answer w) _ tt (λ _ _ _. tt)
        λ text w1 _.
          and_then-answers Bounded (map_err failed (text_result text offset)) w1 _ (λ _ _. tt)
            (λ page made.
              text_result-size text offset page
                (map_err-eq-ok failed (text_result text offset) made))

  query_goals-Bounded : (w : World) → Bounded (query_goals env questions given w)
  unfolding query_goals Bounded Any
  query_goals-Bounded w =
      and_then-answers Bounded (map_err failed (goals_request given)) w _ (λ _ _. tt)
        λ request read.
          and_then-ends Any Bounded (proof_target env w) _ tt (λ _ _ _. tt)
            λ target w2 _.
              and_then-ends Any Bounded (validate_proof_target env target w2) _ tt (λ _ _ _. tt)
                λ _ w3 _.
                  and_then-ends Any Bounded
                    (reconcile_artifacts env (target.info.identity.file ∷ []) w3) _ tt (λ _ _ _. tt)
                    λ _ w4 _.
                      and_then-ends Any Bounded (ensure_current_state env w4) _ tt (λ _ _ _. tt)
                        λ found w5 _.
                          and_then-ends Any Bounded
                            (asked env questions
                              (questions.goals w5.pet.clock target found.1 request.scope request.id)
                              w5)
                            _ tt (λ _ _ _. tt)
                            λ view w6 _.
                              and_then-answers Bounded
                                (map_err failed (text_result view.goals request.offset)) w6 _
                                (λ _ _. tt)
                                (λ page made.
                                  goals_reply-IsBounded given request found.0 view page
                                    (parent_view found.0 w6.book)
                                    (map_err-eq-ok failed (goals_request given) read)
                                    (text_result-size view.goals request.offset page (
                                      map_err-eq-ok failed (text_result view.goals request.offset)
                                        made)))

  ask_current-Bounded :
      (target : Target) (q : PetQuery) (offset : ℕ) (w : World)
      → Bounded (ask_current env questions target q offset w)
  unfolding ask_current Bounded Any
  ask_current-Bounded target q offset w =
      and_then-ends Any Bounded (ensure_current_state env w) _ tt (λ _ _ _. tt)
        (λ found w1 _.
          page_of-Bounded (questions.query_state w1.pet.clock target found.1 q) offset w1)

  ask_named-Bounded :
      (p : Option (ProofSession Target)) (identity : DeclarationIdentity) (q : PetQuery)
      (offset : ℕ) (w : World)
      → Bounded (ask_named env questions p identity q offset w)
  unfolding ask_named
  ask_named-Bounded none identity q offset w =
      page_of-Bounded (questions.query_at w.pet.clock identity q) offset w
  ask_named-Bounded (some session) identity q offset w =
      if-ends Bounded (same_identity session.target.info.identity identity) _ _
        (ask_current-Bounded session.target q offset w)
        (page_of-Bounded (questions.query_at w.pet.clock identity q) offset w)

  query_declaration-Bounded :
      (kind : String) (args : Value) (w : World)
      → Bounded (query_declaration env questions kind args w)
  unfolding query_declaration Bounded Any
  query_declaration-Bounded kind args w =
      and_then-ends Any Bounded
        (computed env questions (reject_unknown args ("kind" ∷ "target" ∷ "offset" ∷ [])) w) _ tt
        (λ _ _ _. tt)
        λ _ w1 _.
          and_then-ends Any Bounded (computed env questions (query_offset args) w1) _ tt
            (λ _ _ _. tt)
            λ offset w2 _.
              and_then-ends Any Bounded (computed env questions (target_identity env args) w2) _ tt
                (λ _ _ _. tt)
                λ identity w3 _.
                  and_then-ends Any Bounded (reconcile_artifacts env (identity.file ∷ []) w3) _ tt
                    (λ _ _ _. tt)
                    λ _ w4 _.
                      ask_named-Bounded w4.book.proof identity
                        (named_query kind (qualified_name identity.qualified_path)) offset w4

  ask_in_context-Bounded :
      (at : Option Value) (q : PetQuery) (offset : ℕ) (w : World)
      → Bounded (ask_in_context env questions at q offset w)
  unfolding ask_in_context ask_at Bounded Any
  ask_in_context-Bounded none q offset w = selected-Bounded w.book.proof
    where
      selected-Bounded :
          (p : Option (ProofSession Target)) → Bounded (ask_selected env questions p q offset w)
      selected-Bounded none = tt
      selected-Bounded (some session) =
          and_then-ends Any Bounded
            (reconcile_artifacts env (session.target.info.identity.file ∷ []) w) _ tt (λ _ _ _. tt)
            (λ _ w1 _. ask_current-Bounded session.target q offset w1)
  ask_in_context-Bounded (some value) q offset w =
      and_then-ends Any Bounded (computed env questions (declaration_id value "at") w) _ tt
        (λ _ _ _. tt)
        λ identity w1 _.
          and_then-ends Any Bounded (reconcile_artifacts env (identity.file ∷ []) w1) _ tt
            (λ _ _ _. tt)
            λ _ w2 _. page_of-Bounded (questions.query_at w2.pet.clock identity q) offset w2

  query_free-Bounded :
      (kind : String) (args : Value) (w : World) → Bounded (query_free env questions kind args w)
  unfolding query_free Bounded Any
  query_free-Bounded kind args w =
      and_then-ends Any Bounded (computed env questions (reject_unknown args (free_fields kind)) w)
        _ tt (λ _ _ _. tt)
        λ _ w1 _.
          and_then-ends Any Bounded (computed env questions (query_offset args) w1) _ tt
            (λ _ _ _. tt)
            λ offset w2 _.
              and_then-ends Any Bounded (computed env questions (free_query kind args) w2) _ tt
                (λ _ _ _. tt) λ q w3 _. ask_in_context-Bounded (get "at" args) q offset w3

  query_of_kind-Bounded :
      (kind : String) (w : World) → Bounded (query_of_kind env questions kind given w)
  unfolding query_of_kind Bounded
  query_of_kind-Bounded kind w =
      if-ends Bounded (str_eq kind "locate_symbol") _ _ (locate_symbol-Bounded given w) (
        if-ends Bounded (str_eq kind "goals") _ _ (query_goals-Bounded w) (
          if-ends Bounded (is_declaration_kind env questions kind) _ _
            (query_declaration-Bounded kind given w)
            (if-ends Bounded (is_free_kind env questions kind) _ _ (query_free-Bounded kind given w)
              tt)))

-- Whatever PET and the index of symbols answer, a `query` answers at most 100 locations, or a page
-- of at most 32 KiB; with the page of goals come structured goals and a difference of goals only
-- where the arguments ask for them by a `true`. The sizes of these two, of a location and of the
-- focus are not bounded.
pub query-IsBounded :
    (env : Environment) (questions : Questions) (args : Value) (w : World)
    → IsBounded args (query env questions args w).0
unfolding query Bounded Any
query-IsBounded env questions args w =
    and_then-ends (Any env questions args) (Bounded env questions args)
      (computed env questions (ok_or (invalid "kind is required") (read_str (get "kind" args))) w) _
      tt (λ _ _ _. tt) (λ kind w1 _. query_of_kind-Bounded env questions args kind w1)
