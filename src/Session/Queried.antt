-- ===== src/Session/Queried.antt =====
-- What a `query` (crates/rocq-mcp/src/adapter.rs) leaves of the session, and what it answers.
use rocq_mcp.Prelude.{
  ℕ, ◌+◌, ◌≡◌, Option, none, some, [], ◌∷◌, Result, ok_or, and_then-keeps, if-keeps, String, str_eq,
}
use rocq_mcp.Types.{Bytes, DeclarationIdentity}
use rocq_mcp.Types.Json.{Value, get}
use rocq_mcp.Errors.{Error}
use rocq_mcp.Paging.{text_result}
use rocq_mcp.Checkpoint.{CheckpointId, CheckpointBook, ProofSession, path, fragments}
use rocq_mcp.Checkpoint.Alike.{Alike, Alike-refl, Alike-history}
use rocq_mcp.Writeback.{Target}
use rocq_mcp.Arguments.{invalid, reject_unknown, declaration_id, query_offset, read_str}
use rocq_mcp.Session.{Environment, World, validate_proof_target, ensure_current_state, proof_target}
use rocq_mcp.Declarations.{qualified_name}
use rocq_mcp.Session.Artifacts.{reconcile_artifacts}
use rocq_mcp.Session.Moves.{same_identity, target_identity}
use rocq_mcp.Session.Alike.{
  Keeps, tick-Keeps, target_of-Keeps, reconcile_artifacts-Keeps, ensure_current_state-Keeps,
}
use rocq_mcp.Session.Goals.{goals_request}
use rocq_mcp.Session.Query.{
  PetQuery, Questions, symbol_limit, symbol_name, named_query, free_query, free_fields, asked,
  computed, locate_symbol, page_of, query_goals, ask_current, ask_named, query_declaration,
  ask_selected, ask_at, ask_in_context, query_free, is_declaration_kind, is_free_kind,
  query_of_kind, query,
}

module _ (env : Environment) (questions : Questions) (b : CheckpointBook Target) where
  K : World → Type 0
  K w = Keeps env b w

  locate_symbol-K : (args : Value) (w : World) → K w → K (locate_symbol env questions args w).1
  unfolding locate_symbol K
  locate_symbol-K args w h =
      and_then-keeps K
        (computed env questions (reject_unknown args ("kind" ∷ "symbol" ∷ "limit" ∷ [])) w) _ h
        λ _ w1 h1.
          and_then-keeps K (computed env questions (symbol_name args) w1) _ h1 λ symbol w2 h2.
            and_then-keeps K (computed env questions (symbol_limit args) w2) _ h2 λ limit w3 h3.
              and_then-keeps K
                (asked env questions (questions.locate_symbol_candidates w3.pet.clock symbol) w3) _
                (tick-Keeps env b w3 h3)
                λ files w4 h4.
                  and_then-keeps K (reconcile_artifacts env files w4) _
                    (reconcile_artifacts-Keeps env b files w4 h4)
                    λ _ w5 h5.
                      and_then-keeps K
                        (asked env questions
                          (questions.resolve_symbol_candidates w5.pet.clock symbol (limit + 1)
                            files)
                          w5)
                        _ (tick-Keeps env b w5 h5) (λ locations w6 h6. h6)

  page_of-K :
      (answer : Result Error Bytes) (offset : ℕ) (w : World)
      → K w
      → K (page_of env questions answer offset w).1
  unfolding page_of K
  page_of-K answer offset w h =
      and_then-keeps K (asked env questions answer w) _ (tick-Keeps env b w h) λ text w1 h1.
        and_then-keeps K (computed env questions (text_result text offset) w1) _ h1
          (λ page w2 h2. h2)

  query_goals-K : (args : Value) (w : World) → K w → K (query_goals env questions args w).1
  unfolding query_goals proof_target validate_proof_target K
  query_goals-K args w h =
      and_then-keeps K (computed env questions (goals_request args) w) _ h λ request w1 h1.
        and_then-keeps K (proof_target env w1) _ (target_of-Keeps env b w1.book.proof w1 h1)
          λ target w2 h2.
            and_then-keeps K (validate_proof_target env target w2) _ (tick-Keeps env b w2 h2)
              λ _ w3 h3.
                and_then-keeps K (reconcile_artifacts env (target.info.identity.file ∷ []) w3) _
                  (reconcile_artifacts-Keeps env b (target.info.identity.file ∷ []) w3 h3)
                  λ _ w4 h4.
                    and_then-keeps K (ensure_current_state env w4) _
                      (ensure_current_state-Keeps env b w4 h4)
                      λ found w5 h5.
                        and_then-keeps K
                          (asked env questions
                            (questions.goals w5.pet.clock target found.1 request.scope request.id)
                            w5)
                          _ (tick-Keeps env b w5 h5)
                          λ view w6 h6.
                            and_then-keeps K
                              (computed env questions (text_result view.goals request.offset) w6) _
                              h6 (λ page w7 h7. h7)

  ask_current-K :
      (target : Target) (q : PetQuery) (offset : ℕ) (w : World)
      → K w
      → K (ask_current env questions target q offset w).1
  unfolding ask_current K
  ask_current-K target q offset w h =
      and_then-keeps K (ensure_current_state env w) _ (ensure_current_state-Keeps env b w h)
        λ found w1 h1. page_of-K (questions.query_state w1.pet.clock target found.1 q) offset w1 h1

  ask_named-K :
      (p : Option (ProofSession Target)) (identity : DeclarationIdentity) (q : PetQuery)
      (offset : ℕ) (w : World)
      → K w
      → K (ask_named env questions p identity q offset w).1
  unfolding ask_named
  ask_named-K none identity q offset w h =
      page_of-K (questions.query_at w.pet.clock identity q) offset w h
  ask_named-K (some session) identity q offset w h =
      if-keeps K (same_identity session.target.info.identity identity) _ _
        (ask_current-K session.target q offset w h)
        (page_of-K (questions.query_at w.pet.clock identity q) offset w h)

  query_declaration-K :
      (kind : String) (args : Value) (w : World)
      → K w
      → K (query_declaration env questions kind args w).1
  unfolding query_declaration K
  query_declaration-K kind args w h =
      and_then-keeps K
        (computed env questions (reject_unknown args ("kind" ∷ "target" ∷ "offset" ∷ [])) w) _ h
        λ _ w1 h1.
          and_then-keeps K (computed env questions (query_offset args) w1) _ h1 λ offset w2 h2.
            and_then-keeps K (computed env questions (target_identity env args) w2) _ h2
              λ identity w3 h3.
                and_then-keeps K (reconcile_artifacts env (identity.file ∷ []) w3) _
                  (reconcile_artifacts-Keeps env b (identity.file ∷ []) w3 h3)
                  λ _ w4 h4.
                    ask_named-K w4.book.proof identity
                      (named_query kind (qualified_name identity.qualified_path)) offset w4 h4

  ask_selected-K :
      (p : Option (ProofSession Target)) (q : PetQuery) (offset : ℕ) (w : World)
      → K w
      → K (ask_selected env questions p q offset w).1
  unfolding ask_selected Keeps K
  ask_selected-K none q offset w h = h
  ask_selected-K (some session) q offset w h =
      and_then-keeps K (reconcile_artifacts env (session.target.info.identity.file ∷ []) w) _
        (reconcile_artifacts-Keeps env b (session.target.info.identity.file ∷ []) w h)
        (λ _ w1 h1. ask_current-K session.target q offset w1 h1)

  ask_at-K :
      (value : Value) (q : PetQuery) (offset : ℕ) (w : World)
      → K w
      → K (ask_at env questions value q offset w).1
  unfolding ask_at K
  ask_at-K value q offset w h =
      and_then-keeps K (computed env questions (declaration_id value "at") w) _ h λ identity w1 h1.
        and_then-keeps K (reconcile_artifacts env (identity.file ∷ []) w1) _
          (reconcile_artifacts-Keeps env b (identity.file ∷ []) w1 h1)
          λ _ w2 h2. page_of-K (questions.query_at w2.pet.clock identity q) offset w2 h2

  ask_in_context-K :
      (at : Option Value) (q : PetQuery) (offset : ℕ) (w : World)
      → K w
      → K (ask_in_context env questions at q offset w).1
  unfolding ask_in_context
  ask_in_context-K none q offset w h = ask_selected-K w.book.proof q offset w h
  ask_in_context-K (some value) q offset w h = ask_at-K value q offset w h

  query_free-K :
      (kind : String) (args : Value) (w : World) → K w → K (query_free env questions kind args w).1
  unfolding query_free K
  query_free-K kind args w h =
      and_then-keeps K (computed env questions (reject_unknown args (free_fields kind)) w) _ h
        λ _ w1 h1.
          and_then-keeps K (computed env questions (query_offset args) w1) _ h1 λ offset w2 h2.
            and_then-keeps K (computed env questions (free_query kind args) w2) _ h2
              λ q w3 h3. ask_in_context-K (get "at" args) q offset w3 h3

  query_of_kind-K :
      (kind : String) (args : Value) (w : World)
      → K w
      → K (query_of_kind env questions kind args w).1
  unfolding query_of_kind K
  query_of_kind-K kind args w h =
      if-keeps K (str_eq kind "locate_symbol") _ _ (locate_symbol-K args w h) (
        if-keeps K (str_eq kind "goals") _ _ (query_goals-K args w h) (
          if-keeps K (is_declaration_kind env questions kind) _ _
            (query_declaration-K kind args w h)
            (if-keeps K (is_free_kind env questions kind) _ _ (query_free-K kind args w h) h)))

-- A `query` of any kind, whatever it asks and however PET, Dune and cancellation answer, leaves the
-- selected checkpoint, the proof's target, and the path and the fragments of every identifier as
-- they were.
pub query-Alike :
    (env : Environment) (questions : Questions) (args : Value) (w : World)
    → Alike w.book (query env questions args w).1.book
      × ((id : CheckpointId)
          → (path id (query env questions args w).1.book ≡ path id w.book)
            × (fragments id (query env questions args w).1.book ≡ fragments id w.book))
unfolding query K Keeps
query-Alike env questions args w =
    let h : Alike w.book (query env questions args w).1.book =
      and_then-keeps (K env questions w.book)
        (computed env questions (ok_or (invalid "kind is required") (read_str (get "kind" args))) w)
        _ (Alike-refl w.book)
        (λ kind w1 h1. query_of_kind-K env questions w.book kind args w1 h1) in
    (h, Alike-history h)
