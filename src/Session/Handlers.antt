-- ===== src/Session/Handlers.antt =====
-- Each handler of crates/rocq-mcp/src/adapter.rs keeps the shape of its session's graph.
use rocq_mcp.Prelude.{
  inl, inr, Bool, true, false, not, Option, none, some, List, [], ◌∷◌, Result, ok, err, map_err,
  and_then-keeps, if-keeps, Result-cases, ◌>>=◌,
}
use rocq_mcp.Types.{PetStateId, ProofState}
use rocq_mcp.Types.Json.{Value, get}
use rocq_mcp.Errors.{Error, PetError, is_transport_loss}
use rocq_mcp.Paging.{bounded_checkpoint_view}
use rocq_mcp.Checkpoint.{CheckpointId, CheckpointBook, Checked, ProofSession, begin}
use rocq_mcp.Checkpoint.Alike.{Alike-refl, IsValid-Alike}
use rocq_mcp.Checkpoint.Shape.{IsValid, perform, perform-IsValid, begin_with, clear_all}
use rocq_mcp.Writeback.{Target}
use rocq_mcp.Arguments.{
  settings, reject_unknown, required_string, declaration_kind, read_str, forward_slashes,
}
use rocq_mcp.Session.Artifacts.{reconcile_artifacts}
use rocq_mcp.Session.{
  Environment, World, Fingerprint, OpenedProof, failed, Opening, opened, published,
  invalidate_project_states, commit_or_cancelled, release_states, proof_target, tick,
}
use rocq_mcp.Session.Check.{check}
use rocq_mcp.Session.Moves.{
  rewind, target_identity, prove, declare, abandon, after_begin, begin_proof, show_checkpoint,
  validate_opened, recorded, open_proof, handed_out, retire_proof, retire, retired, live_states,
  after_retire, same_identity, reject_active_proof,
}
use rocq_mcp.Session.Alike.{
  Keeps, release_states-Keeps, commit_or_cancelled-Keeps, reconcile_artifacts-Keeps,
  invalidate_project_states-Keeps, target_of-Keeps,
}
use rocq_mcp.Session.Growth.{check-Effect}
use rocq_mcp.Session.Outcomes.{Effect-IsValid, Moved-IsValid}
use rocq_mcp.Session.Rewound.{rewind-Moved}

module _ (env : Environment) where
  unfoldable pub ValidBook : World → Type 0
  ValidBook w = IsValid w.book

  -- A step that keeps every book up to PET states keeps this one's shape.
  pub via : (w w' : World) → (Keeps env w.book w → Keeps env w.book w') → ValidBook w → ValidBook w'
  unfolding Keeps ValidBook
  via w w' keeps h = IsValid-Alike (keeps (Alike-refl w.book)) h

  after_begin-ValidBook :
      (state : PetStateId) (r : Checked CheckpointId × CheckpointBook Target) (w : World)
      → IsValid r.1
      → ValidBook (after_begin env state r w).1
  unfolding after_begin show_checkpoint ValidBook
  after_begin-ValidBook state (err e, book) w h =
      and_then-keeps ValidBook (release_states env (state ∷ []) (record w { book = book })) _
        (via (record w { book = book }) _
          (release_states-Keeps env book (state ∷ []) (record w { book = book })) h)
        (λ _ w' h'. h')
  after_begin-ValidBook state (ok id, book) w h = h

  begin_proof-ValidBook :
      (o : OpenedProof) (w : World) → ValidBook w → ValidBook (begin_proof env o w).1
  unfolding begin_proof ValidBook perform
  begin_proof-ValidBook o w h =
      let (view, offset) = bounded_checkpoint_view o.step.view in
      and_then-keeps ValidBook (commit_or_cancelled env w) _
        (via w _ (commit_or_cancelled-Keeps env w.book w) h)
        λ _ w1 h1.
          after_begin-ValidBook o.step.state
            (begin o.target o.step.state o.step.finished view offset w1.book) w1
            (perform-IsValid (begin_with o.target o.step.state o.step.finished view offset) w1.book
              h1)

  validate_opened-ValidBook :
      (target : Target) (r : Result Error ProofState) (w : World)
      → ValidBook w
      → ValidBook (validate_opened env target r w).1
  unfolding validate_opened ValidBook
  validate_opened-ValidBook target (err e) w h = h
  validate_opened-ValidBook target (ok state) w h =
      recorded-ValidBook (env.artifact_fingerprint w.pet.clock target.info.identity.file) h
    where
      recorded-ValidBook :
          (r : Result Error Fingerprint) → ValidBook w → ValidBook (recorded env target r (tick w))
      recorded-ValidBook (ok built) k = k
      recorded-ValidBook (err e) k = k

  open_proof-ValidBook :
      (r : Result Error Opening) (w : World) → ValidBook w → ValidBook (open_proof env r w).1
  unfolding open_proof handed_out ValidBook
  open_proof-ValidBook (err e) w h = h
  open_proof-ValidBook (ok (published target)) w h = validate_opened-ValidBook target _ _ (
      via (tick w) (invalidate_project_states (tick w))
        (invalidate_project_states-Keeps env w.book (tick w)) h)
  open_proof-ValidBook (ok (opened o)) w h = begin_proof-ValidBook o _ h

  pub prove-ValidBook : (args : Value) (w : World) → ValidBook w → ValidBook (prove env args w).1
  unfolding prove reject_active_proof
  prove-ValidBook args w h =
      and_then-keeps ValidBook
        (
          map_err failed (reject_unknown args ("target" ∷ []) >>= (λ _. target_identity env args)),
          w,
        )
        _ h
        λ identity w1 h1.
          and_then-keeps ValidBook (reject_active_proof env "prove" w1) _ h1 λ _ w2 h2.
            and_then-keeps ValidBook (reconcile_artifacts env (identity.file ∷ []) w2) _
              (via w2 _ (reconcile_artifacts-Keeps env w2.book (identity.file ∷ []) w2) h2)
              λ _ w3 h3. open_proof-ValidBook (env.open_declaration w3.pet.clock identity) w3 h3

  handed_out-ValidBook :
      (r : Result Error OpenedProof) (w : World) → ValidBook w → ValidBook (handed_out env r w).1
  unfolding handed_out ValidBook
  handed_out-ValidBook (ok o) w h = h
  handed_out-ValidBook (err e) w h = h

  pub declare-ValidBook :
      (args : Value) (w : World) → ValidBook w → ValidBook (declare env args w).1
  unfolding declare reject_active_proof
  declare-ValidBook args w h =
      and_then-keeps ValidBook
        (map_err failed (reject_unknown args ("name" ∷ "statement" ∷ "kind" ∷ "file" ∷ [])), w) _ h
        λ _ w1 h1.
          and_then-keeps ValidBook (map_err failed (required_string args "name"), w1) _ h1
            λ name w2 h2.
              and_then-keeps ValidBook (map_err failed (required_string args "file"), w2) _ h2
                λ path w3 h3.
                  and_then-keeps ValidBook
                    (map_err failed (declaration_kind (read_str (get "kind" args))), w3) _ h3
                    λ kind w4 h4.
                      and_then-keeps ValidBook
                        (map_err failed (required_string args "statement"), w4) _ h4
                        λ statement w5 h5.
                          and_then-keeps ValidBook (reject_active_proof env "declare" w5) _ h5
                            λ _ w6 h6.
                              and_then-keeps ValidBook
                                (reconcile_artifacts env (forward_slashes path ∷ []) w6) _
                                (via w6 _
                                  (reconcile_artifacts-Keeps env w6.book (forward_slashes path ∷ [])
                                    w6)
                                  h6)
                                λ _ w7 h7.
                                  and_then-keeps ValidBook
                                    (handed_out env
                                      (env.declare w7.pet.clock kind (forward_slashes path) name
                                        statement)
                                      w7)
                                    _ (handed_out-ValidBook _ w7 h7) begin_proof-ValidBook

  retired-ValidBook :
      (states : List PetStateId) (r : Result PetError (Unit {0})) (w : World)
      → ValidBook w
      → ValidBook (retired env states r w).1
  unfolding retired ValidBook perform
  retired-ValidBook states (ok done) w h = perform-IsValid clear_all w.book h
  retired-ValidBook states (err e) w h =
      if-keeps ValidBook (is_transport_loss e) _ _ (perform-IsValid clear_all w.book h) h

  pub retire-ValidBook :
      (p : Option (ProofSession Target)) (w : World) → ValidBook w → ValidBook (retire env p w).1
  unfolding retire
  retire-ValidBook none w h = h
  retire-ValidBook (some session) w h = retired-ValidBook (live_states session.checkpoints) _ w h

  pub after_retire-ValidBook :
      (lost : Bool) (w : World) → ValidBook w → ValidBook (after_retire env lost w)
  unfolding after_retire
  after_retire-ValidBook true w h =
      via w (invalidate_project_states w) (invalidate_project_states-Keeps env w.book w) h
  after_retire-ValidBook false w h = h

  pub abandon-ValidBook :
      (args : Value) (w : World) → ValidBook w → ValidBook (abandon env args w).1
  unfolding abandon proof_target retire_proof
  abandon-ValidBook args w h =
      and_then-keeps ValidBook
        (
          map_err failed (reject_unknown args ("target" ∷ []) >>= (λ _. target_identity env args)),
          w,
        )
        _ h
        λ identity w1 h1.
          and_then-keeps ValidBook (proof_target env w1) _
            (via w1 _ (target_of-Keeps env w1.book w1.book.proof w1) h1)
            λ target w2 h2.
              if-keeps ValidBook (not (same_identity target.info.identity identity)) _ _ h2 (
                and_then-keeps ValidBook (commit_or_cancelled env w2) _
                  (via w2 _ (commit_or_cancelled-Keeps env w2.book w2) h2)
                  λ _ w3 h3.
                    and_then-keeps ValidBook (retire_proof env w3) _
                      (retire-ValidBook w3.book.proof w3 h3)
                      (λ lost w4 h4. after_retire-ValidBook lost w4 h4))

  pub check-ValidBook : (args : Value) (w : World) → ValidBook w → ValidBook (check env args w).1
  unfolding ValidBook check
  check-ValidBook args w h = elim (Result-cases (settings args)) [
    | inl (s, accepted) ↦
        Effect-IsValid w.book s.fragments (check env args w).0 (check env args w).1.book
          (check-Effect env args w s accepted) h
    | inr (e, refused) ↦ rw (refused, check) h
  ]

  pub rewind-ValidBook : (args : Value) (w : World) → ValidBook w → ValidBook (rewind env args w).1
  unfolding ValidBook
  rewind-ValidBook args w h =
      Moved-IsValid args w.book (rewind env args w).0 (rewind env args w).1.book
        (rewind-Moved env args w) h
