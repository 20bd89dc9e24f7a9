-- ===== src/Session/Moves.antt =====
-- The handlers of crates/rocq-mcp/src/adapter.rs that open, leave and rewind a proof: `prove`,
-- `declare`, `abandon` and `rewind`, and `retire_proof` and `begin_proof` beneath them.
use rocq_mcp.Prelude.{
  ℕ, suc, Bool, true, false, not, Option, none, some, List, [], ◌∷◌, ◌++◌, ◌&&◌, if◌then◌else◌,
  Result, ok, err, ok_or, map_err, and_then, ◌>>=◌, String, str_eq, codes,
}
use rocq_mcp.Types.{PetStateId, ProofState, DeclarationIdentity}
use rocq_mcp.Types.Json.{Value, get, as_u64}
use rocq_mcp.Errors.{Error, PetError, new_error, invalid_request, not_found, is_transport_loss}
use rocq_mcp.Errors.Project.{pet_release_error}
use rocq_mcp.Paging.{bounded_checkpoint_view}
use rocq_mcp.Checkpoint.{
  CheckpointId, Checkpoint, Checkpoints, CheckpointBook, Checked, ProofSession, begin, find, select,
  clear, steps_back,
}
use rocq_mcp.Replay.Install.{checkpoint_error}
use rocq_mcp.Writeback.{Target}
use rocq_mcp.Arguments.{
  reject_unknown, required_string, declaration_id, declaration_kind, forward_slashes, positive,
  invalid, read_str,
}
use rocq_mcp.Session.{
  Environment, World, Outcome, Stop, failed, tick, OpenedProof, Opening, published, opened,
  Fingerprint, invalidate_project_states, commit_or_cancelled, validate_proof_target,
  release_states, state_of, proof_target,
}
use rocq_mcp.Session.Artifacts.{reconcile_artifacts, record_artifact}

-- The view that an answer shows; `id` is absent for a published declaration.
pub record Shown : Type 0 where
  pub view : ProofState
  pub id : Option CheckpointId
  pub goals_next_offset : Option ℕ

abbrev pub same_parts : List String → List String → Bool
same_parts [] [] = true
same_parts [] (b ∷ t) = false
same_parts (a ∷ s) [] = false
same_parts (a ∷ s) (b ∷ t) = str_eq a b && same_parts s t

abbrev pub same_identity : DeclarationIdentity → DeclarationIdentity → Bool
same_identity a b = str_eq a.file b.file && same_parts a.qualified_path b.qualified_path

-- The states that the checkpoints own.
abbrev pub owned_by : Option PetStateId → List PetStateId → List PetStateId
owned_by none rest = rest
owned_by (some state) rest = state ∷ rest

unfoldable pub live_states : Checkpoints → List PetStateId
live_states [] = []
live_states ((id, checkpoint) ∷ rest) = owned_by checkpoint.pet_state (live_states rest)

abbrev pub cleared : World → World
cleared w = record w { book = (clear w.book).1 }

abbrev pub shown : CheckpointId → Checkpoint → Shown
shown id checkpoint = record {
  view = checkpoint.view;
  id = some id;
  goals_next_offset = checkpoint.goals_next_offset;
}

abbrev pub of_book {ℓ} : {A : Type ℓ} → Checked A → Result Stop A
of_book r = map_err (λ e. failed (checkpoint_error e)) r

module _ (env : Environment) where
  -- The answer of PET to the release of `states`; `true` stands for a lost epoch.
  unfoldable pub retired : List PetStateId → Result PetError (Unit {0}) → World → Outcome Bool
  retired states (ok done) w = (
    ok false,
    cleared (record w {
      pet = record w.pet { clock = suc w.pet.clock; released = w.pet.released ++ states };
    }),
  )
  retired states (err error) w =
      if is_transport_loss error
      then (ok true, cleared (tick w))
      else (err (failed (pet_release_error error)), tick w)

  unfoldable pub retire : Option (ProofSession Target) → World → Outcome Bool
  unfolding live_states retired
  retire none w = (ok false, w)
  retire (some session) w =
      retired (live_states session.checkpoints)
        (env.engine.release_states w.pet.clock (live_states session.checkpoints)) w

  unfoldable pub retire_proof : World → Outcome Bool
  unfolding retire
  retire_proof w = retire w.book.proof w

  active : String → Option (ProofSession Target) → Result Stop (Unit {0})
  active operation none = ok tt
  active operation (some session) = err (
      failed (
        new_error invalid_request
          (codes "abandon the active proof before calling " ++ codes operation)))

  unfoldable pub reject_active_proof : String → World → Outcome (Unit {0})
  unfolding active
  reject_active_proof operation w = (active operation w.book.proof, w)

  unfoldable pub show_checkpoint : CheckpointId → World → Outcome Shown
  show_checkpoint id w =
      (map_err (λ e. failed (checkpoint_error e)) (find id w.book) >>= (λ c. ok (shown id c)), w)

  unfoldable pub after_begin :
      PetStateId → Checked CheckpointId × CheckpointBook Target → World → Outcome Shown
  unfolding release_states show_checkpoint
  after_begin state (err e, book) w =
      and_then (release_states env (state ∷ []) (record w { book = book }))
        (λ _ w'. (err (failed (checkpoint_error e)), w'))
  after_begin state (ok id, book) w = show_checkpoint id (record w { book = book })

  unfoldable pub begin_proof : OpenedProof → World → Outcome Shown
  unfolding commit_or_cancelled after_begin
  begin_proof o w =
      let (view, offset) = bounded_checkpoint_view o.step.view in
      and_then (commit_or_cancelled env w) λ _ w1.
        after_begin o.step.state (begin o.target o.step.state o.step.finished view offset w1.book)
          w1

  -- The state that an opened proof comes with is handed out.
  unfoldable pub handed_out : Result Error OpenedProof → World → Outcome OpenedProof
  handed_out (ok o) w = (
    ok o,
    record w {
      pet = record w.pet { clock = suc w.pet.clock; taken = w.pet.taken ++ o.step.state ∷ [] };
    },
  )
  handed_out (err e) w = (err (failed e), tick w)

  unfoldable pub recorded : Target → Result Error Fingerprint → World → World
  recorded target (ok built) w = record w {
    artifacts = record_artifact target.info.identity.file built w.artifacts;
  }
  recorded target (err e) w = w

  -- A declaration that is finished in the source is built and audited.
  unfoldable pub validate_opened : Target → Result Error ProofState → World → Outcome Shown
  unfolding recorded
  validate_opened target (err e) w = (err (failed e), w)
  validate_opened target (ok state) w = (
    ok (record { view = state; id = none; goals_next_offset = none }),
    recorded target (env.artifact_fingerprint w.pet.clock target.info.identity.file) (tick w),
  )

  unfoldable pub open_proof : Result Error Opening → World → Outcome Shown
  unfolding validate_opened begin_proof handed_out
  open_proof (err e) w = (err (failed e), tick w)
  open_proof (ok (published target)) w =
      let w1 = invalidate_project_states (tick w) in
      validate_opened target (env.validate_published w1.pet.clock target) (tick w1)
  open_proof (ok (opened o)) w = and_then (handed_out (ok o) w) begin_proof

  unfoldable pub target_identity : Value → Result Error DeclarationIdentity
  target_identity args =
      ok_or (invalid "target is required") (get "target" args)
      >>= (λ value. declaration_id value "target")

  unfoldable pub prove : Value → World → Outcome Shown
  unfolding reject_active_proof target_identity reconcile_artifacts open_proof
  prove args w =
      and_then
        (map_err failed (reject_unknown args ("target" ∷ []) >>= (λ _. target_identity args)), w)
        λ identity w1. and_then (reject_active_proof "prove" w1) λ _ w2.
          and_then (reconcile_artifacts env (identity.file ∷ []) w2)
            λ _ w3. open_proof (env.open_declaration w3.pet.clock identity) w3

  unfoldable pub declare : Value → World → Outcome Shown
  unfolding reject_active_proof reconcile_artifacts begin_proof handed_out
  declare args w =
      and_then
        (map_err failed (reject_unknown args ("name" ∷ "statement" ∷ "kind" ∷ "file" ∷ [])), w)
        λ _ w1.
          and_then (map_err failed (required_string args "name"), w1)
            λ name w2.
              and_then (map_err failed (required_string args "file"), w2)
                λ path w3.
                  and_then (map_err failed (declaration_kind (read_str (get "kind" args))), w3)
                    λ kind w4.
                      and_then (map_err failed (required_string args "statement"), w4)
                        λ statement w5. and_then (reject_active_proof "declare" w5) λ _ w6.
                          and_then (reconcile_artifacts env (forward_slashes path ∷ []) w6) λ _ w7.
                            and_then
                              (handed_out
                                (env.declare w7.pet.clock kind (forward_slashes path) name
                                  statement)
                                w7)
                              begin_proof

  not_active : Error
  not_active = new_error not_found (codes "no active unpublished proof has that declaration")

  unfoldable pub after_retire : Bool → World → World
  after_retire true w = invalidate_project_states w
  after_retire false w = w

  unfoldable pub abandon : Value → World → Outcome (Unit {0})
  unfolding target_identity proof_target not_active commit_or_cancelled retire_proof after_retire
  abandon args w =
      and_then
        (map_err failed (reject_unknown args ("target" ∷ []) >>= (λ _. target_identity args)), w)
        λ identity w1. and_then (proof_target env w1) λ target w2.
          if not (same_identity target.info.identity identity)
          then (err (failed not_active), w2)
          else and_then (commit_or_cancelled env w2)
              λ _ w3. and_then (retire_proof w3) λ lost w4. (ok tt, after_retire lost w4)

  -- Where `rewind` goes: an explicit checkpoint, or so many steps back, one if not stated.
  unfoldable pub rewind_target : Value → CheckpointBook Target → Result Stop CheckpointId
  rewind_target args book = elim (get "checkpoint" args) [
    | some value ↦
        map_err failed (ok_or (invalid "checkpoint must be positive") (positive (as_u64 value)))
    | none ↦ elim (get "steps" args) [
      | some value ↦
          map_err failed
            (ok_or (invalid "steps must be a positive integer") (positive (as_u64 value)))
          >>= (λ steps. of_book (steps_back steps book))
      | none ↦ of_book (steps_back 1 book)
    ]
  ]

  abbrev pub both_given : Value → Bool
  both_given args = elim (get "steps" args) [
    | none ↦ false
    | some s ↦ elim (get "checkpoint" args) [ none ↦ false | some c ↦ true ]
  ]

  unfoldable pub select_checkpoint : CheckpointId → World → Outcome (Unit {0})
  select_checkpoint id w =
      let (result, book) = select id w.book in (of_book result, record w { book = book })

  unfoldable pub rewind : Value → World → Outcome Shown
  unfolding rewind_target proof_target validate_proof_target reconcile_artifacts state_of
      commit_or_cancelled select_checkpoint show_checkpoint
  rewind args w =
      and_then (map_err failed (reject_unknown args ("steps" ∷ "checkpoint" ∷ [])), w)
        λ _ w0.
          if both_given args
          then (err (failed (invalid "steps and checkpoint are mutually exclusive")), w0)
          else and_then (rewind_target args w0.book, w0)
              λ id w1. and_then (proof_target env w1) λ target w2.
                and_then (validate_proof_target env target w2) λ _ w3.
                  and_then (reconcile_artifacts env (target.info.identity.file ∷ []) w3) λ _ w4.
                    and_then (of_book (find id w4.book), w4)
                      λ checkpoint w5. and_then (state_of env id checkpoint.pet_state w5) λ _ w6.
                        and_then (commit_or_cancelled env w6)
                          λ _ w7. and_then (select_checkpoint id w7) λ _ w8. show_checkpoint id w8
