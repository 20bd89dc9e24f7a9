-- ===== src/Session/Alike.antt =====
-- The steps that the handlers of crates/rocq-mcp/src/adapter.rs share leave the session's history
-- and selection as they were, and so does the whole of `try`.
use rocq_mcp.Prelude.{
  ◌≡◌, refl, Bool, true, false, Option, none, some, List, [], ◌∷◌, Result, ok, err, map_err,
  and_then-keeps, if-keeps,
}
use rocq_mcp.Types.{Text, FileId, PetStateId}
use rocq_mcp.Types.Json.{Value}
use rocq_mcp.Errors.{Error}
use rocq_mcp.Checkpoint.{
  CheckpointId, Checkpoint, CheckpointBook, CheckpointError, ProofSession, current, path, fragments,
}
use rocq_mcp.Checkpoint.Alike.{
  Alike, Alike-refl, Alike-trans, Alike-history, invalidate_states-Alike,
}
use rocq_mcp.Replay.{Pet}
use rocq_mcp.Replay.Install.{replay_checkpoint}
use rocq_mcp.Replay.History.{replay_checkpoint-Alike}
use rocq_mcp.Writeback.{Target}
use rocq_mcp.Arguments.{settings}
use rocq_mcp.Session.{
  Environment, World, Fingerprint, TracedProofStep, success, failure, tick, restart,
  invalidate_project_states, replayed, reject_cancelled, commit_or_cancelled, validate_proof_target,
  goals_of, release_states, taken_by, failed, state_of, ensured, target_of, run_traced, replay,
  ensure_current_state, proof_target,
}
use rocq_mcp.Session.Artifacts.{
  built_file, fingerprint_of, reconcile_file, reconcile_files, unique_files, end_epoch,
  reconcile_artifacts, forget_artifact,
}
use rocq_mcp.Session.Attempt.{prepare_base, is_timeout, tried, try_one, try_all, try_fragments}

module _ (env : Environment) (b : CheckpointBook Target) where
  -- The history and the selection are those of `b`.
  unfoldable pub Keeps : World → Type 0
  Keeps w = Alike b w.book

  pub invalidate_project_states-Keeps : (w : World) → Keeps w → Keeps (invalidate_project_states w)
  unfolding Keeps invalidate_project_states
  invalidate_project_states-Keeps w h = Alike-trans h (invalidate_states-Alike w.book)

  pub reject_cancelled-Keeps : (w : World) → Keeps w → Keeps (reject_cancelled env w).1
  unfolding Keeps reject_cancelled
  reject_cancelled-Keeps w h = if-keeps Keeps (env.request_cancelled_at w.pet.clock) _ _ h h

  pub commit_or_cancelled-Keeps : (w : World) → Keeps w → Keeps (commit_or_cancelled env w).1
  unfolding Keeps commit_or_cancelled
  commit_or_cancelled-Keeps w h = if-keeps Keeps (env.commit_request_at w.pet.clock) _ _ h h

  pub release_states-Keeps :
      (ids : List PetStateId) (w : World) → Keeps w → Keeps (release_states env ids w).1
  unfolding Keeps release_states
  release_states-Keeps ids w h = h

  pub taken_by-Keeps :
      (r : Result Error TracedProofStep) (w : World) → Keeps w → Keeps (taken_by env r w)
  unfolding Keeps taken_by
  taken_by-Keeps (ok (success step)) w h = h
  taken_by-Keeps (ok (failure f)) w h = h
  taken_by-Keeps (err e) w h = h

  replayed-Keeps :
      (w : World) (o : Option ((Result Error PetStateId × Pet) × CheckpointBook Target))
      → ((r : Result Error PetStateId × Pet) (book : CheckpointBook Target)
          → o ≡ some (r, book)
          → Alike w.book book)
      → Keeps w
      → Keeps (replayed o w).1
  unfolding Keeps replayed
  replayed-Keeps w none alike h = h
  replayed-Keeps w (some ((r, pet), book)) alike h = Alike-trans h (alike (r, pet) book refl)

  replay-Keeps : (id : CheckpointId) (w : World) → Keeps w → Keeps (replay env id w).1
  unfolding replay
  replay-Keeps id w h =
      replayed-Keeps w (replay_checkpoint env.engine id w.book w.pet)
        (replay_checkpoint-Alike env.engine id w.book w.pet) h

  pub state_of-Keeps :
      (id : CheckpointId) (state : Option PetStateId) (w : World)
      → Keeps w
      → Keeps (state_of env id state w).1
  unfolding state_of
  state_of-Keeps id (some state) w h = h
  state_of-Keeps id none w h = replay-Keeps id w h

  ensured-Keeps :
      (r : Result CheckpointError (CheckpointId × Checkpoint)) (w : World)
      → Keeps w
      → Keeps (ensured env r w).1
  unfolding ensured
  ensured-Keeps (err e) w h = h
  ensured-Keeps (ok (id, c)) w h =
      and_then-keeps Keeps (state_of env id c.pet_state w) _ (state_of-Keeps id c.pet_state w h)
        (λ state w' h'. h')

  pub ensure_current_state-Keeps : (w : World) → Keeps w → Keeps (ensure_current_state env w).1
  unfolding ensure_current_state
  ensure_current_state-Keeps w h = ensured-Keeps (current w.book) w h

  pub target_of-Keeps :
      (p : Option (ProofSession Target)) (w : World) → Keeps w → Keeps (target_of env p w).1
  unfolding target_of
  target_of-Keeps none w h = h
  target_of-Keeps (some s) w h = h

  pub tick-Keeps : (w : World) → Keeps w → Keeps (tick w)
  unfolding Keeps
  tick-Keeps w h = h

  built_file-Keeps :
      (file : FileId) (before : Fingerprint) (epoch : Bool) (r : Result Error Fingerprint)
      (w : World)
      → Keeps w
      → Keeps (built_file env file before epoch r w).1
  unfolding built_file Keeps
  built_file-Keeps file before epoch (ok built) w h = h
  built_file-Keeps file before epoch (err e) w h =
      invalidate_project_states-Keeps
        (restart (record w { artifacts = forget_artifact file w.artifacts })) h

  reconcile_file-Keeps :
      (file : FileId) (epoch : Bool) (w : World)
      → Keeps w
      → Keeps (reconcile_file env file epoch w).1
  unfolding reconcile_file fingerprint_of
  reconcile_file-Keeps file epoch w h =
      and_then-keeps Keeps (reject_cancelled env w) _ (reject_cancelled-Keeps w h) λ _ w1 h1.
        and_then-keeps Keeps (fingerprint_of env file w1) _ (tick-Keeps w1 h1) λ before w2 h2.
          built_file-Keeps file before epoch (env.reconcile_source w2.pet.clock file) (tick w2)
            (tick-Keeps w2 h2)

  reconcile_files-Keeps :
      (files : List FileId) (epoch : Bool) (w : World)
      → Keeps w
      → Keeps (reconcile_files env files epoch w).1
  unfolding reconcile_files
  reconcile_files-Keeps [] epoch w h = h
  reconcile_files-Keeps (file ∷ rest) epoch w h =
      and_then-keeps Keeps (reconcile_file env file epoch w) _ (reconcile_file-Keeps file epoch w h)
        (λ epoch' w' h'. reconcile_files-Keeps rest epoch' w' h')

  end_epoch-Keeps : (epoch : Bool) (w : World) → Keeps w → Keeps (end_epoch env epoch w).1
  unfolding end_epoch Keeps
  end_epoch-Keeps true w h = invalidate_project_states-Keeps (restart w) h
  end_epoch-Keeps false w h = h

  pub reconcile_artifacts-Keeps :
      (files : List FileId) (w : World) → Keeps w → Keeps (reconcile_artifacts env files w).1
  unfolding reconcile_artifacts
  reconcile_artifacts-Keeps files w h =
      and_then-keeps Keeps (reconcile_files env (unique_files [] files) false w) _
        (reconcile_files-Keeps (unique_files [] files) false w h) end_epoch-Keeps

  pub prepare_base-Keeps : (w : World) → Keeps w → Keeps (prepare_base env w).1
  unfolding prepare_base proof_target validate_proof_target goals_of
  prepare_base-Keeps w h =
      and_then-keeps Keeps (proof_target env w) _ (target_of-Keeps w.book.proof w h) λ target w1 h1.
        and_then-keeps Keeps (validate_proof_target env target w1) _ (tick-Keeps w1 h1) λ _ w2 h2.
          and_then-keeps Keeps (reconcile_artifacts env (target.info.identity.file ∷ []) w2) _
            (reconcile_artifacts-Keeps (target.info.identity.file ∷ []) w2 h2)
            λ _ w3 h3.
              and_then-keeps Keeps (ensure_current_state env w3) _
                (ensure_current_state-Keeps w3 h3)
                λ found w4 h4.
                  and_then-keeps Keeps (goals_of env found.1 w4) _ (tick-Keeps w4 h4)
                    (λ view w5 h5. h5)

  tried-Keeps :
      (r : Result Error TracedProofStep) (w : World) → Keeps w → Keeps (tried env (r, w)).1
  unfolding tried
  tried-Keeps (ok (success step)) w h =
      and_then-keeps Keeps (reject_cancelled env w) _ (reject_cancelled-Keeps w h) λ _ w1 h1.
        and_then-keeps Keeps (release_states env (step.state ∷ []) w1) _
          (release_states-Keeps (step.state ∷ []) w1 h1) (λ _ w2 h2. h2)
  tried-Keeps (ok (failure f)) w h = h
  tried-Keeps (err e) w h =
      if-keeps Keeps (is_timeout e.kind) _ _ (invalidate_project_states-Keeps w h) h

  try_one-Keeps : (fragment : Text) (w : World) → Keeps w → Keeps (try_one env fragment w).1
  unfolding try_one run_traced
  try_one-Keeps fragment w h =
      and_then-keeps Keeps (ensure_current_state env w) _ (ensure_current_state-Keeps w h)
        λ found w' h'.
          tried-Keeps (env.run_traced w'.pet.clock found.1 fragment) _
            (taken_by-Keeps (env.run_traced w'.pet.clock found.1 fragment) w' h')

  try_all-Keeps : (texts : List Text) (w : World) → Keeps w → Keeps (try_all env texts w).1
  unfolding try_all
  try_all-Keeps [] w h = h
  try_all-Keeps (fragment ∷ rest) w h =
      and_then-keeps Keeps (try_one env fragment w) _ (try_one-Keeps fragment w h) λ entry w1 h1.
        and_then-keeps Keeps (try_all env rest w1) _ (try_all-Keeps rest w1 h1)
          (λ entries w2 h2. h2)

  try_fragments-Keeps : (args : Value) (w : World) → Keeps w → Keeps (try_fragments env args w).1
  unfolding try_fragments
  try_fragments-Keeps args w h =
      and_then-keeps Keeps (map_err failed (settings args), w) _ h
        λ s w1 h1.
          and_then-keeps Keeps (prepare_base env w1) _ (prepare_base-Keeps w1 h1)
            λ base w2 h2. try_all-Keeps s.fragments w2 h2

-- Whatever PET, Dune and the client's cancellation do, and however `try` ends, the selected
-- checkpoint, the proof's target, and the path and the accepted fragments of every identifier are
-- as they were, and the next identifier is the same.
pub try_fragments-Alike :
    (env : Environment) (args : Value) (w : World)
    → Alike w.book (try_fragments env args w).1.book
      × ((id : CheckpointId)
          → (path id (try_fragments env args w).1.book ≡ path id w.book)
            × (fragments id (try_fragments env args w).1.book ≡ fragments id w.book))
unfolding Keeps
try_fragments-Alike env args w =
    let h : Alike w.book (try_fragments env args w).1.book =
      try_fragments-Keeps env w.book args w (Alike-refl w.book) in
    (h, Alike-history h)
