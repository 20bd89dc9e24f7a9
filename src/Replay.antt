-- ===== src/Replay.antt =====
-- `replay_checkpoint` and its helpers of crates/rocq-mcp/src/adapter.rs: the PET states that a lost
-- process or a refresh took from a checkpoint's path are made again, one accepted fragment after
-- the other. The engine's calls answer by `Engine` at each tick of a clock; `Pet` remembers which
-- states they handed out and which were released. Progress notifications are left out.
pub mod Install
pub mod Owned
pub mod Total
pub mod History
mod Tests
use rocq_mcp.Prelude.{
  and_then, ℕ, suc, ◌+◌, Bool, true, false, not, Option, none, some, List, [], ◌∷◌, ◌++◌, map,
  if◌then◌else◌, Result, ok, err, map_err, codes, lookup, insert,
}
use rocq_mcp.Types.{Text, PetStateId, ProofState}
use rocq_mcp.Errors.{
  Error, PetError, new_error, invalid_request, invalid_configuration, declaration_changed,
}
use rocq_mcp.Errors.Project.{pet_release_error}
use rocq_mcp.Errors.Public.{invalidates_pet_epoch}
use rocq_mcp.Paging.{bounded_checkpoint_view}
use rocq_mcp.Checkpoint.{
  CheckpointId, Checkpoint, Checkpoints, CheckpointBook, ProofSession, CheckpointError,
  no_active_proof, active_proof, unknown, too_far, exhausted, path, current,
}

-- `OpenedProof` without its target, and `ProofStep`.
pub record ProofStep : Type 0 where
  pub state : PetStateId
  pub view : ProofState
  pub finished : Bool

pub record Engine : Type 0 where
  pub replay_root : ℕ → Result Error ProofStep
  pub run : ℕ → PetStateId → Text → Result Error ProofStep
  pub release_states : ℕ → List PetStateId → Result PetError (Unit {0})

pub record Pet : Type 0 where
  pub clock : ℕ
  pub taken : List PetStateId
  pub released : List PetStateId

abbrev pub Outcome : Type 0 → Type 0
Outcome A = Result Error A × Pet

unfoldable pub answer : Result Error ProofStep → Pet → Outcome ProofStep
answer (ok step) pet =
    (ok step, record pet { clock = suc pet.clock; taken = pet.taken ++ step.state ∷ [] })
answer (err e) pet = (err e, record pet { clock = suc pet.clock })

unfoldable pub release_answer :
    Result PetError (Unit {0}) → List PetStateId → Pet → Outcome (Unit {0})
release_answer (ok done) states pet =
    (ok tt, record pet { clock = suc pet.clock; released = pet.released ++ states })
release_answer (err e) states pet =
    (err (pet_release_error e), record pet { clock = suc pet.clock })

-- One element of `staged`.
pub record Staged : Type 0 where
  pub id : CheckpointId
  pub state : PetStateId
  pub view : ProofState
  pub goals_next_offset : Option ℕ

abbrev pub states : List Staged → List PetStateId
states [] = []
states (s ∷ rest) = s.state ∷ states rest

abbrev pub staged_root : CheckpointId → ProofStep → Staged
staged_root id step =
    let (view, offset) = bounded_checkpoint_view step.view in
    record { id = id; state = step.state; view = view; goals_next_offset = offset }

-- Structured goals are kept where the old view had them.
abbrev pub retained : ProofState → ProofState → ProofState
retained old view = elim old.structured_goals [
  | none ↦ record view { structured_goals = none }
  | some goals ↦ view
]

abbrev pub staged_step : CheckpointId → Checkpoint → ProofStep → Staged
staged_step id checkpoint step =
    let (view, offset) = bounded_checkpoint_view step.view in
    record {
      id = id;
      state = step.state;
      view = retained checkpoint.view view;
      goals_next_offset = offset;
    }

abbrev pub same_flag : Bool → Bool → Bool
same_flag true b = b
same_flag false b = not b

abbrev changed_error : Error
changed_error =
    new_error declaration_changed (codes "proof completion changed while restoring the checkpoint")

abbrev root_changed_error : Error
root_changed_error =
    new_error declaration_changed
      (codes "proof completion changed while restoring the initial checkpoint")

abbrev no_input_error : Error
no_input_error = new_error invalid_configuration (codes "non-root checkpoint has no accepted input")

-- What the loop carries on with: the last state, and what is staged.
abbrev pub Continuation : Type 0
Continuation = PetStateId → List Staged → Pet → Outcome (PetStateId × List Staged)

module _ (engine : Engine) where
  -- The states are given back, and the error returned.
  unfoldable pub refuse : {A : Type 0} → List PetStateId → Error → Pet → Outcome A
  unfolding release_answer
  refuse states error pet =
      and_then (release_answer (engine.release_states pet.clock states) states pet)
        (λ _ pet'. (err error, pet'))

  unfoldable pub accept :
      CheckpointId
      → Checkpoint
      → List Staged
      → Outcome ProofStep
      → Continuation
      → Outcome (PetStateId × List Staged)
  unfolding refuse
  accept id checkpoint staged (err error, pet) k =
      if invalidates_pet_epoch error.kind
      then (err error, pet)
      else refuse (states staged) error pet
  accept id checkpoint staged (ok step, pet) k =
      if same_flag step.finished checkpoint.finished
      then k step.state (staged ++ staged_step id checkpoint step ∷ []) pet
      else refuse (states staged ++ step.state ∷ []) changed_error pet

  -- The loop over the records after `start`.
  unfoldable pub replay_steps : List (CheckpointId × Checkpoint) → Continuation
  unfolding accept answer
  replay_steps [] state staged pet = (ok (state, staged), pet)
  replay_steps ((id, checkpoint) ∷ rest) state staged pet = elim checkpoint.accepted_input [
    | none ↦ (err no_input_error, pet)
    | some input ↦
        accept id checkpoint staged (answer (engine.run pet.clock state input) pet)
          (replay_steps rest)
  ]

  unfoldable pub accept_root :
      CheckpointId
      → Checkpoint
      → Outcome ProofStep
      → Continuation
      → Outcome (PetStateId × List Staged)
  unfolding refuse
  accept_root id checkpoint (err error, pet) k = (err error, pet)
  accept_root id checkpoint (ok step, pet) k =
      if same_flag step.finished checkpoint.finished
      then k step.state (staged_root id step ∷ []) pet
      else refuse (step.state ∷ []) root_changed_error pet

  -- From the first record without a state; `none` stands for no record before it.
  unfoldable pub replay_from :
      Option PetStateId
      → CheckpointId
      → Checkpoint
      → List (CheckpointId × Checkpoint)
      → Pet
      → Outcome (PetStateId × List Staged)
  unfolding accept_root replay_steps answer
  replay_from none id checkpoint rest pet =
      accept_root id checkpoint (answer (engine.replay_root pet.clock) pet) (replay_steps rest)
  replay_from (some state) id checkpoint rest pet =
      replay_steps ((id, checkpoint) ∷ rest) state [] pet

  -- The records of a path, root first; the outer `none` is the panic on an empty path.
  unfoldable pub stage :
      Option PetStateId
      → List (CheckpointId × Checkpoint)
      → Pet
      → Option (Outcome (PetStateId × List Staged))
  unfolding replay_from
  stage none [] pet = none
  stage (some state) [] pet = some (ok (state, []), pet)
  stage previous ((id, checkpoint) ∷ rest) pet = elim checkpoint.pet_state [
    | some state ↦ stage (some state) rest pet
    | none ↦ some (replay_from previous id checkpoint rest pet)
  ]
